-- ===== src/Hub/Loop.antt =====
-- What the main loop of a connection does to the jobs, and how it ends.
use shared_compute.Common.{
  ℕ, ◌+◌, ◌≡◌, refl, sym, ap, ◌∙◌, subst, String, Bool, true, false, Option, none, some, List, [],
  ◌∷◌, ◌++◌, ltb, str_eq, eq_iff, eq_refl, Bool-cases, Option-cases, inl, inr, arith, All,
}
use mathlib.Core.Option.{some-injective}
use shared_compute.Common.Dict
use shared_compute.Common.Dict.{get-put, get-delete}
use shared_compute.Jobs
use shared_compute.Jobs.{Manager, Event, Assignment, Kind, chunk, done, error}
use shared_compute.Jobs.Valid.{IsValid, Op, delivers, step, run, run-append, drop_reply, step-Steps}
use shared_compute.Jobs.Isolation.{Holds, delivered_by, run-foreign}
use shared_compute.Registry
use shared_compute.Registry.{Provider, Registry}
use shared_compute.Hub.Registration.{IsSound, registration-IsSound}
use shared_compute.Hub.{
  Wire, Coordinator, Read, Frame, frame, timed_out, broken, serve, then_serve, on_frame, dispatch,
  deliver, deliver_probed, with_jobs, parse, leave, change_provider, changed, set_telemetry,
  registration, after_admission, handle_provider, Admission, refused, admitted,
}

All-append {ℓ κ} :
    {A : Type ℓ} (P : A → Type κ) (xs ys : List A) → All P xs → All P ys → All P (xs ++ ys)
All-append P [] ys hx hy = hy
All-append P (x ∷ xs) ys hx hy = (hx.0, All-append P xs ys hx.1 hy)

-- The registries agree on every id but `id`.
abbrev pub SameOthers : String → Registry → Registry → Type 0
SameOthers id r s = (q : String) → str_eq id q ≡ false → Dict.get s q ≡ Dict.get r q

changed-SameOthers :
    (id : String) (f : Provider → Provider) (r : Registry) (o : Option Provider)
    → SameOthers id r (changed id f r o)
unfolding changed
changed-SameOthers id f r none q n = refl
changed-SameOthers id f r (some p) q n = rw (get-put, n) refl

-- From one manager to a valid one by deliveries of `p` alone.
pub record Delivers (p : String) (s t : Manager) : Type 0 where
  pub frames : List Op
  pub own : All (λ o. delivered_by p o ≡ true) frames
  pub runs : run s frames ≡ some t
  pub valid : IsValid t

Delivers-none : (p : String) (s : Manager) → IsValid s → Delivers p s s
unfolding run
Delivers-none p s v = record { frames = []; own = tt; runs = refl; valid = v }

Delivers-then : (p : String) (s t u : Manager) → Delivers p s t → Delivers p t u → Delivers p s u
Delivers-then p s t u d e = record {
  frames = d.frames ++ e.frames;
  own = All-append _ d.frames e.frames d.own e.own;
  runs = run-append s t u d.frames e.frames d.runs e.runs;
  valid = e.valid;
}

module _ (w : Wire) (p : Provider) where
  -- The call does not panic, and only delivers.
  Moves : Coordinator → Option Coordinator → Type 0
  Moves c r =
      (d : Coordinator) × (r ≡ some d) × Delivers p.id c.jobs d.jobs × SameOthers p.id c.reg d.reg

  with_jobs-Moves :
      (k : String) (ev : Event) (c : Coordinator)
      → IsValid c.jobs
      → Moves c (with_jobs w c (Jobs.deliver k p.id ev c.jobs))
  unfolding Moves with_jobs step run drop_reply
  with_jobs-Moves k ev c v =
      let (m, e, u) = step-Steps c.jobs (delivers k p.id ev) v in
      elim (Option-cases (Jobs.deliver k p.id ev c.jobs)) [
        | inl n ↦ let q : none ≡ some m = ap drop_reply (sym n) ∙ e in absurd cc
        | inr ((t, b), g) ↦
            let q : t ≡ m = some-injective _ _ (ap drop_reply (sym g) ∙ e) in
            rw g (
              record c { jobs = t },
              refl,
              record {
                frames = delivers k p.id ev ∷ [];
                own = (eq_refl p.id, tt);
                runs = rw g refl;
                valid = rw q u;
              },
              λ x y. refl,
            )
      ]

  deliver-Moves :
      (raw : String) (kind : Kind) (c : Coordinator)
      → IsValid c.jobs
      → Moves c (deliver w p.id raw kind c)
  unfolding Moves deliver deliver_probed
  deliver-Moves raw kind c v = elim (Option-cases (w.job_id_of raw)) [
    | inl n ↦ rw n (c, refl, Delivers-none p.id c.jobs v, λ x y. refl)
    | inr (k, e) ↦ elim (Bool-cases (str_eq k "")) [
      | inl t ↦ rw (e, t) (c, refl, Delivers-none p.id c.jobs v, λ x y. refl)
      | inr t ↦ rw (e, t) (with_jobs-Moves k (record { kind = kind; raw = raw }) c v)
    ]
  ]

  dispatch-Moves :
      (now : ℕ) (f : Frame) (c : Coordinator) → IsValid c.jobs → Moves c (dispatch w p now f c)
  unfolding Moves dispatch
  dispatch-Moves now f c v = elim (Bool-cases (str_eq f.type_of "heartbeat")) [
    | inl t ↦ rw t (
      _,
      refl,
      Delivers-none p.id c.jobs v,
      changed-SameOthers p.id (set_telemetry (w.telemetry_of f.raw)) c.reg (Dict.get c.reg p.id),
    )
    | inr a ↦ elim (Bool-cases (str_eq f.type_of "model_ready")) [
      | inl t ↦ rw (a, t) (_, refl, Delivers-none p.id c.jobs v, λ x y. refl)
      | inr b ↦ elim (Bool-cases (str_eq f.type_of "benchmark_report")) [
        | inl t ↦ rw (a, b, t) (_, refl, Delivers-none p.id c.jobs v, λ x y. refl)
        | inr d ↦ elim (Bool-cases (str_eq f.type_of "job_chunk")) [
          | inl t ↦ rw (a, b, d, t) (deliver-Moves f.raw chunk c v)
          | inr e ↦ elim (Bool-cases (str_eq f.type_of "job_done")) [
            | inl t ↦ rw (a, b, d, e, t) (deliver-Moves f.raw done c v)
            | inr g ↦ elim (Bool-cases (str_eq f.type_of "job_error")) [
              | inl t ↦ rw (a, b, d, e, g, t) (deliver-Moves f.raw error c v)
              | inr t ↦ rw (a, b, d, e, g, t) (_, refl, Delivers-none p.id c.jobs v, λ x y. refl)
            ]
          ]
        ]
      ]
    ]
  ]

  on_frame-Moves :
      (now : ℕ) (o : Option Frame) (c : Coordinator)
      → IsValid c.jobs
      → Moves c (on_frame w p now o c)
  unfolding Moves on_frame
  on_frame-Moves now none c v = (c, refl, Delivers-none p.id c.jobs v, λ x y. refl)
  on_frame-Moves now (some f) c v =
      let touch = λ (q : Provider). record q { last_seen = now } in
      let (d, e, m, same) = dispatch-Moves now f (change_provider p.id touch c) v in
      (d, e, m, λ q n. same q n ∙ changed-SameOthers p.id touch c.reg (Dict.get c.reg p.id) q n)

  serve-Delivers :
      (missed : ℕ) (reads : List Read) (c : Coordinator)
      → IsValid c.jobs
      → (d : Coordinator) × (b : Bool) × (serve w p missed reads c ≡ some (d, b))
        × Delivers p.id c.jobs d.jobs
        × SameOthers p.id c.reg d.reg
  unfolding serve then_serve Moves
  serve-Delivers missed [] c v = (c, false, refl, Delivers-none p.id c.jobs v, λ x y. refl)
  serve-Delivers missed (frame raw now ∷ rs) c v =
      let (d, e, more, one) = on_frame-Moves now (parse w raw) c v in
      let (d', b, ran, rest, same) = serve-Delivers 0 rs d more.valid in
      rw e
        (d', b, ran, Delivers-then p.id c.jobs d.jobs d'.jobs more rest, λ q n. same q n ∙ one q n)
  serve-Delivers missed (timed_out ∷ rs) c v = elim (Bool-cases (ltb (missed + 1) 2)) [
    | inl t ↦ rw t (serve-Delivers (missed + 1) rs c v)
    | inr t ↦ rw t (c, true, refl, Delivers-none p.id c.jobs v, λ x y. refl)
  ]
  serve-Delivers missed (broken ∷ rs) c v =
      (c, true, refl, Delivers-none p.id c.jobs v, λ x y. refl)

  -- From a valid jobs manager the main loop of a provider's connection never panics, whatever frames
  -- come, and a job that is assigned to another provider keeps its registration and what its channel
  -- holds.
  pub serve_isolated :
      (missed : ℕ) (reads : List Read) (c : Coordinator) (j : String) (a : Assignment)
      (q : List Event)
      → IsValid c.jobs
      → Holds c.jobs j a q
      → str_eq a.provider_id p.id ≡ false
      → (d : Coordinator) × (b : Bool) × (serve w p missed reads c ≡ some (d, b))
        × IsValid d.jobs
        × Holds d.jobs j a q
  serve_isolated missed reads c j a q v h n =
      let (d, b, ran, m, same) = serve-Delivers missed reads c v in
      (d, b, ran, m.valid, run-foreign p.id j a q c.jobs d.jobs m.frames v h n m.own m.runs)

  ended :
      (missed : ℕ) (before after : List Read) (c d : Coordinator) (b : Bool)
      → serve w p missed (before ++ timed_out ∷ timed_out ∷ after) c ≡ some (d, b)
      → b ≡ true
  unfolding serve then_serve
  ended missed [] after c d b = elim (Bool-cases (ltb (missed + 1) 2)) [
    | inl t ↦
        let two : ltb (missed + 1 + 1) 2 ≡ false = ground arith in
        rw (t, two) λ h. sym (ap (λ (x : Coordinator × Bool). x.1) (some-injective _ _ h))
    | inr t ↦ rw t λ h. sym (ap (λ (x : Coordinator × Bool). x.1) (some-injective _ _ h))
  ]
  ended missed (frame raw now ∷ before) after c d b =
      elim (Option-cases (on_frame w p now (parse w raw) c)) [
        | inl n ↦ rw n λ h. absurd cc
        | inr (c', n) ↦ rw n λ h. ended 0 before after c' d b h
      ]
  ended missed (timed_out ∷ before) after c d b = elim (Bool-cases (ltb (missed + 1) 2)) [
    | inl t ↦ rw t λ h. ended (missed + 1) before after c d b h
    | inr t ↦ rw t λ h. sym (ap (λ (x : Coordinator × Bool). x.1) (some-injective _ _ h))
  ]
  ended missed (broken ∷ before) after c d b =
      λ h. sym (ap (λ (x : Coordinator × Bool). x.1) (some-injective _ _ h))

  -- From a valid jobs manager the main loop returns as soon as two timeouts come in a row, whatever
  -- reads come before and after them.
  pub serve_ends :
      (missed : ℕ) (before after : List Read) (c : Coordinator)
      → IsValid c.jobs
      → (d : Coordinator) × (serve w p missed (before ++ timed_out ∷ timed_out ∷ after) c
          ≡ some (d, true))
  serve_ends missed before after c v =
      let (d, b, ran, m, same) =
        serve-Delivers missed (before ++ timed_out ∷ timed_out ∷ after) c v in
      (
        d,
        subst (λ x. serve w p missed (before ++ timed_out ∷ timed_out ∷ after) c ≡ some (d, x))
            (ended missed before after c d b ran) ran,
      )

-- Removing what was added over a fresh id gives back the registry.
removed :
    (id : String) (p : Provider) (r s : Registry) (q : String)
    → Dict.get r id ≡ none
    → p.id ≡ id
    → SameOthers p.id (Registry.add r p) s
    → Dict.get (Registry.remove s p.id) q ≡ Dict.get r q
unfolding Registry.add Registry.remove
removed id p r s q n i same = elim (Bool-cases (str_eq p.id q)) [
  | inl t ↦
      let here : Dict.get r q ≡ none = ap (Dict.get r) (sym ((eq_iff p.id q).0 t) ∙ i) ∙ n in
      rw (get-delete, t, here) refl
  | inr t ↦ rw (get-delete, t) (same q t ∙ rw (get-put, t) refl)
]

-- What a connection with the fresh id `id` leaves of the jobs and the registry.
abbrev Passed : String → Coordinator → Option (Coordinator × Bool) → Type 0
Passed id c r =
    (d : Coordinator) × (b : Bool) × (r ≡ some (d, b))
    × IsValid d.jobs
    × (b ≡ true → (q : String) → Dict.get d.reg q ≡ Dict.get c.reg q)

module _ (w : Wire) where
  leave-Passed :
      (id : String) (p : Provider) (c d : Coordinator) (b : Bool)
      → IsValid d.jobs
      → ((q : String) → Dict.get (Registry.remove d.reg p.id) q ≡ Dict.get c.reg q)
      → Passed id c (leave w p.id (some (d, b)))
  unfolding leave
  leave-Passed id p c d true u kept = (_, true, refl, u, λ x. kept)
  leave-Passed id p c d false u kept = (d, false, refl, u, λ x. absurd cc)

  after_admission-Passed :
      (id : String) (first : Option String) (acked : Bool) (reads : List Read) (c : Coordinator)
      (a : Admission)
      → IsValid c.jobs
      → Dict.get c.reg id ≡ none
      → IsSound w id first c a
      → Passed id c (after_admission w acked reads a)
  unfolding after_admission leave
  after_admission-Passed id first acked reads c (refused d) v n (r, j, s, l) =
      (d, true, refl, rw j v, λ x q. rw r refl)
  after_admission-Passed id first true reads c (admitted p d) v n (raw, f, shown, i, r, j) =
      let (d', b, ran, m, same) = serve-Delivers w p 0 reads d (rw j v) in
      let kept = λ (q : String).
        removed id p c.reg d'.reg q n i (subst (λ x. SameOthers p.id x d'.reg) r same) in
      rw ran (leave-Passed id p c d' b m.valid kept)
  after_admission-Passed id first false reads c (admitted p d) v n (raw, f, shown, i, r, j) = (
    _,
    true,
    refl,
    rw j v,
    λ x q. removed id p c.reg d.reg q n i (subst (λ x. SameOthers p.id x d.reg) r (λ k m. refl)),
  )

  -- Over a fresh id and a valid jobs manager, a connection never panics, whatever its first frame and
  -- its later reads are, and leaves a valid manager; when it is over, the registry has the providers
  -- that it had before, and not the one of the connection.
  pub get-handle_provider :
      (id : String) (now : ℕ) (first : Option String) (acked : Bool) (reads : List Read)
      (c : Coordinator)
      → IsValid c.jobs
      → Dict.get c.reg id ≡ none
      → (d : Coordinator) × (b : Bool) × (handle_provider w id now first acked reads c
          ≡ some (d, b))
        × IsValid d.jobs
        × (b ≡ true → (q : String) → Dict.get d.reg q ≡ Dict.get c.reg q)
  unfolding handle_provider
  get-handle_provider id now first acked reads c v n =
      after_admission-Passed id first acked reads c (registration w id now first c) v n
        (registration-IsSound w id now first c)
