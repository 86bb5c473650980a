-- ===== src/Relay/Stream.antt =====
-- What the loop of ExecuteOn passes on and accepts of a provider's stream.
use mathlib.Core.List.{append-nil, append_assoc}
use shared_compute.Common.{
  ◌+◌, ◌%◌, ◌<◌, ◌≡◌, inl, inr, ap, sym, refl, ◌∙◌, String, true, false, not, ◌||◌, some, List, [],
  ◌∷◌, ◌++◌, map, length, str_eq, Bool-cases, Option-cases, arith,
}
use shared_compute.Common.Int64.{Int64, add64, lt64, is_neg, modulus}
use shared_compute.Crypto.{Library}
use shared_compute.Jobs
use shared_compute.Jobs.{chunk, done, error}
use shared_compute.Relay.{
  JobDone, Codec, Job, Result, Failure, Outcome, finished, failed, Signal, State, cancelled,
  expired, drained, event, cancel, result, finish, on_event, on_signal, after, loop, prompt_units,
  provider_error, provider_gone, context_done, deadline,
}
use shared_compute.Relay.Frames.{IsStream, chunk_signal, delta_of, advance, take_cases}

module _ (lib : Library) (codec : Codec lib) (job : Job lib) where
  -- The frame that ends the job: a job_done of the job whose prompt count lies between 0 and the
  -- ceiling.
  pub record IsDone (raw : String) (jd : JobDone) : Type 0 where
    pub read_done : codec.done_of raw ≡ some jd
    pub done_job : str_eq jd.job_id job.job_id ≡ true
    pub not_negative : is_neg jd.usage.prompt_tokens ≡ false
    pub below_ceiling :
        lt64 (prompt_units lib codec job 0 job.messages) jd.usage.prompt_tokens ≡ false

  -- The rest starts with the job's last frame, and the result has the count of `n` and the frames.
  abbrev pub Completes : Int64 → List String → List Signal → Result → Type 0
  Completes n raws rest res =
      (raw : String) × (jd : JobDone) × (later : List Signal) × (rest
        ≡ event (record { kind = done; raw = raw }) ∷ later)
      × IsDone raw jd
      × (res ≡ result lib codec job jd ((n + length raws) % modulus))

  -- How the signals of a loop from `s` that ends in `r` fall into a stream of chunks and a rest.
  abbrev pub Accounted : List Signal → State → State × Outcome → Type 0
  Accounted sigs s r =
      (raws : List String) × (ds : List String) × (rest : List Signal) × (sigs
        ≡ map chunk_signal raws ++ rest)
      × IsStream lib codec job s.expected_seq raws ds
      × (r.0.deltas ≡ s.deltas ++ ds)
      × ((res : Result) → r.1 ≡ finished res → Completes s.expected_seq raws rest res)

  finish_cases :
      (raw : String) (s : State) (res : Result)
      → s.expected_seq < modulus
      → finish lib codec job (codec.done_of raw) s ≡ finished res
      → (jd : JobDone) × IsDone raw jd
        × (res ≡ result lib codec job jd ((s.expected_seq + 0) % modulus))
  unfolding finish
  finish_cases raw s res w = elim (Option-cases (codec.done_of raw)) [
    | inl e ↦ rw e λ h. absurd cc
    | inr (jd, e) ↦
        elim (Bool-cases (
          not (str_eq jd.job_id job.job_id)
          || (is_neg jd.usage.prompt_tokens
              || lt64 (prompt_units lib codec job 0 job.messages) jd.usage.prompt_tokens))) [
                | inl bad ↦ rw (e, bad) λ h. absurd cc
                | inr ok ↦
                    rw (e, ok)
                      λ h.
                        let n : s.expected_seq ≡ (s.expected_seq + 0) % modulus = omega arith in
                        (
                          jd,
                          record {
                            read_done = e;
                            done_job = ground (arith, ok);
                            not_negative = ground (arith, ok);
                            below_ceiling = ground (arith, ok);
                          },
                          rw (← n) cc,
                        )
              ]
  ]

  -- A loop that ends at its first signal without a result has passed nothing on.
  ended :
      (sigs : List Signal) (s t : State) (f : Failure)
      → t.deltas ≡ s.deltas
      → Accounted sigs s (t, failed f)
  ended sigs s t f e = ([], [], sigs, refl, refl, e ∙ sym (append-nil s.deltas), λ res h. absurd cc)

  loop_event :
      (k : Jobs.Kind) (raw : String) (xs : List Signal) (s : State)
      → s.expected_seq < modulus
      → ((t : State) → t.expected_seq < modulus → Accounted xs t (loop lib codec job xs t))
      → let sigs = event (record { kind = k; raw = raw }) ∷ xs in
        Accounted sigs s (loop lib codec job sigs s)
  unfolding loop on_signal on_event
  loop_event chunk raw xs s w rest = elim (take_cases lib codec job raw s) [
    | inl (cp, c, g) ↦
        let (raws, ds, later, split, stream, passed, completes) =
          rest (advance lib codec job cp s) (omega arith) in
        rw (g, after)
          (
            raw ∷ raws,
            delta_of cp.delta ++ ds,
            later,
            ap (λ l. chunk_signal raw ∷ l) split,
            (cp, c, ds, stream, refl),
            passed ∙ append_assoc s.deltas (delta_of cp.delta) ds,
            λ res h.
                let (last, jd, tail, e, d, r) = completes res h in
                let n : (add64 s.expected_seq 1 + length raws) % modulus
                    ≡ (s.expected_seq + length (raw ∷ raws)) % modulus =
                  omega arith in
                (last, jd, tail, e, d, rw (← n) r),
          )
    | inr (t, f, g, e) ↦ rw (g, after) (ended (chunk_signal raw ∷ xs) s t f e)
  ]
  loop_event done raw xs s w rest = (
    [],
    [],
    event (record { kind = done; raw = raw }) ∷ xs,
    refl,
    refl,
    sym (append-nil s.deltas),
    λ res h. let (jd, d, r) = finish_cases raw s res w h in (raw, jd, xs, refl, d, r),
  )
  loop_event error raw xs s w rest =
      ended (event (record { kind = error; raw = raw }) ∷ xs) s s
        (provider_error (codec.error_code_of raw)) refl

  -- Whatever signals a job gets, from an expected number below 2 ^ 64 on, the deltas that its
  -- client was passed are those of a stream of the job's own chunks, numbered in order without a
  -- gap from the expected number and within the token ceiling, which the signals start with; and if
  -- a result is returned, a valid job_done follows that stream, and the result's completion tokens
  -- are the count of its chunks, added to the expected number modulo 2 ^ 64.
  pub loop-Accounted :
      (sigs : List Signal) (s : State)
      → s.expected_seq < modulus
      → Accounted sigs s (loop lib codec job sigs s)
  unfolding loop on_signal
  loop-Accounted [] s w = ([], [], [], refl, refl, sym (append-nil s.deltas), λ res h. absurd cc)
  loop-Accounted (cancelled ∷ xs) s w =
      ended (cancelled ∷ xs) s (cancel "client-disconnect" s) context_done refl
  loop-Accounted (expired ∷ xs) s w = ended (expired ∷ xs) s (cancel "deadline" s) deadline refl
  loop-Accounted (drained ∷ xs) s w = ended (drained ∷ xs) s s provider_gone refl
  loop-Accounted (event ev ∷ xs) s w =
      loop_event ev.kind ev.raw xs s w (λ t u. loop-Accounted xs t u)
