-- ===== src/Runs/Expiry.antt =====
-- A result is served to its end and not beyond it.
use shared_compute.Common.{
  ℕ, ◌≡◌, refl, ◌∙◌, String, Bool, false, ◌&&◌, ◌||◌, none, some, [], ◌∷◌, ltb, str_eq, eq_refl,
  if◌then◌else◌, Bool-cases, inl, inr, arith,
}
use shared_compute.Common.Dict
use shared_compute.Common.Dict.{Dict, get-put, get-delete}
use shared_compute.Runs.{RunResults, RunRegistry, gc_loop, gc, put, get}

module _ {Result : Type 0} where
  -- Some entry with the key has expired.
  abbrev pub some_expired : ℕ → Dict (RunResults Result) → String → Bool
  some_expired now [] id = false
  some_expired now ((j, res) ∷ m) id =
      (str_eq j id && ltb res.expires_at now) || some_expired now m id

  get-gc_loop :
      (now : ℕ) (es : Dict (RunResults Result)) (rr : RunRegistry Result) (id : String)
      → Dict.get (gc_loop now es rr).results id
        ≡ (if some_expired now es id then none else Dict.get rr.results id)
  unfolding gc_loop
  get-gc_loop now [] rr id = refl
  get-gc_loop now ((j, res) ∷ es) rr id = elim (Bool-cases (ltb res.expires_at now)) [
    | inl e ↦
        let dropped : RunRegistry Result = record rr {
          results = Dict.delete rr.results j;
          secrets = Dict.delete rr.secrets j;
        } in
        rw e (ground (arith, get-gc_loop now es dropped id, get-delete rr.results j id))
    | inr e ↦ rw e (ground (arith, get-gc_loop now es rr id))
  ]

  some_expired-delete :
      (now : ℕ) (m : Dict (RunResults Result)) (id : String)
      → some_expired now (Dict.delete m id) id ≡ false
  unfolding Dict.delete
  some_expired-delete now [] id = refl
  some_expired-delete now ((j, res) ∷ m) id = ground (arith, some_expired-delete now m id)

  -- The result of a run that was put away is served at a later time exactly if it has not expired
  -- then, whatever the registry held before.
  pub get-put_result :
      (id : String) (res : RunResults Result) (now later : ℕ) (rr : RunRegistry Result)
      → (get id later (put id res now rr)).1 ≡ (if ltb res.expires_at later then none else some res)
  unfolding get put gc
  get-put_result id res now later rr =
      let kept = gc now rr in
      let all = record kept { results = Dict.put kept.results id res } in
      get-gc_loop later all.results all id
      ∙ unfold Dict.put in
        ground (
          arith,
          eq_refl id,
          some_expired-delete later kept.results id,
          get-put kept.results id id res,
        )
