-- ===== src/Batch/Spread.antt =====
-- What choose picks.
use shared_compute.Common.{
  ◌<◌, ◌≡◌, refl, subst, String, Bool, true, false, ◌||◌, List, [], ◌∷◌, All, Bool-cases, inl, inr,
  if◌then◌else◌, str_eq, eq_iff, eq_refl, arith,
}
use shared_compute.Common.Int64.{modulus, add64, sub64}
use shared_compute.Common.Dict
use shared_compute.Common.Dict.{get-put}
use shared_compute.Batch.{Load, count_of, lighter, best_of, choose, release}

-- None of the candidates is lighter than `b`.
abbrev pub IsLightest : Load → String → List String → Type 0
IsLightest l b cs = All (λ q. lighter l q b ≡ false) cs

lighter_irrefl : (l : Load) (p : String) → lighter l p p ≡ false
unfolding lighter
lighter_irrefl l p = ground arith

-- What is no lighter than the heavier of two is no lighter than the other.
lighter-cotrans :
    (l : Load) (a b c : String)
    → lighter l b a ≡ true
    → lighter l c b ≡ false
    → lighter l a b ≡ false
unfolding lighter
lighter-cotrans l a b c h g = ground arith

-- Going over to a candidate keeps those behind that are not lighter.
best_of-le :
    (l : Load) (x b : String) (cs : List String)
    → lighter l x b ≡ false
    → lighter l x (best_of l b cs) ≡ false
unfolding best_of
best_of-le l x b [] h = h
best_of-le l x b (p ∷ ps) h = elim (Bool-cases (lighter l p b)) [
  | inl e ↦ rw e (best_of-le l x p ps (unfold lighter in ground (arith, e, h)))
  | inr e ↦ rw e (best_of-le l x b ps h)
]

-- The loop goes on with the lighter of the best and the next.
best_of-lighter :
    (l : Load) (b p : String) (ps : List String)
    → lighter l p b ≡ true
    → best_of l p ps ≡ best_of l b (p ∷ ps)
unfolding best_of
best_of-lighter l b p ps e = rw e refl

best_of-same :
    (l : Load) (b p : String) (ps : List String)
    → lighter l p b ≡ false
    → best_of l b ps ≡ best_of l b (p ∷ ps)
unfolding best_of
best_of-same l b p ps e = rw e refl

best_of_last : (l : Load) (b : String) → best_of l b [] ≡ b
unfolding best_of
best_of_last l b = refl

best_of-IsLightest :
    (l : Load) (b : String) (cs : List String) → IsLightest l (best_of l b cs) (b ∷ cs)
best_of-IsLightest l b [] = rw best_of_last (lighter_irrefl l b, tt)
best_of-IsLightest l b (p ∷ ps) = elim (Bool-cases (lighter l p b)) [
  | inl e ↦
      subst (λ x. IsLightest l x (b ∷ p ∷ ps)) (best_of-lighter l b p ps e)
        (best_of-le l b p ps (unfold lighter in ground (arith, e)), best_of-IsLightest l p ps)
  | inr e ↦
      let rest = best_of-IsLightest l b ps in
      subst (λ x. IsLightest l x (b ∷ p ∷ ps)) (best_of-same l b p ps e)
        (rest.0, (best_of-le l p b ps e, rest.1))
]

abbrev pub is_candidate : String → List String → Bool
is_candidate p [] = false
is_candidate p (c ∷ cs) = str_eq c p || is_candidate p cs

best_of_candidate :
    (l : Load) (b : String) (cs : List String) → is_candidate (best_of l b cs) (b ∷ cs) ≡ true
best_of_candidate l b [] = rw (best_of_last, eq_refl) refl
best_of_candidate l b (p ∷ ps) = elim (Bool-cases (lighter l p b)) [
  | inl e ↦
      subst (λ x. is_candidate x (b ∷ p ∷ ps) ≡ true) (best_of-lighter l b p ps e)
        (ground (arith, best_of_candidate l p ps))
  | inr e ↦
      subst (λ x. is_candidate x (b ∷ p ∷ ps) ≡ true) (best_of-same l b p ps e)
        (ground (arith, best_of_candidate l b ps))
]

-- choose takes a candidate than which none is lighter - fewer in flight, or as many and fewer
-- assigned -, counts one more item in flight and assigned
-- for it, and leaves the counts of the others; releasing it gives back the count in flight.
pub choose_lem :
    (c : String) (cs : List String) (l : Load) (id : String)
    → count_of l.inflight id < modulus
    → let r = choose c cs l in
      (is_candidate r.1 (c ∷ cs) ≡ true)
      × IsLightest l r.1 (c ∷ cs)
      × (count_of r.0.assigned id
          ≡ (if str_eq r.1 id then add64 (count_of l.assigned id) 1 else count_of l.assigned id))
      × (count_of (release r.1 r.0).inflight id ≡ count_of l.inflight id)
unfolding choose release
choose_lem c cs l id w =
    let b = best_of l c cs in
    (
      best_of_candidate l c cs,
      best_of-IsLightest l c cs,
      ground (arith, get-put l.assigned b id (add64 (count_of l.assigned b) 1), eq_iff b id),
      ground (
        arith,
        get-put l.inflight b id (add64 (count_of l.inflight b) 1),
        eq_iff b id,
        eq_refl b,
        get-put l.inflight b b (add64 (count_of l.inflight b) 1),
        get-put (Dict.put l.inflight b (add64 (count_of l.inflight b) 1)) b id
            (sub64 (count_of (Dict.put l.inflight b (add64 (count_of l.inflight b) 1)) b) 1),
      ),
    )
