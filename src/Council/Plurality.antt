-- ===== src/Council/Plurality.antt =====
-- The plurality that the dissent is measured by has the most votes, in whatever order the counts
-- are ranged over.
use shared_compute.Common.{
  ℕ, ◌+◌, ◌≤◌, ◌≡◌, refl, ap, ◌∙◌, String, some, List, [], ◌∷◌, All, length, select, ltb, str_eq,
  eq_iff, eq_refl, Bool-cases, inl, inr, arith,
}
use shared_compute.Common.Dict
use shared_compute.Common.Dict.{Dict, get-put}
use shared_compute.Council.{Review, approve, or_none, count_votes, plurality_of, plurality}

abbrev pub votes_for : String → List Review → ℕ
votes_for d rs = length (select (λ r. str_eq r.decision d) rs)

count-count_votes :
    (rs : List Review) (counts : Dict ℕ) (d : String)
    → or_none (Dict.get (count_votes rs counts) d) ≡ or_none (Dict.get counts d) + votes_for d rs
unfolding count_votes
count-count_votes [] counts d = omega arith
count-count_votes (r ∷ rs) counts d =
    let n = or_none (Dict.get counts r.decision) + 1 in
    let rest = count-count_votes rs (Dict.put counts r.decision n) d in
    ground (arith, rest, get-put counts r.decision d n, eq_iff r.decision d)

-- Every entry of `m` is what the map `counts` has under its key.
abbrev Agrees : Dict ℕ → Dict ℕ → Type 0
Agrees counts m = All (λ e. Dict.get counts e.0 ≡ some e.1) m

Agrees-put :
    (counts m : Dict ℕ) (k : String) (v : ℕ)
    → Agrees counts m
    → Agrees (Dict.put counts k v) (Dict.delete m k)
unfolding Dict.delete
Agrees-put counts [] k v a = tt
Agrees-put counts ((j, n) ∷ m) k v a = elim (Bool-cases (str_eq j k)) [
  | inl e ↦ rw e (Agrees-put counts m k v a.1)
  | inr e ↦ rw e (
    ground (arith, a.0, e, get-put counts k j v, eq_iff j k, eq_iff k j),
    Agrees-put counts m k v a.1,
  )
]

Agrees-count_votes :
    (rs : List Review) (counts : Dict ℕ)
    → Agrees counts counts
    → Agrees (count_votes rs counts) (count_votes rs counts)
unfolding count_votes
Agrees-count_votes [] counts a = a
Agrees-count_votes (r ∷ rs) counts a =
    let n = or_none (Dict.get counts r.decision) + 1 in
    Agrees-count_votes rs (Dict.put counts r.decision n) (
      unfold Dict.put in
      (unfold Dict.get in rw eq_refl refl, Agrees-put counts counts r.decision n a))

-- The scan never goes down, and ends no lower than any entry.
scan-le :
    (counts m : Dict ℕ) (best d : String)
    → Agrees counts m
    → (or_none (Dict.get counts best) ≤ or_none (Dict.get counts (plurality_of counts m best)))
      × (or_none (Dict.get m d) ≤ or_none (Dict.get counts (plurality_of counts m best)))
unfolding plurality_of Dict.get
scan-le counts [] best d a = (omega arith, omega arith)
scan-le counts ((j, n) ∷ m) best d a = elim (Bool-cases (ltb (or_none (Dict.get counts best)) n)) [
  | inl e ↦
      let rest = scan-le counts m j d a.1 in
      let at : or_none (Dict.get counts j) ≡ n = ap or_none a.0 in
      rw e (ground (arith, rest.0, e, at), ground (arith, rest.0, rest.1, e, at))
  | inr e ↦
      let rest = scan-le counts m best d a.1 in rw e (rest.0, ground (arith, rest.0, rest.1, e))
]

-- No decision has more votes than the plurality, so a dissent is a review that differs from a most
-- frequent one.
pub votes_for-plurality-le :
    (rs : List Review) (d : String) → votes_for d rs ≤ votes_for (plurality rs) rs
unfolding plurality Dict.get
votes_for-plurality-le rs d =
    let counts = count_votes rs [] in
    let bound = scan-le counts counts approve d (Agrees-count_votes rs [] tt) in
    let here : or_none (Dict.get counts d) ≡ votes_for d rs =
      count-count_votes rs [] d ∙ omega arith in
    let there : or_none (Dict.get counts (plurality rs)) ≡ votes_for (plurality rs) rs =
      count-count_votes rs [] (plurality rs) ∙ omega arith in
    let top : or_none (Dict.get counts d) ≤ or_none (Dict.get counts (plurality rs)) = bound.1 in
    omega (arith, top, here, there)
