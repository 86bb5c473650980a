-- ===== src/Scheduler/Choice.antt =====
-- Which providers Eligible returns and in what order, why it fails, and what Pick takes.
use mathlib.Core.Logic.Or
use mathlib.Core.Bool.{Bool-set}
use mathlib.Core.List.{Mem, Perm, append-nil, append_assoc, not-mem-nil, mem-cons, mem-cons_self}
use mathlib.Core.List.Perm
use shared_compute.Common.{
  ◌≡◌, ◌≢◌, refl, subst, ◌∙◌, ◌⊎◌, inl, inr, Bool, false, not, ◌&&◌, ◌||◌, some, List, [], ◌∷◌,
  ◌++◌, All, select, ltb, if◌then◌else◌, Bool-cases, arith,
}
use shared_compute.Common.Int64.{lt64}
use shared_compute.Common.Sort.{Sorter, IsSorted}
use shared_compute.Registry
use shared_compute.Registry.{Provider, Registry, serves}
use shared_compute.Scheduler.{
  Error, no_provider, tier_unmet, caps_unmet, ok, err, Requirements, tier_rank, less, Scan,
  class_rank, lacks_resources, visit, scan, why_none, ranked, eligible, first, pick,
}
use shared_compute.Scheduler.Order.{less-IsWeakOrder}

-- The provider serves the model, takes new jobs and has the tier.
abbrev pub has_tier : Requirements → Provider → Bool
has_tier req p =
    serves p req.model && not (p.draining || ltb (tier_rank p.trust_tier) (tier_rank req.min_tier))

-- Neither side leaves the context window open and the provider's is below the one asked for.
abbrev pub too_narrow : Requirements → Provider → Bool
too_narrow req p =
    lt64 0 req.min_context
    && lt64 0 p.capabilities.max_context
    && lt64 p.capabilities.max_context req.min_context

-- A hardware class is asked for and the provider's ranks below it.
abbrev pub too_weak : Requirements → Provider → Bool
too_weak req p =
    ltb 0 (class_rank req.hw_class)
    && ltb (class_rank p.capabilities.hardware_class) (class_rank req.hw_class)

-- And it has the context window and the hardware class.
abbrev pub can_serve : Requirements → Provider → Bool
can_serve req p = has_tier req p && not (too_narrow req p) && not (too_weak req p)

abbrev pub any {ℓ} : {A : Type ℓ} → (A → Bool) → List A → Bool
any p [] = false
any p (x ∷ xs) = p x || any p xs

scan-select :
    (req : Requirements) (s : Scan) (ps : List Provider)
    → scan req s ps ≡ record {
      candidates = s.candidates ++ select (can_serve req) ps;
      saw_model = s.saw_model || any (λ p. serves p req.model) ps;
      saw_tier = s.saw_tier || any (has_tier req) ps;
    }
unfolding scan visit lacks_resources
scan-select req s [] = ground (arith, append-nil s.candidates)
scan-select req s (p ∷ ps) =
    scan-select req (visit req s p) ps
    ∙ ground (arith, append_assoc s.candidates (p ∷ []) (select (can_serve req) ps))

-- Why nothing was found, from the providers alone.
abbrev pub reason : Requirements → List Provider → Error
reason req ps =
    if not (any (λ p. serves p req.model) ps)
    then no_provider
    else if ltb 0 (tier_rank req.min_tier) && not (any (has_tier req) ps)
    then tier_unmet
    else caps_unmet

less_irrefl : (p : Provider) → less p p ≡ false
less_irrefl p = elim (Bool-cases (less p p)) [ inl e ↦ less-IsWeakOrder.asym p p e | inr e ↦ e ]

All-mem :
    (q c : Provider) (cs : List Provider)
    → All (λ x. less x c ≡ false) cs
    → Mem q cs
    → less q c ≡ false
All-mem q c [] h m = absurd (not-mem-nil m)
All-mem q c (x ∷ cs) h m =
    Or.elim (Bool-set (less q c) false) (mem-cons.0 m) (λ e. rw e h.0) (All-mem q c cs h.1)

sorted_first :
    (q c : Provider) (cs : List Provider)
    → All (λ x. less x c ≡ false) cs
    → Mem q (c ∷ cs)
    → less q c ≡ false
sorted_first q c cs h m =
    Or.elim (Bool-set (less q c) false) (mem-cons.0 m) (λ e. rw e (less_irrefl c))
      (All-mem q c cs h)

module _ (sorter : Sorter Provider) (reg : Registry) (req : Requirements) where
  abbrev pub able : List Provider
  able = select (can_serve req) (Registry.snapshot reg)

  -- What the loop has found at its end.
  abbrev found : Scan
  found = record {
    candidates = able;
    saw_model = any (λ p. serves p req.model) (Registry.snapshot reg);
    saw_tier = any (has_tier req) (Registry.snapshot reg);
  }

  eligible-ranked : eligible sorter reg req ≡ ranked sorter req found able
  unfolding eligible
  eligible-ranked = rw scan-select refl

  ranked_cases :
      (l : List Provider)
      → ((l ≡ []) × (ranked sorter req found l ≡ err (reason req (Registry.snapshot reg))))
        ⊎ ((cs : List Provider) × (ranked sorter req found l ≡ ok cs)
            × (cs ≢ [])
            × Perm cs l
            × IsSorted less cs)
  unfolding ranked why_none
  ranked_cases [] = inl (refl, refl)
  ranked_cases (c ∷ cs) =
      let perm = sorter.sort-perm less (c ∷ cs) in
      inr (
        sorter.sort less (c ∷ cs),
        refl,
        λ e. not-mem-nil (subst (Mem c) e ((Perm.mem_iff perm).1 mem-cons_self)),
        perm,
        sorter.sort-IsSorted less less-IsWeakOrder (c ∷ cs),
      )

  -- Eligible fails, with the reason that the providers give, exactly when none can serve the
  -- request; else it returns those that can, each as often as the registry has it, in an order
  -- where none stands behind one that ranks after it.
  pub eligible_cases :
      ((able ≡ []) × (eligible sorter reg req ≡ err (reason req (Registry.snapshot reg))))
      ⊎ ((cs : List Provider) × (eligible sorter reg req ≡ ok cs)
          × (cs ≢ [])
          × Perm cs able
          × IsSorted less cs)
  eligible_cases = elim (ranked_cases able) [
    | inl (e, f) ↦ inl (e, eligible-ranked ∙ f)
    | inr (cs, f, rest, perm, sorted) ↦ inr (cs, eligible-ranked ∙ f, rest, perm, sorted)
  ]

  first_best :
      (cs : List Provider)
      → cs ≢ []
      → Perm cs able
      → IsSorted less cs
      → (p : Provider) × (first sorter (ok cs) ≡ ok (some p))
        × Mem p able
        × ((q : Provider) → Mem q able → less q p ≡ false)
  unfolding first
  first_best [] ne perm sorted = absurd (ne refl)
  first_best (c ∷ cs) ne perm sorted = (
    c,
    refl,
    (Perm.mem_iff perm).0 mem-cons_self,
    λ q m. sorted_first q c cs sorted.0 ((Perm.mem_iff perm).1 m),
  )

  -- Pick never indexes an empty slice: it fails with the reason, or returns a provider that can
  -- serve the request and before which no other that can serve it ranks.
  pub pick_cases :
      ((able ≡ []) × (pick sorter reg req ≡ err (reason req (Registry.snapshot reg))))
      ⊎ ((p : Provider) × (pick sorter reg req ≡ ok (some p))
          × Mem p able
          × ((q : Provider) → Mem q able → less q p ≡ false))
  unfolding pick
  pick_cases = elim eligible_cases [
    | inl (e, f) ↦ inl (e, rw f refl)
    | inr (cs, f, ne, perm, sorted) ↦
        let (p, g, able_p, best) = first_best cs ne perm sorted in inr (p, rw f g, able_p, best)
  ]
