-- ===== src/Attest/Tail.antt =====
-- The validity window of the last certificate of a chain.
use shared_compute.Common.{
  ℕ, ◌≡◌, ◌⊎◌, refl, Bool, true, false, List, [], ◌∷◌, ◌++◌, All, Bool-cases, inl, inr,
}
use shared_compute.Attest.{Library, outside, check_links, check_roots, last, verify_chain_at}

module _ (lib : Library) (begins ends : lib.Cert → ℕ) where
  -- The same certificates with other windows.
  abbrev pub redated : Library
  redated = record lib { not_before = begins; not_after = ends }

  -- The windows differ at most for the certificate `tail`.
  abbrev pub AgreesBut : lib.Cert → Type 0
  AgreesBut tail =
      (c : lib.Cert)
      → lib.same tail c ≡ false
      → (begins c ≡ lib.not_before c) × (ends c ≡ lib.not_after c)

  outside-redated :
      (now : ℕ) (tail c : lib.Cert)
      → AgreesBut tail
      → lib.same tail c ≡ false
      → outside redated now c ≡ outside lib now c
  unfolding outside
  outside-redated now tail c agrees d = let (b, e) = agrees c d in rw (b, e) refl

  check_links-redated :
      (now : ℕ) (tail : lib.Cert) (rest : List lib.Cert) (first : Bool) (c : lib.Cert)
      → AgreesBut tail
      → (first ≡ true) ⊎ (lib.same tail c ≡ false)
      → All (λ x. lib.same tail x ≡ false) rest
      → check_links redated now first (c ∷ rest ++ tail ∷ [])
        ≡ check_links lib now first (c ∷ rest ++ tail ∷ [])
  unfolding check_links
  check_links-redated now tail [] first c agrees here others = elim here [
    | inl e ↦ rw e refl
    | inr d ↦ rw (outside-redated now tail c agrees d) refl
  ]
  check_links-redated now tail (x ∷ rest) first c agrees here others =
      let later = check_links-redated now tail rest false x agrees (inr others.0) others.1 in
      elim here [
        | inl e ↦ rw (e, later) refl
        | inr d ↦ rw (outside-redated now tail c agrees d, later) refl
      ]

  check_roots-redated :
      (now : ℕ) (tail : lib.Cert) (roots : List lib.Cert)
      → AgreesBut tail
      → check_roots redated now tail roots ≡ check_roots lib now tail roots
  unfolding check_roots
  check_roots-redated now tail [] agrees = refl
  check_roots-redated now tail (root ∷ roots) agrees = elim (Bool-cases (lib.same tail root)) [
    | inl e ↦ rw e refl
    | inr e ↦
        rw (e, outside-redated now tail root agrees e, check_roots-redated now tail roots agrees)
          refl
  ]

  last-snoc : (c tail : lib.Cert) (rest : List lib.Cert) → last lib c (rest ++ tail ∷ []) ≡ tail
  last-snoc c tail [] = refl
  last-snoc c tail (x ∷ rest) = last-snoc x tail rest

  -- Whether a chain is accepted, and with which error it is not, does not depend on the validity window of
  -- its last certificate, if that certificate stands in the chain only once: with any other window for it
  -- the check gives the same.
  pub verify_chain-redated :
      (now : ℕ) (leaf tail : lib.Cert) (rest : List lib.Cert)
      → AgreesBut tail
      → All (λ c. lib.same tail c ≡ false) rest
      → verify_chain_at redated now leaf (rest ++ tail ∷ [])
        ≡ verify_chain_at lib now leaf (rest ++ tail ∷ [])
  unfolding verify_chain_at
  verify_chain-redated now leaf tail rest agrees others =
      rw
        (
          check_links-redated now tail rest true leaf agrees (inl refl) others,
          last-snoc leaf tail rest,
          check_roots-redated now tail lib.google_roots agrees,
        )
        refl
