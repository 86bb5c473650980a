-- ===== src/Batch/Chunks.antt =====
-- chunkItems cuts the items into pieces of bounded size and loses none.
use shared_compute.Common.{
  ℕ, suc, ◌≤◌, ◌<◌, ◌≡◌, refl, ap, ◌∙◌, List, [], ◌∷◌, ◌++◌, All, length, take, drop,
  take-append-drop, length-take, length-drop, leb, Bool-cases, inl, inr, arith,
}
use mathlib.Core.List.{append-nil}
use shared_compute.Batch.{chunks, chunk_items}

module _ {ℓ} {A : Type ℓ} where
  abbrev pub join : List (List A) → List A
  join [] = []
  join (c ∷ cs) = c ++ join cs

  join-chunks :
      (fuel size : ℕ) (items : List A)
      → 0 < size
      → length items ≤ fuel
      → (join (chunks fuel size items) ≡ items)
        × All (λ c. length c ≤ size) (chunks fuel size items)
  unfolding chunks
  join-chunks ℕ.zero size [] p h = (refl, tt)
  join-chunks ℕ.zero size (x ∷ items) p h = absurd (omega (arith, h))
  join-chunks (suc fuel) size [] p h = (refl, tt)
  join-chunks (suc fuel) size (x ∷ items) p h =
      let left : length (drop size (x ∷ items)) ≤ fuel =
        omega (arith, h, p, length-drop size (x ∷ items)) in
      let rest = join-chunks fuel size (drop size (x ∷ items)) p left in
      (
        ap (λ l. take size (x ∷ items) ++ l) rest.0 ∙ take-append-drop size (x ∷ items),
        (omega (arith, length-take size (x ∷ items)), rest.1),
      )

  -- For a positive size the chunks, put together again, are the items in their order, and none is
  -- larger than the size: the fuel of the loop is enough.
  pub join-chunk_items :
      (size : ℕ) (items : List A)
      → 0 < size
      → (join (chunk_items size items) ≡ items)
        × All (λ c. length c ≤ size) (chunk_items size items)
  unfolding chunk_items
  join-chunk_items size items p = elim (Bool-cases (leb (length items) size)) [
    | inl e ↦ rw e (append-nil items, (ground (arith, e), tt))
    | inr e ↦ rw e (join-chunks (length items) size items p (omega arith))
  ]
