-- ===== src/Common/Sort.antt =====
-- The contract of `sort.Slice` of Go's standard library: for a strict weak order the result is a
-- permutation of the input in which nothing stands before an item that is less than it. Equal
-- items may come in any order, so the sort itself is a parameter of the code that calls it.
use Prim.Native.Nat.{ℕ, suc}
use mathlib.Core.Nat as LibNat
use mathlib.Core.List as LibList
use mathlib.Core.Path.{ap, sym, refl, ◌∙◌, ◌≡◌}
use mathlib.Core.Bool.{Bool, true, false}
use mathlib.Core.List.{List, [], ◌∷◌, Perm}
use mathlib.Core.List.Perm
use shared_compute.Common.Tests.{if◌then◌else◌, Bool-cases}
use shared_compute.Common.Lists.{All, length}
use mathlib.Core.Logic.{inl, inr}

module _ {ℓ} {A : Type ℓ} where
  -- No item is less than one that stands before it.
  abbrev pub IsSorted : (A → A → Bool) → List A → Type 0
  IsSorted less [] = Unit
  IsSorted less (x ∷ xs) = All (λ y. less y x ≡ false) xs × IsSorted less xs

  pub record IsWeakOrder (less : A → A → Bool) : Type ℓ where
    pub asym : (a b : A) → less a b ≡ true → less b a ≡ false
    pub cotrans : (a b c : A) → less b a ≡ false → less c b ≡ false → less c a ≡ false

-- The length over the library's natural numbers, which its permutations keep, as a native one.
native_length : LibNat.ℕ → ℕ
native_length LibNat.zero = 0
native_length (LibNat.suc n) = suc (native_length n)

length-native_length {ℓ} :
    {A : Type ℓ} (xs : List A) → length xs ≡ native_length (LibList.length xs)
unfolding native_length
length-native_length [] = refl
length-native_length (x ∷ xs) = ap (λ (n : ℕ). suc n) (length-native_length xs)

pub length-Perm {ℓ} : {A : Type ℓ} {xs ys : List A} → Perm xs ys → length xs ≡ length ys
length-Perm {xs = xs} {ys = ys} p =
    length-native_length xs ∙ ap native_length (Perm.length-eq p) ∙ sym (length-native_length ys)

pub record Sorter {ℓ} (A : Type ℓ) : Type ℓ where
  pub sort : (A → A → Bool) → List A → List A
  pub sort-perm : (less : A → A → Bool) (xs : List A) → Perm (sort less xs) xs
  pub sort-IsSorted :
      (less : A → A → Bool) → IsWeakOrder less → (xs : List A) → IsSorted less (sort less xs)

-- Insertion sort meets the contract.
module _ {ℓ} {A : Type ℓ} (less : A → A → Bool) where
  unfoldable pub insert : A → List A → List A
  insert x [] = x ∷ []
  insert x (y ∷ ys) = let rest = insert x ys in if less y x then y ∷ rest else x ∷ y ∷ ys

  unfoldable pub insertion_sort : List A → List A
  unfolding insert
  insertion_sort [] = []
  insertion_sort (x ∷ xs) = insert x (insertion_sort xs)

  insert-perm : (x : A) (ys : List A) → Perm (insert x ys) (x ∷ ys)
  unfolding insert
  insert-perm x [] = Perm.refl (x ∷ [])
  insert-perm x (y ∷ ys) = elim (Bool-cases (less y x)) [
    | inl e ↦ rw e (Perm.trans (Perm.cons y (insert-perm x ys)) (Perm.swap x y ys))
    | inr e ↦ rw e (Perm.refl (x ∷ y ∷ ys))
  ]

  pub insertion_sort-perm : (xs : List A) → Perm (insertion_sort xs) xs
  unfolding insertion_sort
  insertion_sort-perm [] = Perm.refl []
  insertion_sort-perm (x ∷ xs) =
      Perm.trans (insert-perm x (insertion_sort xs)) (Perm.cons x (insertion_sort-perm xs))

  All-cotrans :
      IsWeakOrder less
      → (x y : A) (zs : List A) → less y x ≡ false
      → All (λ z. less z y ≡ false) zs
      → All (λ z. less z x ≡ false) zs
  All-cotrans w x y [] h a = tt
  All-cotrans w x y (z ∷ zs) h a = (w.cotrans x y z h a.0, All-cotrans w x y zs h a.1)

  All-insert :
      (x y : A) (zs : List A)
      → less x y ≡ false
      → All (λ z. less z y ≡ false) zs
      → All (λ z. less z y ≡ false) (insert x zs)
  unfolding insert
  All-insert x y [] h a = (h, tt)
  All-insert x y (z ∷ zs) h a = elim (Bool-cases (less z x)) [
    | inl e ↦ rw e (a.0, All-insert x y zs h a.1)
    | inr e ↦ rw e (h, a)
  ]

  insert-IsSorted :
      IsWeakOrder less → (x : A) (ys : List A) → IsSorted less ys → IsSorted less (insert x ys)
  unfolding insert
  insert-IsSorted w x [] s = (tt, tt)
  insert-IsSorted w x (y ∷ ys) s = elim (Bool-cases (less y x)) [
    | inl e ↦ rw e (All-insert x y ys (w.asym y x e) s.0, insert-IsSorted w x ys s.1)
    | inr e ↦ rw e ((e, All-cotrans w x y ys e s.0), s)
  ]

  pub insertion_sort-IsSorted : IsWeakOrder less → (xs : List A) → IsSorted less (insertion_sort xs)
  unfolding insertion_sort
  insertion_sort-IsSorted w [] = tt
  insertion_sort-IsSorted w (x ∷ xs) =
      insert-IsSorted w x (insertion_sort xs) (insertion_sort-IsSorted w xs)

abbrev pub insertion_sorter {ℓ} : (A : Type ℓ) → Sorter A
insertion_sorter A = record {
  sort = insertion_sort;
  sort-perm = insertion_sort-perm;
  sort-IsSorted = insertion_sort-IsSorted;
}
