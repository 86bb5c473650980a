-- ===== src/Common/Lists.antt =====
-- Lists measured and indexed by native numbers, under the library's names.
use Prim.Native.Nat.{ℕ, zero, suc, ◌+◌, ◌-◌, ◌≤◌, ◌<◌, min}
use mathlib.Core.Path.{◌≡◌, refl, ap}
use mathlib.Core.Bool.{Bool}
use mathlib.Core.List.{List, [], ◌∷◌, ◌++◌, reverse, reverse-cons}
use native.Mathlib.Omega.{arith}
use shared_compute.Common.Tests.{if◌then◌else◌}

module _ {ℓ} {A : Type ℓ} where
  abbrev pub length : List A → ℕ
  length [] = 0
  length (x ∷ xs) = suc (length xs)

  abbrev pub set : List A → ℕ → A → List A
  set [] i v = []
  set (x ∷ xs) zero v = v ∷ xs
  set (x ∷ xs) (suc i) v = x ∷ set xs i v

  abbrev pub take : ℕ → List A → List A
  take zero xs = []
  take (suc n) [] = []
  take (suc n) (x ∷ xs) = x ∷ take n xs

  abbrev pub drop : ℕ → List A → List A
  drop zero xs = xs
  drop (suc n) [] = []
  drop (suc n) (x ∷ xs) = drop n xs

  abbrev pub replicate : ℕ → A → List A
  replicate zero a = []
  replicate (suc n) a = a ∷ replicate n a

  -- A predicate by recursion: `P` of every item.
  abbrev pub All {κ} : (A → Type κ) → List A → Type κ
  All P [] = Unit
  All P (x ∷ xs) = P x × All P xs

  -- The items that pass the test, in order.
  abbrev pub select : (A → Bool) → List A → List A
  select p [] = []
  select p (x ∷ xs) = let rest = select p xs in if p x then x ∷ rest else rest

  pub length-append : (xs ys : List A) → length (xs ++ ys) ≡ length xs + length ys
  length-append [] ys = omega arith
  length-append (x ∷ xs) ys = omega (arith, length-append xs ys)

  pub length-set : (xs : List A) (i : ℕ) (v : A) → length (set xs i v) ≡ length xs
  length-set [] i v = refl
  length-set (x ∷ xs) zero v = refl
  length-set (x ∷ xs) (suc i) v = ap suc (length-set xs i v)

  pub take-append-drop : (n : ℕ) (xs : List A) → take n xs ++ drop n xs ≡ xs
  take-append-drop zero xs = refl
  take-append-drop (suc n) [] = refl
  take-append-drop (suc n) (x ∷ xs) = ap (λ l. x ∷ l) (take-append-drop n xs)

  pub length-take : (n : ℕ) (xs : List A) → length (take n xs) ≡ min n (length xs)
  length-take zero xs = omega arith
  length-take (suc n) [] = omega arith
  length-take (suc n) (x ∷ xs) = omega (arith, length-take n xs)

  pub length-drop : (n : ℕ) (xs : List A) → length (drop n xs) ≡ length xs - n
  length-drop zero xs = omega arith
  length-drop (suc n) [] = omega arith
  length-drop (suc n) (x ∷ xs) = omega (arith, length-drop n xs)

  pub length-replicate : (n : ℕ) (a : A) → length (replicate n a) ≡ n
  length-replicate zero a = refl
  length-replicate (suc n) a = ap suc (length-replicate n a)

  pub length-reverse : (xs : List A) → length (reverse xs) ≡ length xs
  length-reverse [] = refl
  length-reverse (x ∷ xs) =
      omega (
        arith,
        ap length (reverse-cons x xs),
        length-append (reverse xs) (x ∷ []),
        length-reverse xs,
      )

  pub take-set :
      (xs : List A) (h : ℕ) (v : A)
      → h < length xs
      → take (suc h) (set xs h v) ≡ take h xs ++ v ∷ []
  take-set [] h v p = absurd (omega arith)
  take-set (x ∷ []) zero v p = refl
  take-set (x ∷ y ∷ xs) zero v p = refl
  take-set (x ∷ xs) (suc h) v p = ap (λ l. x ∷ l) (take-set xs h v (omega arith))

  pub drop-set : (xs : List A) (h : ℕ) (v : A) → drop (suc h) (set xs h v) ≡ drop (suc h) xs
  drop-set [] h v = refl
  drop-set (x ∷ xs) zero v = refl
  drop-set (x ∷ xs) (suc h) v = drop-set xs h v

  pub drop_all : (xs : List A) (n : ℕ) → length xs ≤ n → drop n xs ≡ []
  drop_all [] zero p = refl
  drop_all [] (suc n) p = refl
  drop_all (x ∷ xs) zero p = absurd (omega arith)
  drop_all (x ∷ xs) (suc n) p = drop_all xs n (omega arith)

  pub take_all : (xs : List A) (n : ℕ) → length xs ≤ n → take n xs ≡ xs
  take_all [] zero p = refl
  take_all [] (suc n) p = refl
  take_all (x ∷ xs) zero p = absurd (omega arith)
  take_all (x ∷ xs) (suc n) p = ap (λ l. x ∷ l) (take_all xs n (omega arith))

  pub drop-append : (xs ys : List A) (n : ℕ) → n ≤ length xs → drop n (xs ++ ys) ≡ drop n xs ++ ys
  drop-append xs ys zero p = refl
  drop-append [] ys (suc n) p = absurd (omega arith)
  drop-append (x ∷ xs) ys (suc n) p = drop-append xs ys n (omega arith)

  -- Dropping one item of a rotated list drops the item at the cut.
  pub drop_cut :
      (xs ys : List A) (h : ℕ) → h < length xs → drop 1 (drop h xs ++ ys) ≡ drop (suc h) xs ++ ys
  drop_cut [] ys h p = absurd (omega arith)
  drop_cut (x ∷ xs) ys zero p = refl
  drop_cut (x ∷ xs) ys (suc h) p = drop_cut xs ys h (omega arith)
