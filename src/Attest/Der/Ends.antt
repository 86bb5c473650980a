-- ===== src/Attest/Der/Ends.antt =====
-- The scan ends on any bytes, since every element takes some.
use shared_compute.Common.{
  ℕ, zero, suc, ◌/◌, ◌%◌, ◌≤◌, ◌<◌, ◌≡◌, refl, ◌&&◌, ◌||◌, Option, none, some, List, [], ◌∷◌,
  length, ltb, ◌==◌, Bool-cases, inl, inr, arith, length-drop,
}
use shared_compute.Attest.Der.{
  high_tag, tag_number, content_length, Element, with_length, with_tag, element, on_element,
  find_loop, find_context_tagged,
}

-- What follows is no longer than that.
abbrev RestLe : ℕ → Option (ℕ × List ℕ) → Type 0
RestLe n none = Unit {0}
RestLe n (some (k, rest)) = length rest ≤ n

abbrev ElementLt : ℕ → Option Element → Type 0
ElementLt n none = Unit {0}
ElementLt n (some e) = length e.rest < n

RestLe-mono : (m n : ℕ) (o : Option (ℕ × List ℕ)) → m ≤ n → RestLe m o → RestLe n o
RestLe-mono m n none h r = tt
RestLe-mono m n (some (k, rest)) h r = omega (arith, h, r)

ElementLt-mono : (m n : ℕ) (o : Option Element) → m ≤ n → ElementLt m o → ElementLt n o
ElementLt-mono m n none h l = tt
ElementLt-mono m n (some e) h l = omega (arith, h, l)

high_tag-RestLe : (b : List ℕ) (acc : ℕ) → RestLe (length b) (high_tag b acc)
unfolding high_tag
high_tag-RestLe [] acc = tt
high_tag-RestLe (c ∷ b) acc = elim (Bool-cases (ltb c 128)) [
  | inl e ↦ rw e (omega arith)
  | inr e ↦ rw e (RestLe-mono (length b) (suc (length b)) _ (omega arith) (high_tag-RestLe b _))
]

tag_number-RestLe : (first : ℕ) (b : List ℕ) → RestLe (length b) (tag_number first b)
unfolding tag_number
tag_number-RestLe first b = elim (Bool-cases (first % 32 == 31)) [
  | inl e ↦ rw e (high_tag-RestLe b 0)
  | inr e ↦ rw e (omega arith)
]

content_length-RestLe : (b : List ℕ) → RestLe (length b) (content_length b)
unfolding content_length
content_length-RestLe [] = tt
content_length-RestLe (c ∷ b) = elim (Bool-cases (ltb c 128)) [
  | inl e ↦ rw e (omega arith)
  | inr e ↦ elim (Bool-cases (c % 128 == 0 || ltb 4 (c % 128) || ltb (length b) (c % 128))) [
    | inl f ↦ rw (e, f) tt
    | inr f ↦ rw (e, f) (omega (arith, length-drop (c % 128) b))
  ]
]

with_length-ElementLt :
    (n tag_class tag : ℕ) (o : Option (ℕ × List ℕ))
    → RestLe n o
    → ElementLt (suc n) (with_length tag_class tag o)
unfolding with_length
with_length-ElementLt n tag_class tag none r = tt
with_length-ElementLt n tag_class tag (some (l, b)) r = elim (Bool-cases (ltb (length b) l)) [
  | inl e ↦ rw e tt
  | inr e ↦ rw e (omega (arith, r, length-drop l b))
]

with_tag-ElementLt :
    (n tag_class : ℕ) (o : Option (ℕ × List ℕ))
    → RestLe n o
    → ElementLt (suc n) (with_tag tag_class o)
unfolding with_tag
with_tag-ElementLt n tag_class none r = tt
with_tag-ElementLt n tag_class (some (tag, b)) r =
    with_length-ElementLt n tag_class tag (content_length b)
      (RestLe-mono (length b) n (content_length b) r (content_length-RestLe b))

element-ElementLt : (b : List ℕ) → ElementLt (length b) (element b)
unfolding element
element-ElementLt [] = tt
element-ElementLt (first ∷ []) = tt
element-ElementLt (first ∷ c ∷ b) =
    with_tag-ElementLt (suc (length b)) (first / 64) (tag_number first (c ∷ b))
      (tag_number-RestLe first (c ∷ b))

abbrev Ends : Option (Option (List ℕ)) → Type 0
Ends o = (r : Option (List ℕ)) × (o ≡ some r)

on_element-Ends :
    (fuel want : ℕ) (o : Option Element)
    → ElementLt (suc fuel) o
    → ((b : List ℕ) → length b ≤ fuel → Ends (find_loop fuel want b))
    → Ends (on_element want (find_loop fuel want) o)
unfolding on_element
on_element-Ends fuel want none l again = (none, refl)
on_element-Ends fuel want (some e) l again = elim (Bool-cases (e.tag_class == 2 && e.tag == want)) [
  | inl f ↦ rw f (some e.content, refl)
  | inr f ↦ rw f (again e.rest (omega (arith, l)))
]

find_loop-Ends : (fuel want : ℕ) (b : List ℕ) → length b ≤ fuel → Ends (find_loop fuel want b)
unfolding find_loop
find_loop-Ends fuel want [] n = (none, refl)
find_loop-Ends zero want (c ∷ b) n = absurd (omega (arith, n))
find_loop-Ends (suc fuel) want (c ∷ b) n =
    on_element-Ends fuel want (element (c ∷ b))
      (ElementLt-mono (suc (length b)) (suc fuel) (element (c ∷ b)) n (element-ElementLt (c ∷ b)))
      (find_loop-Ends fuel want)

-- On any bytes, malformed ones included, the scan ends within as many rounds as there are bytes.
pub find_context_tagged-ends :
    (seq : List ℕ) (want : ℕ) → (r : Option (List ℕ)) × (find_context_tagged seq want ≡ some r)
unfolding find_context_tagged
find_context_tagged-ends seq want = find_loop-Ends (length seq) want seq (omega arith)
