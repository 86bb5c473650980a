-- ===== src/Attest/Der.antt =====
-- coordinator/internal/attest/android.go: findContextTagged, which scans the elements of a DER sequence
-- that it is given as bytes. The tag number is a uint64, so its shift wraps; the length takes four bytes
-- at most. The loop is on fuel, and `none` is the fuel run out.
pub mod Find
pub mod Ends
mod Tests
use shared_compute.Common.{
  ℕ, zero, suc, ◌+◌, ◌-◌, ◌*◌, ◌/◌, ◌%◌, ◌^◌, Bool, true, false, not, ◌&&◌, ◌||◌, Option, none,
  some, List, [], ◌∷◌, length, take, drop, ltb, ◌==◌, if◌then◌else◌,
}

-- The loop over the bytes of a high tag number.
unfoldable pub high_tag : List ℕ → ℕ → Option (ℕ × List ℕ)
high_tag [] acc = none
high_tag (c ∷ b) acc =
    let acc' = acc * 128 % 2 ^ 64 + c % 128 in
    let rest = high_tag b acc' in if ltb c 128 then some (acc', b) else rest

unfoldable pub tag_number : ℕ → List ℕ → Option (ℕ × List ℕ)
unfolding high_tag
tag_number first b = if first % 32 == 31 then high_tag b 0 else some (first % 32, b)

unfoldable pub big_endian : List ℕ → ℕ → ℕ
big_endian [] acc = acc
big_endian (c ∷ b) acc = big_endian b (acc * 256 + c)

unfoldable pub content_length : List ℕ → Option (ℕ × List ℕ)
unfolding big_endian
content_length [] = none
content_length (l ∷ b) =
    let n = l % 128 in
    if ltb l 128
    then some (l, b)
    else if n == 0 || ltb 4 n || ltb (length b) n
    then none
    else some (big_endian (take n b) 0, drop n b)

-- An element: its class, its tag number, its content and what follows.
pub record Element : Type 0 where
  pub tag_class : ℕ
  pub tag : ℕ
  pub content : List ℕ
  pub rest : List ℕ

unfoldable pub with_length : ℕ → ℕ → Option (ℕ × List ℕ) → Option Element
with_length tag_class tag none = none
with_length tag_class tag (some (l, b)) =
    if ltb (length b) l
    then none
    else some (record { tag_class = tag_class; tag = tag; content = take l b; rest = drop l b })

unfoldable pub with_tag : ℕ → Option (ℕ × List ℕ) → Option Element
unfolding content_length with_length
with_tag tag_class none = none
with_tag tag_class (some (tag, b)) = with_length tag_class tag (content_length b)

unfoldable pub element : List ℕ → Option Element
unfolding tag_number with_tag
element [] = none
element (first ∷ []) = none
element (first ∷ c ∷ b) = with_tag (first / 64) (tag_number first (c ∷ b))

unfoldable pub on_element :
    ℕ → (List ℕ → Option (Option (List ℕ))) → Option Element → Option (Option (List ℕ))
on_element want again none = some none
on_element want again (some e) =
    let rest = again e.rest in
    if e.tag_class == 2 && e.tag == want then some (some e.content) else rest

unfoldable pub find_loop : ℕ → ℕ → List ℕ → Option (Option (List ℕ))
unfolding on_element
find_loop fuel want [] = some none
find_loop zero want (c ∷ b) = none
find_loop (suc fuel) want (c ∷ b) = on_element want (find_loop fuel want) (element (c ∷ b))

unfoldable pub find_context_tagged : List ℕ → ℕ → Option (Option (List ℕ))
unfolding find_loop
find_context_tagged seq want = find_loop (length seq) want seq
