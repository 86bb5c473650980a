-- ===== src/Attest/Der/Find.antt =====
-- The scan finds the first element of the wanted tag in what an encoder writes, in each of the forms of DER and BER that it reads.
use shared_compute.Common.{
  ℕ, zero, suc, ◌+◌, ◌*◌, ◌/◌, ◌%◌, ◌^◌, ◌≤◌, ◌<◌, ◌≡◌, refl, ap, ◌∙◌, false, ◌&&◌, ◌||◌, Option,
  none, some, List, [], ◌∷◌, ◌++◌, map, length, take, drop, All, ltb, ◌==◌, if◌then◌else◌,
  Bool-cases, inl, inr, arith, length-append,
}
use shared_compute.Attest.Der.{
  high_tag, tag_number, big_endian, content_length, with_length, with_tag, element, find_loop,
  find_context_tagged,
}

-- A tag number in its low form, or as groups of seven bits, the last one apart.
pub data Tag : Type 0 where
  low : ℕ → Tag
  high : List ℕ → ℕ → Tag

-- A length in its short form, or as big-endian bytes.
pub data Size : Type 0 where
  short : Size
  long : List ℕ → Size

pub record Tlv : Type 0 where
  pub tag_class : ℕ
  pub constructed : ℕ
  pub tag : Tag
  pub size : Size
  pub content : List ℕ

abbrev pub groups : List ℕ → ℕ → ℕ
groups [] acc = acc
groups (g ∷ gs) acc = groups gs (acc * 128 + g)

abbrev pub value : Tag → ℕ
value (low t) = t
value (high gs g) = groups gs 0 * 128 + g

abbrev pub tag_bits : Tag → ℕ
tag_bits (low t) = t
tag_bits (high gs g) = 31

abbrev pub encode_groups : Tag → List ℕ → List ℕ
encode_groups (low t) rest = rest
encode_groups (high gs g) rest = map (λ c. c + 128) gs ++ (g ∷ rest)

abbrev pub encode_size : ℕ → Size → List ℕ → List ℕ
encode_size n short rest = n ∷ rest
encode_size n (long ls) rest = (128 + length ls) ∷ (ls ++ rest)

abbrev pub encode : Tlv → List ℕ → List ℕ
encode t rest =
    (t.tag_class * 64 + t.constructed * 32 + tag_bits t.tag)
    ∷ encode_groups t.tag (encode_size (length t.content) t.size (t.content ++ rest))

abbrev pub encode_all : List Tlv → List ℕ
encode_all [] = []
encode_all (t ∷ ts) = encode t (encode_all ts)

abbrev pub IsTag : Tag → Type 0
IsTag (low t) = t < 31
IsTag (high gs g) = All (λ c. c < 128) gs × g < 128 × groups gs 0 * 128 + g < 2 ^ 64

abbrev pub IsSize : ℕ → Size → Type 0
IsSize n short = n < 128
IsSize n (long ls) = 1 ≤ length ls × length ls ≤ 4 × big_endian ls 0 ≡ n

pub record IsTlv (t : Tlv) : Type 0 where
  pub tag_class : t.tag_class < 4
  pub constructed : t.constructed < 2
  pub tag : IsTag t.tag
  pub size : IsSize (length t.content) t.size

-- The content of the first element of the context class with the tag number.
abbrev pub first_tagged : ℕ → List Tlv → Option (List ℕ)
first_tagged want [] = none
first_tagged want (t ∷ ts) =
    let rest = first_tagged want ts in
    if t.tag_class == 2 && value t.tag == want then some t.content else rest

groups-ge : (gs : List ℕ) (acc : ℕ) → acc ≤ groups gs acc
groups-ge [] acc = omega arith
groups-ge (g ∷ gs) acc = omega (arith, groups-ge gs (acc * 128 + g))

high_tag-groups :
    (gs : List ℕ) (acc g : ℕ) (rest : List ℕ)
    → All (λ c. c < 128) gs
    → g < 128
    → groups gs acc * 128 + g < 2 ^ 64
    → high_tag (map (λ c. c + 128) gs ++ (g ∷ rest)) acc ≡ some (groups gs acc * 128 + g, rest)
unfolding high_tag
high_tag-groups [] acc g rest a h n = ground (arith, h, n)
high_tag-groups (x ∷ gs) acc g rest a h n =
    let below = groups-ge gs (acc * 128 + x) in
    let e : acc * 128 % 2 ^ 64 + (x + 128) % 128 ≡ acc * 128 + x = omega (arith, below, n, a.0) in
    let f : ltb (x + 128) 128 ≡ false = ground (arith) in
    rw (e, f) (high_tag-groups gs (acc * 128 + x) g rest a.1 h n)

take-append : (xs ys : List ℕ) → take (length xs) (xs ++ ys) ≡ xs
take-append [] ys = refl
take-append (x ∷ xs) ys = ap (λ l. x ∷ l) (take-append xs ys)

drop-append : (xs ys : List ℕ) → drop (length xs) (xs ++ ys) ≡ ys
drop-append [] ys = refl
drop-append (x ∷ xs) ys = drop-append xs ys

tag_number-encode :
    (tag_class constructed : ℕ) (t : Tag) (rest : List ℕ)
    → IsTag t
    → tag_number (tag_class * 64 + constructed * 32 + tag_bits t) (encode_groups t rest)
      ≡ some (value t, rest)
unfolding tag_number
tag_number-encode tag_class constructed (low t) rest h =
    let e : (tag_class * 64 + constructed * 32 + t) % 32 ≡ t = omega (arith, h) in
    rw e (ground (arith, h))
tag_number-encode tag_class constructed (high gs g) rest h =
    let e : (tag_class * 64 + constructed * 32 + 31) % 32 ≡ 31 = omega arith in
    rw e (high_tag-groups gs 0 g rest h.0 h.1 h.2)

content_length-encode :
    (n : ℕ) (s : Size) (rest : List ℕ)
    → IsSize n s
    → content_length (encode_size n s rest) ≡ some (n, rest)
unfolding content_length
content_length-encode n short rest h = ground (arith, h)
content_length-encode n (long ls) rest h =
    let e : (128 + length ls) % 128 ≡ length ls = omega (arith, h.0, h.1) in
    let f : ltb (128 + length ls) 128 ≡ false = ground arith in
    let g : (length ls == 0 || ltb 4 (length ls) || ltb (length (ls ++ rest)) (length ls)) ≡ false =
      ground (arith, h.0, h.1, length-append ls rest) in
    rw (f, e, g, take-append, drop-append, h.2) refl

with_length-append :
    (tag_class tag : ℕ) (content rest : List ℕ)
    → with_length tag_class tag (some (length content, content ++ rest))
      ≡ some (record { tag_class = tag_class; tag = tag; content = content; rest = rest })
unfolding with_length
with_length-append tag_class tag content rest =
    let f : ltb (length (content ++ rest)) (length content) ≡ false =
      ground (arith, length-append content rest) in
    rw (f, take-append, drop-append) refl

encode_size-pos : (n : ℕ) (s : Size) (rest : List ℕ) → 1 ≤ length (encode_size n s rest)
encode_size-pos n short rest = omega arith
encode_size-pos n (long ls) rest = omega arith

encode_groups-pos : (t : Tag) (rest : List ℕ) → 1 ≤ length rest → 1 ≤ length (encode_groups t rest)
encode_groups-pos (low t) rest h = h
encode_groups-pos (high [] g) rest h = omega arith
encode_groups-pos (high (x ∷ gs) g) rest h = omega arith

element-cons :
    (first : ℕ) (b : List ℕ)
    → 1 ≤ length b
    → element (first ∷ b) ≡ with_tag (first / 64) (tag_number first b)
unfolding element
element-cons first [] h = absurd (omega (arith, h))
element-cons first (c ∷ b) h = refl

tag_bits-lt : (t : Tag) → IsTag t → tag_bits t < 32
tag_bits-lt (low t) h = omega (arith, h)
tag_bits-lt (high gs g) h = omega arith

-- An element that was encoded is read back, whichever forms its tag and its length have.
element-encode :
    (t : Tlv) (rest : List ℕ)
    → IsTlv t
    → element (encode t rest)
      ≡ some
          (record { tag_class = t.tag_class; tag = value t.tag; content = t.content; rest = rest })
unfolding with_tag
element-encode t rest h =
    let tail = encode_size (length t.content) t.size (t.content ++ rest) in
    let lead = t.tag_class * 64 + t.constructed * 32 + tag_bits t.tag in
    let e : lead / 64 ≡ t.tag_class = omega (arith, h.constructed, tag_bits-lt t.tag h.tag) in
    element-cons lead (encode_groups t.tag tail)
      (encode_groups-pos t.tag tail (encode_size-pos (length t.content) t.size (t.content ++ rest)))
    ∙ rw
        (
          e,
          tag_number-encode t.tag_class t.constructed t.tag tail h.tag,
          content_length-encode (length t.content) t.size (t.content ++ rest) h.size,
        )
        (with_length-append t.tag_class (value t.tag) t.content rest)

encode_size-ge : (n : ℕ) (s : Size) (rest : List ℕ) → length rest ≤ length (encode_size n s rest)
encode_size-ge n short rest = omega arith
encode_size-ge n (long ls) rest = omega (arith, length-append ls rest)

encode_groups-ge : (t : Tag) (rest : List ℕ) → length rest ≤ length (encode_groups t rest)
encode_groups-ge (low t) rest = omega arith
encode_groups-ge (high gs g) rest = omega (arith, length-append (map (λ c. c + 128) gs) (g ∷ rest))

encode-gt : (t : Tlv) (rest : List ℕ) → length rest < length (encode t rest)
encode-gt t rest =
    let inner = t.content ++ rest in
    omega (
      arith,
      encode_groups-ge t.tag (encode_size (length t.content) t.size inner),
      encode_size-ge (length t.content) t.size inner,
      length-append t.content rest,
    )

find_loop-encode :
    (fuel want : ℕ) (ts : List Tlv)
    → All IsTlv ts
    → length (encode_all ts) ≤ fuel
    → find_loop fuel want (encode_all ts) ≡ some (first_tagged want ts)
unfolding find_loop
find_loop-encode fuel want [] h n = refl
find_loop-encode zero want (t ∷ ts) h n = absurd (omega (arith, n))
find_loop-encode (suc fuel) want (t ∷ ts) h n =
    rw (element-encode t (encode_all ts) h.0)
      (elim (Bool-cases (t.tag_class == 2 && value t.tag == want)) [
        | inl e ↦ rw e refl
        | inr e ↦
            rw e (find_loop-encode fuel want ts h.1 (omega (arith, n, encode-gt t (encode_all ts))))
      ])

-- The scan of what an encoder writes, in whichever forms it puts the tag numbers and the lengths, gives
-- the content of the first element of the context class with the wanted tag number, and nothing when
-- there is none.
pub find_context_tagged-encode_all :
    (want : ℕ) (ts : List Tlv)
    → All IsTlv ts
    → find_context_tagged (encode_all ts) want ≡ some (first_tagged want ts)
unfolding find_context_tagged
find_context_tagged-encode_all want ts h =
    find_loop-encode (length (encode_all ts)) want ts h (omega arith)
