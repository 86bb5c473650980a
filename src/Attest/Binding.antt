-- ===== src/Attest/Binding.antt =====
-- The signed message binds the device's key, the nonce and the time.
use shared_compute.Common.{
  ℕ, ◌+◌, ◌*◌, ◌≡◌, refl, sym, ap, ◌∙◌, List, [], ◌∷◌, ◌++◌, length, length-append, arith,
}
use shared_compute.Common.Int64.{Int64, IsWord}
use shared_compute.Attest.{bind_prefix, big_endian_64, bind_message}

append_inj :
    (xs xs' ys ys' : List ℕ)
    → length xs ≡ length xs'
    → xs ++ ys ≡ xs' ++ ys'
    → (xs ≡ xs') × (ys ≡ ys')
append_inj [] [] ys ys' n h = (refl, h)
append_inj [] (x ∷ xs') ys ys' n h = absurd (omega (arith, n))
append_inj (x ∷ xs) [] ys ys' n h = absurd (omega (arith, n))
append_inj (x ∷ xs) (x' ∷ xs') ys ys' n h =
    let (e, f) = append_inj xs xs' ys ys' (omega (arith, n)) (cc h) in (cc (h, e), f)

abbrev read_64 : List ℕ → ℕ → ℕ
read_64 [] acc = acc
read_64 (c ∷ cs) acc = read_64 cs (acc * 256 + c)

read_64-big_endian_64 : (n : Int64) → IsWord n → read_64 (big_endian_64 n) 0 ≡ n
read_64-big_endian_64 n h = omega (arith, h)

-- Two messages for keys of 32 bytes are equal only if the keys, the nonces and the times are, although
-- the length of the nonce is not fixed.
pub bind_message_inj :
    (static_pk static_pk' nonce nonce' : List ℕ) (issued_at issued_at' : Int64)
    → length static_pk ≡ 32
    → length static_pk' ≡ 32
    → IsWord issued_at
    → IsWord issued_at'
    → bind_message static_pk nonce issued_at ≡ bind_message static_pk' nonce' issued_at'
    → (static_pk ≡ static_pk') × (nonce ≡ nonce') × (issued_at ≡ issued_at')
bind_message_inj static_pk static_pk' nonce nonce' t t' k k' w w' h =
    let tail = nonce ++ big_endian_64 t in
    let tail' = nonce' ++ big_endian_64 t' in
    let (e, f) =
      append_inj static_pk static_pk' tail tail' (k ∙ sym k')
        (append_inj bind_prefix bind_prefix (static_pk ++ tail) (static_pk' ++ tail') refl h).1 in
    let sizes : length nonce ≡ length nonce' = omega (
      arith,
      ap length f,
      length-append nonce (big_endian_64 t),
      length-append nonce' (big_endian_64 t'),
    ) in
    let (g, b) = append_inj nonce nonce' (big_endian_64 t) (big_endian_64 t') sizes f in
    (e, g, sym (read_64-big_endian_64 t w) ∙ ap (λ l. read_64 l 0) b ∙ read_64-big_endian_64 t' w')
