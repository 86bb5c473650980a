-- ===== src/Attest/Der/Tests.antt =====
-- Three elements, and a malformed one, and the scan over them.
use shared_compute.Common.{ℕ, ◌≡◌, refl, Option, some, List, [], ◌∷◌, All, arith}
use shared_compute.Attest.Der.{find_context_tagged, big_endian}
use shared_compute.Attest.Der.Find.{
  Tlv, low, high, short, long, IsTlv, encode_all, first_tagged, find_context_tagged-encode_all,
}
use shared_compute.Attest.Der.Ends.{find_context_tagged-ends}

-- [1] with a long length, then the root of trust, 704 in two groups, then another.
abbrev elements : List Tlv
elements =
    record {
      tag_class = 2;
      constructed = 1;
      tag = low 1;
      size = long (0 ∷ 2 ∷ []);
      content = 7 ∷ 8 ∷ [];
    }
    ∷ record {
      tag_class = 2;
      constructed = 1;
      tag = high (5 ∷ []) 64;
      size = short;
      content = 48 ∷ 0 ∷ [];
    }
    ∷ record { tag_class = 1; constructed = 0; tag = low 4; size = short; content = [] }
    ∷ []

well_formed : All IsTlv elements
unfolding big_endian
well_formed = (
  record {
    tag_class = omega arith;
    constructed = omega arith;
    tag = omega arith;
    size = (omega arith, omega arith, refl);
  },
  (
    record {
      tag_class = omega arith;
      constructed = omega arith;
      tag = ((omega arith, tt), omega arith, omega arith);
      size = omega arith;
    },
    (
      record {
        tag_class = omega arith;
        constructed = omega arith;
        tag = omega arith;
        size = omega arith;
      },
      tt,
    ),
  ),
)

find_context_tagged-encode_all_example :
    find_context_tagged (encode_all elements) 704 ≡ some (first_tagged 704 elements)
find_context_tagged-encode_all_example = find_context_tagged-encode_all 704 elements well_formed

find_context_tagged-ends_example :
    (r : Option (List ℕ)) × (find_context_tagged (191 ∷ 133 ∷ []) 704 ≡ some r)
find_context_tagged-ends_example = find_context_tagged-ends (191 ∷ 133 ∷ []) 704
