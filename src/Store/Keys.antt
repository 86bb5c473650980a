-- ===== src/Store/Keys.antt =====
-- coordinator/internal/store/memory.go: consumer keys, provider tokens and provider records.
use shared_compute.Common.{
  ℕ, ◌≡◌, ◌≢◌, String, Bool, true, false, Option, none, some, List, map, str_eq, eq_iff, eq_refl,
  if◌then◌else◌, Option-cases, inl, inr, arith,
}
use shared_compute.Common.Dict
use shared_compute.Common.Dict.{Dict, get-put}
use shared_compute.Store.{Mem, KeyInfo, ProviderRecord}

disabled_of : Option KeyInfo → Bool
disabled_of none = false
disabled_of (some info) = info.disabled

check_key : Option String → Mem → Option String
unfolding disabled_of
check_key none m = none
check_key (some id) m = if disabled_of (Dict.get m.key_info id) then none else some id

unfoldable pub validate_consumer_key : Mem → String → Option String
unfolding check_key
validate_consumer_key m key = check_key (Dict.get m.keys key) m

abbrev pub fresh_info : String → String → ℕ → KeyInfo
fresh_info id label now = record { id = id; label = label; disabled = false; created_at = now }

-- `raw` is the fresh random key, `now` the clock.
unfoldable pub create_consumer_key : (String → String) → String → ℕ → String → Mem → Mem × String
create_consumer_key key_id raw now label m =
    let id = key_id raw in
    (
      record m {
        keys = Dict.put m.keys raw id;
        raw_by_id = Dict.put m.raw_by_id id raw;
        key_info = Dict.put m.key_info id (fresh_info id label now);
      },
      id,
    )

pub list_consumer_keys : Mem → List KeyInfo
list_consumer_keys m = map (λ e. e.1) m.key_info

set_disabled : Option KeyInfo → String → Bool → Mem → Option Mem
set_disabled none id disabled m = none
set_disabled (some info) id disabled m =
    some (record m { key_info = Dict.put m.key_info id (record info { disabled = disabled }) })

-- `none` is the error "no such key".
unfoldable pub set_consumer_key_disabled : String → Bool → Mem → Option Mem
unfolding set_disabled
set_consumer_key_disabled id disabled m = set_disabled (Dict.get m.key_info id) id disabled m

unfoldable pub validate_provider_token : Mem → String → Bool
validate_provider_token m token = elim (Dict.get m.tokens token) [ none ↦ false | some u ↦ true ]

unfoldable pub upsert_provider : ProviderRecord → Mem → Mem
upsert_provider p m = record m { providers = Dict.put m.providers p.provider_id p }

-- A key created from a fresh random token is accepted under its id, and no other key's answer
-- changes, unless it shares the id.
pub validate-create :
    (key_id : String → String) (raw label : String) (now : ℕ) (m : Mem) (key : String)
    → Dict.get m.keys key ≢ some (key_id raw)
    → validate_consumer_key (create_consumer_key key_id raw now label m).0 key
      ≡ (if str_eq raw key then some (key_id raw) else validate_consumer_key m key)
unfolding validate_consumer_key create_consumer_key
validate-create key_id raw label now m key other = elim (Option-cases (Dict.get m.keys key)) [
  | inl e ↦ ground (
    arith,
    e,
    get-put m.keys raw key (key_id raw),
    get-put m.key_info (key_id raw) (key_id raw) (fresh_info (key_id raw) label now),
    eq_refl (key_id raw),
  )
  | inr (k, e) ↦ ground (
    arith,
    e,
    get-put m.keys raw key (key_id raw),
    get-put m.key_info (key_id raw) (key_id raw) (fresh_info (key_id raw) label now),
    get-put m.key_info (key_id raw) k (fresh_info (key_id raw) label now),
    eq_refl (key_id raw),
    eq_iff (key_id raw) k,
  )
]

-- Disabling an id refuses every key that has it, enabling it accepts them again, and no key with
-- another id is affected.
pub validate-set_disabled :
    (id : String) (disabled : Bool) (m m' : Mem) (key : String)
    → set_consumer_key_disabled id disabled m ≡ some m'
    → validate_consumer_key m' key ≡ (elim (Dict.get m.keys key) [
      | none ↦ none
      | some k ↦
          if str_eq id k then (if disabled then none else some k) else validate_consumer_key m key
    ])
unfolding validate_consumer_key set_consumer_key_disabled
validate-set_disabled id disabled m m' key e = elim (Option-cases (Dict.get m.key_info id)) [
  | inl f ↦ ground (arith, e, f)
  | inr (info, f) ↦ elim (Option-cases (Dict.get m.keys key)) [
    | inl g ↦ ground (arith, e, f, g)
    | inr (k, g) ↦
        ground (
          arith,
          e,
          f,
          g,
          get-put m.key_info id k (record info { disabled = disabled }),
          eq_iff id k,
        )
  ]
]
