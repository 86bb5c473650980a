-- ===== src/Accounts/Gate.antt =====
-- What a callback of a sign-in service has passed when it changes anything or sets a session cookie.
use shared_compute.Common.{
  ℕ, ◌≡◌, ◌≢◌, ◌⊎◌, refl, sym, String, Option, none, true, false, some, eq_iff, arith, str_eq,
  Bool-cases, Option-cases, inl, inr,
}
use shared_compute.Store.{Mem}
use shared_compute.Accounts.{
  Text, Tables, Profile, Callback, Fresh, denied, state_matches, with_profile, handle_callback,
}

-- What a sign-in needs.
pub record Passes (req : Callback) : Type 0 where
  pub configured : req.configured ≡ true
  pub cookie : String
  pub shown : req.cookie ≡ some cookie
  pub drawn : cookie ≢ ""
  pub echoed : req.state ≡ cookie
  pub code : str_eq req.code "" ≡ false
  pub profile : Profile
  pub given : req.profile ≡ some profile
  pub email : str_eq profile.email "" ≡ false

state_matches-cookie :
    (cookie : Option String) (state : String)
    → state_matches cookie state ≡ true
    → (value : String) × (cookie ≡ some value) × (value ≢ "") × (state ≡ value)
unfolding state_matches
state_matches-cookie none state h = absurd (cc h)
state_matches-cookie (some value) state h = elim (Bool-cases (str_eq value "")) [
  | inl e ↦ absurd (ground (arith, e, h))
  | inr e ↦ (
    value,
    refl,
    λ n. let d : str_eq value "" ≡ true = rw n refl in absurd (cc (d, e)),
    sym ((eq_iff value state).0 (ground (arith, e, h))),
  )
]

-- A callback either is for a configured sign-in service, with the state that stands in the browser's
-- cookie and is not empty, with a code and with an email that is not empty, or it is denied and leaves
-- the accounts and the store as they were.
pub handle_callback_lem :
    (text : Text) (req : Callback) (fresh : Fresh) (now : ℕ) (m : Mem) (t : Tables)
    → Passes req ⊎ ((status : ℕ) × (handle_callback text req fresh now m t ≡ (m, t, denied status)))
unfolding handle_callback with_profile
handle_callback_lem text req fresh now m t = elim (Bool-cases req.configured) [
  | inr c ↦ inr (404, rw c refl)
  | inl c ↦ elim (Bool-cases (state_matches req.cookie req.state)) [
    | inr s ↦ inr (400, rw (c, s) refl)
    | inl s ↦
        let (cookie, shown, drawn, echoed) = state_matches-cookie req.cookie req.state s in
        elim (Bool-cases (str_eq req.code "")) [
          | inl k ↦ inr (400, rw (c, s, k) refl)
          | inr k ↦ elim (Option-cases req.profile) [
            | inl n ↦ inr (502, rw (c, s, k, n) refl)
            | inr (p, n) ↦ elim (Bool-cases (str_eq p.email "")) [
              | inl e ↦ inr (400, rw (c, s, k, n, e) refl)
              | inr e ↦ inl (record {
                configured = c;
                cookie = cookie;
                shown = shown;
                drawn = drawn;
                echoed = echoed;
                code = k;
                profile = p;
                given = n;
                email = e;
              })
            ]
          ]
        ]
  ]
]
