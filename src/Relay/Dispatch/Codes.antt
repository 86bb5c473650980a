-- ===== src/Relay/Dispatch/Codes.antt =====
-- The errors of Execute: what their codes tell, and those that leave everything as it was.
use shared_compute.Common.{
  ◌≡◌, refl, sym, ap, ◌∙◌, ◌⊎◌, inl, inr, String, Bool, true, false, Option, none, some, str_eq,
  if◌then◌else◌,
}
use mathlib.Core.Option.{some-injective}
use shared_compute.Scheduler
use shared_compute.Relay.{
  context_done, deadline, provider_gone, bad_chunk, decrypt, bad_plaintext, invalid_result,
  write_failed, bad_done, provider_error,
}
use shared_compute.Relay.Dispatch.{
  ExecError, unpicked, no_key, no_plaintext, no_seal, relayed, err_code,
}

-- The error that a code stands for, if it stands for one only.
cause : String → Option ExecError
cause code =
    if str_eq code "no_provider"
    then some (unpicked Scheduler.no_provider)
    else if str_eq code "trust_tier_unmet"
    then some (unpicked Scheduler.tier_unmet)
    else if str_eq code "capabilities_unmet"
    then some (unpicked Scheduler.caps_unmet)
    else if str_eq code "provider_gone"
    then some (relayed provider_gone)
    else if str_eq code "invalid_provider_result"
    then some (relayed invalid_result)
    else if str_eq code "deadline"
    then some (relayed deadline)
    else none

cause_known : (c : Bool) (f : ExecError) (e : ExecError) → cause (err_code c f).0 ≡ some e → f ≡ e
unfolding cause
cause_known c (unpicked Scheduler.no_provider) e h = some-injective _ _ h
cause_known c (unpicked Scheduler.tier_unmet) e h = some-injective _ _ h
cause_known c (unpicked Scheduler.caps_unmet) e h = some-injective _ _ h
cause_known c no_key e h = cc
cause_known c no_plaintext e h = cc
cause_known c no_seal e h = cc
cause_known c (relayed provider_gone) e h = some-injective _ _ h
cause_known c (relayed invalid_result) e h = some-injective _ _ h
cause_known c (relayed deadline) e h = some-injective _ _ h
cause_known c (relayed context_done) e h = cc
cause_known true (relayed write_failed) e h = cc
cause_known false (relayed write_failed) e h = cc
cause_known c (relayed bad_chunk) e h = cc
cause_known c (relayed decrypt) e h = cc
cause_known c (relayed bad_plaintext) e h = cc
cause_known c (relayed bad_done) e h = cc
cause_known c (relayed (provider_error code)) e h = cc

cause-err_code :
    (c : Bool) (e : ExecError)
    → (cause (err_code c e).0 ≡ some e)
      ⊎ ((err_code c e).0 ≡ "internal")
      ⊎ ((err_code c e).0 ≡ "client_closed")
unfolding cause
cause-err_code c (unpicked Scheduler.no_provider) = inl refl
cause-err_code c (unpicked Scheduler.tier_unmet) = inl refl
cause-err_code c (unpicked Scheduler.caps_unmet) = inl refl
cause-err_code c no_key = inr (inl refl)
cause-err_code c no_plaintext = inr (inl refl)
cause-err_code c no_seal = inr (inl refl)
cause-err_code c (relayed provider_gone) = inl refl
cause-err_code c (relayed invalid_result) = inl refl
cause-err_code c (relayed deadline) = inl refl
cause-err_code c (relayed context_done) = inr (inr refl)
cause-err_code true (relayed write_failed) = inr (inr refl)
cause-err_code false (relayed write_failed) = inr (inl refl)
cause-err_code c (relayed bad_chunk) = inr (inl refl)
cause-err_code c (relayed decrypt) = inr (inl refl)
cause-err_code c (relayed bad_plaintext) = inr (inl refl)
cause-err_code c (relayed bad_done) = inr (inl refl)
cause-err_code c (relayed (provider_error code)) = inr (inl refl)

-- A code of ErrCode other than "internal" and "client_closed" tells the error: no other error has
-- it, whatever the callback's error is on either side.
pub err_code_tells :
    (c d : Bool) (e f : ExecError)
    → (err_code c e).0 ≡ (err_code d f).0
    → (e ≡ f) ⊎ ((err_code c e).0 ≡ "internal") ⊎ ((err_code c e).0 ≡ "client_closed")
err_code_tells c d e f h = elim (cause-err_code c e) [
  | inl known ↦ inl (sym (cause_known d f e (ap cause (sym h) ∙ known)))
  | inr rest ↦ inr rest
]
