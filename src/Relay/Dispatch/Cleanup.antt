-- ===== src/Relay/Dispatch/Cleanup.antt =====
-- What ExecuteOn leaves behind on every path, and what it sends.
use shared_compute.Common.{
  suc, ◌+◌, ◌-◌, ◌<◌, ◌≡◌, refl, ap, sym, String, true, false, Option, some, [], ◌∷◌, ◌++◌,
  Bool-cases, Option-cases, inl, inr, eq_refl,
}
use shared_compute.Common.Int64.{half}
use mathlib.Core.Option.{some-injective}
use shared_compute.Common.Dict
use shared_compute.Common.Dict.{get-put, get-delete}
use shared_compute.Crypto
use shared_compute.Crypto.{SealedPayload, Library}
use shared_compute.Jobs.{has, close, register}
use shared_compute.Jobs.Valid.{IsValid, run, run-Steps, register-IsValid, close-Steps, has-close}
use shared_compute.Registry.{Provider, Registry, acquire_slot, release_slot}
use shared_compute.Registry.Slots.{after_events, running, count_starts, active-released}
use shared_compute.Relay.Dispatch.{
  Request, Deps, Call, World, Ended, change_provider, with_jobs, enter, leave, meanwhile, serve,
  dispatch, seal_and_dispatch, marshal_and_seal, with_key, execute_on, plaintext, request_frame,
  JobRequest, change_found,
}

-- No panic, a valid manager, and the job not in it.
abbrev Cleaned : String → Option (World × Ended) → Type 0
Cleaned job r =
    (w' : World) × (e : Ended) × (r ≡ some (w', e)) × IsValid w'.jobs × (has job w'.jobs ≡ false)

module _ (lib : Library) (deps : Deps lib) (call : Call lib) where
  leave-Cleaned :
      (prov : Provider) (w : World) (e : Ended)
      → IsValid w.jobs
      → Cleaned call.job_id (leave lib deps call prov w e)
  unfolding leave with_jobs
  leave-Cleaned prov w e v =
      let (m, closed, u) = close-Steps call.job_id w.jobs v in
      rw closed (
        record w { jobs = m; reg = change_provider prov.id release_slot w.reg },
        e,
        refl,
        u,
        has-close call.job_id w.jobs m closed,
      )

  dispatch-Cleaned :
      (prov : Provider) (req : Request) (secret : lib.Bytes) (sealed : SealedPayload) (w : World)
      → IsValid w.jobs
      → Cleaned call.job_id (dispatch lib deps call prov req secret sealed w)
  unfolding dispatch enter meanwhile serve
  dispatch-Cleaned prov req secret sealed w v =
      let (m, ran, u) =
        run-Steps (register call.job_id prov.id w.jobs).0 call.manager_calls
          (register-IsValid call.job_id prov.id w.jobs v) in
      elim (Bool-cases call.sends) [
        | inl s ↦ rw (ran, s) (leave-Cleaned prov _ _ u)
        | inr s ↦ rw (ran, s) (leave-Cleaned prov _ _ u)
      ]

  -- From a valid jobs manager that does not have the new job, ExecuteOn never panics, whatever the
  -- other goroutines call meanwhile, and on every path, each error included, it leaves a valid
  -- manager in which the job is not in flight.
  pub has-execute_on :
      (prov : Provider) (req : Request) (w : World)
      → IsValid w.jobs
      → has call.job_id w.jobs ≡ false
      → (w' : World) × (e : Ended) × (execute_on lib deps call prov req w ≡ some (w', e))
        × IsValid w'.jobs
        × (has call.job_id w'.jobs ≡ false)
  unfolding execute_on with_key marshal_and_seal seal_and_dispatch
  has-execute_on prov req w v fresh = elim (Option-cases call.key_pair) [
    | inl k ↦ rw k (w, _, refl, v, fresh)
    | inr (keys, k) ↦ elim (Option-cases (deps.marshal (plaintext lib deps call req))) [
      | inl r ↦ rw (k, r) (w, _, refl, v, fresh)
      | inr (raw, r) ↦ elim (Option-cases call.nonce) [
        | inl n ↦ rw (k, r, n) (w, _, refl, v, fresh)
        | inr (nonce, n) ↦ rw (k, r, n) (dispatch-Cleaned prov req keys.1 _ w v)
      ]
    ]
  ]

get-change_provider :
    (id : String) (f : Provider → Provider) (reg : Registry) (p : Provider)
    → Dict.get reg id ≡ some p
    → Dict.get (change_provider id f reg) id ≡ some (f p)
unfolding change_found
get-change_provider id f reg p e = rw e (rw (get-put, eq_refl id) refl)

module _ (lib : Library) (deps : Deps lib) (call : Call lib) where
  -- The provider as the call leaves it, in a registry that has it.
  abbrev Released : Provider → Provider → Option (World × Ended) → Type 0
  Released prov p r =
      (w' : World) × (e : Ended) × (r ≡ some (w', e))
      × (Dict.get w'.reg prov.id
          ≡ some (release_slot (after_events (acquire_slot p) call.slot_events)))

  leave-Released :
      (prov : Provider) (w : World) (e : Ended) (p : Provider)
      → IsValid w.jobs
      → Dict.get w.reg prov.id ≡ some (after_events (acquire_slot p) call.slot_events)
      → Released prov p (leave lib deps call prov w e)
  unfolding leave with_jobs
  leave-Released prov w e p v g =
      let (m, closed, u) = close-Steps call.job_id w.jobs v in
      rw closed (
        record w { jobs = m; reg = change_provider prov.id release_slot w.reg },
        e,
        refl,
        get-change_provider prov.id release_slot w.reg _ g,
      )

  dispatch-Released :
      (prov : Provider) (req : Request) (secret : lib.Bytes) (sealed : SealedPayload) (w : World)
      (p : Provider)
      → IsValid w.jobs
      → Dict.get w.reg prov.id ≡ some p
      → Released prov p (dispatch lib deps call prov req secret sealed w)
  unfolding dispatch enter meanwhile serve
  dispatch-Released prov req secret sealed w p v g =
      let (m, ran, u) =
        run-Steps (register call.job_id prov.id w.jobs).0 call.manager_calls
          (register-IsValid call.job_id prov.id w.jobs v) in
      let held =
        get-change_provider prov.id (λ q. after_events q call.slot_events)
          (change_provider prov.id acquire_slot w.reg) _
          (get-change_provider prov.id acquire_slot w.reg p g) in
      elim (Bool-cases call.sends) [
        | inl s ↦ rw (ran, s) (leave-Released prov _ _ p u held)
        | inr s ↦ rw (ran, s) (leave-Released prov _ _ p u held)
      ]

  -- From a valid jobs manager, with the key pair, the plaintext and the nonce at hand, and with fewer
  -- than 2 ^ 63 jobs running or to be started, ExecuteOn gives back the slot that it takes: a provider
  -- that is connected ends, whether the send and the job succeed or fail, with one job less than the
  -- other jobs' starts and ends leave from one more.
  pub active-execute_on :
      (prov : Provider) (req : Request) (w : World) (keys : lib.Bytes × lib.Bytes)
      (raw nonce : lib.Bytes) (p : Provider)
      → call.key_pair ≡ some keys
      → deps.marshal (plaintext lib deps call req) ≡ some raw
      → call.nonce ≡ some nonce
      → IsValid w.jobs
      → Dict.get w.reg prov.id ≡ some p
      → p.active + suc (count_starts call.slot_events) < half
      → (w' : World) × (e : Ended) × (p' : Provider) × (execute_on lib deps call prov req w
          ≡ some (w', e))
        × (Dict.get w'.reg prov.id ≡ some p')
        × (p'.active ≡ running (suc p.active) call.slot_events - 1)
  unfolding execute_on with_key marshal_and_seal seal_and_dispatch
  active-execute_on prov req w keys raw nonce p k r n v g small =
      let (w', e, done, found) = dispatch-Released prov req keys.1 _ w p v g in
      rw (k, r, n)
        (
          w',
          e,
          release_slot (after_events (acquire_slot p) call.slot_events),
          done,
          found,
          active-released p call.slot_events small,
        )

  sent-leave :
      (prov : Provider) (w w' : World) (e e' : Ended)
      → leave lib deps call prov w e ≡ some (w', e')
      → w'.sent ≡ w.sent
  unfolding leave with_jobs
  sent-leave prov w w' e e' = elim (Option-cases (close call.job_id w.jobs)) [
    | inl c ↦ rw c λ h. cc
    | inr (m, c) ↦ rw c λ h. sym (ap (λ (x : World × Ended). x.0.sent) (some-injective _ _ h))
  ]

  sent-dispatch :
      (prov : Provider) (req : Request) (secret : lib.Bytes) (sealed : SealedPayload) (w w' : World)
      (e : Ended)
      → call.sends ≡ true
      → dispatch lib deps call prov req secret sealed w ≡ some (w', e)
      → w'.sent ≡ w.sent ++ (prov.id, request_frame lib deps call req sealed) ∷ []
  unfolding dispatch enter meanwhile serve
  sent-dispatch prov req secret sealed w w' e s =
      elim (Option-cases (run (register call.job_id prov.id w.jobs).0 call.manager_calls)) [
        | inl r ↦ rw r λ h. cc
        | inr (m, r) ↦ rw (r, s) λ h. sent-leave prov _ w' _ e h
      ]

  -- When ExecuteOn has the ephemeral key pair, the plaintext and a nonce of 24 bytes, the send
  -- succeeds and the call ends without a panic, it has sent one more job request, to the chosen
  -- provider and for the job, and the holder of the provider's secret key opens it to the marshalled
  -- request with the public half of the ephemeral key.
  pub open-execute_on :
      (prov : Provider) (req : Request) (w w' : World) (e : Ended)
      (public secret recipient raw nonce : lib.Bytes)
      → call.key_pair ≡ some (public, secret)
      → deps.marshal (plaintext lib deps call req) ≡ some raw
      → call.nonce ≡ some nonce
      → lib.size nonce ≡ 24
      → deps.key_of prov.static_pk ≡ lib.public_of recipient
      → call.sends ≡ true
      → execute_on lib deps call prov req w ≡ some (w', e)
      → (frame : JobRequest) × (w'.sent ≡ w.sent ++ (prov.id, frame) ∷ [])
        × (frame.job_id ≡ call.job_id)
        × (Crypto.open_sealed lib frame.sealed (lib.public_of secret) recipient ≡ some raw)
  unfolding execute_on with_key marshal_and_seal seal_and_dispatch
  open-execute_on prov req w w' e public secret recipient raw nonce k r n sized key s =
      let sealed = Crypto.seal lib nonce raw (lib.public_of recipient) secret public in
      rw (k, r, n, key)
        λ h. (
          request_frame lib deps call req sealed,
          sent-dispatch prov req secret sealed w w' e s h,
          refl,
          Crypto.open_sealed-seal lib nonce raw secret recipient public sized,
        )
