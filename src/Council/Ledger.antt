-- ===== src/Council/Ledger.antt =====
-- coordinator/internal/council/evaluate.go and council.go: the public ledger of decisions, kept to
-- the last fifty in the process, and its hash chain. `digest` is recordHash of canonicalDecision:
-- the hash of a record's content and of the previous hash, but not of its own.
use shared_compute.Common.{
  ℕ, suc, ◌+◌, ◌-◌, ◌≤◌, ◌≡◌, ◌≢◌, refl, ap, ◌∙◌, String, Bool, true, false, not, Bool-cases, inl,
  inr, List, [], ◌∷◌, ◌++◌, length, drop, length-append, ltb, str_eq, eq_iff, eq_refl,
  if◌then◌else◌, arith,
}
use mathlib.Core.List.{append-nil, append_assoc}

pub record PublicDecision (Body : Type 0) : Type 0 where
  pub body : Body
  pub previous_record_hash : String
  pub record_hash : String

abbrev pub max_recent : ℕ
max_recent = 50

module _ {Body : Type 0} (digest : Body → String → String) where
  abbrev pub linked : String → Body → PublicDecision Body
  linked prev b = record { body = b; previous_record_hash = prev; record_hash = digest b prev }

  -- The loop of demoDecisions that links the seeded records.
  unfoldable pub link : String → List Body → List (PublicDecision Body)
  link prev [] = []
  link prev (b ∷ bs) = linked prev b ∷ link (digest b prev) bs

  -- The hash of the last record, or `h` where there is none.
  unfoldable pub last_hash : String → List (PublicDecision Body) → String
  last_hash h [] = h
  last_hash h (r ∷ rs) = last_hash r.record_hash rs

  unfoldable pub verify_chain : String → List (PublicDecision Body) → Bool
  verify_chain prev [] = true
  verify_chain prev (r ∷ rs) =
      let rest = verify_chain r.record_hash rs in
      if not (str_eq r.previous_record_hash prev)
      then false
      else if not (str_eq (digest r.body r.previous_record_hash) r.record_hash)
      then false
      else rest

  module _ (demo : List Body) where
    unfoldable pub last_demo_hash : String
    unfolding last_hash link
    last_demo_hash = last_hash "" (link "" demo)

    unfoldable pub keep_recent : List (PublicDecision Body) → List (PublicDecision Body)
    keep_recent rs = if ltb max_recent (length rs) then drop (length rs - max_recent) rs else rs

    -- RecordWorkloadDecision, on the ledger `recent`.
    unfoldable pub record_decision : List (PublicDecision Body) → Body → List (PublicDecision Body)
    unfolding keep_recent last_hash last_demo_hash
    record_decision recent b =
        keep_recent (recent ++ linked (last_hash last_demo_hash recent) b ∷ [])

    unfoldable pub record_decisions :
        List (PublicDecision Body) → List Body → List (PublicDecision Body)
    unfolding record_decision
    record_decisions recent [] = recent
    record_decisions recent (b ∷ bs) = record_decisions (record_decision recent b) bs

    unfoldable pub all_decisions : List (PublicDecision Body) → List (PublicDecision Body)
    unfolding link
    all_decisions recent = link "" demo ++ recent

    unfoldable pub chain_valid : List (PublicDecision Body) → Bool
    unfolding verify_chain all_decisions
    chain_valid recent = verify_chain "" (all_decisions recent)

  verify-link : (h : String) (bs : List Body) → verify_chain h (link h bs) ≡ true
  unfolding verify_chain link
  verify-link h [] = refl
  verify-link h (b ∷ bs) = rw (eq_refl, eq_refl) (verify-link (digest b h) bs)

  verify-append :
      (h : String) (bs : List Body) (rs : List (PublicDecision Body))
      → verify_chain h (link h bs ++ rs) ≡ verify_chain (last_hash h (link h bs)) rs
  unfolding verify_chain link last_hash
  verify-append h [] rs = refl
  verify-append h (b ∷ bs) rs = rw (eq_refl, eq_refl) (verify-append (digest b h) bs rs)

  link-snoc :
      (h : String) (bs : List Body) (b : Body)
      → link h (bs ++ b ∷ []) ≡ link h bs ++ linked (last_hash h (link h bs)) b ∷ []
  unfolding link last_hash
  link-snoc h [] b = refl
  link-snoc h (c ∷ bs) b = ap (λ l. linked h c ∷ l) (link-snoc (digest c h) bs b)

  length-link : (h : String) (bs : List Body) → length (link h bs) ≡ length bs
  unfolding link
  length-link h [] = refl
  length-link h (b ∷ bs) = ap (λ (n : ℕ). suc n) (length-link (digest b h) bs)

  last_hash-append :
      (h : String) (rs qs : List (PublicDecision Body))
      → last_hash h (rs ++ qs) ≡ last_hash (last_hash h rs) qs
  unfolding last_hash
  last_hash-append h [] qs = refl
  last_hash-append h (r ∷ rs) qs = last_hash-append r.record_hash rs qs

  -- A record that links to the last hash keeps a chain.
  verify-snoc :
      (h : String) (rs : List (PublicDecision Body)) (b : Body)
      → verify_chain h rs ≡ true
      → verify_chain h (rs ++ linked (last_hash h rs) b ∷ []) ≡ true
  unfolding verify_chain last_hash
  verify-snoc h [] b v = rw (eq_refl, eq_refl) refl
  verify-snoc h (r ∷ rs) b v = elim (Bool-cases (str_eq r.previous_record_hash h)) [
    | inr e ↦ absurd (ground (arith, e, v))
    | inl e ↦ elim (Bool-cases (str_eq (digest r.body r.previous_record_hash) r.record_hash)) [
      | inr f ↦ absurd (ground (arith, e, f, v))
      | inl f ↦ rw (e, f) (verify-snoc r.record_hash rs b (ground (arith, e, f, v)))
    ]
  ]

  module _ (demo : List Body) where
    chain_valid-snoc :
        (old : List (PublicDecision Body)) (b : Body)
        → chain_valid demo old ≡ true
        → chain_valid demo (old ++ linked (last_hash (last_demo_hash demo) old) b ∷ []) ≡ true
    unfolding chain_valid all_decisions last_demo_hash
    chain_valid-snoc old b valid =
        rw (← last_hash-append "" (link "" demo) old, ← append_assoc)
          (verify-snoc "" (link "" demo ++ old) b valid)

    -- While nothing is dropped, the ledger is the bodies linked to the end of the seeded records.
    record_decisions-link :
        (old new : List Body)
        → length old + length new ≤ max_recent
        → record_decisions demo (link (last_demo_hash demo) old) new
          ≡ link (last_demo_hash demo) (old ++ new)
    unfolding record_decisions record_decision
    record_decisions-link old [] h = rw append-nil refl
    record_decisions-link old (b ∷ new) h =
        let kept : keep_recent demo (
              link (last_demo_hash demo) old
              ++ linked (last_hash (last_demo_hash demo) (link (last_demo_hash demo) old)) b ∷ [])
            ≡ link (last_demo_hash demo) (old ++ b ∷ []) =
          rw (← link-snoc) (
            unfold keep_recent in
            ground (
              arith,
              h,
              length-link (last_demo_hash demo) (old ++ b ∷ []),
              length-append {0} old (b ∷ []),
            )) in
        rw kept (
          record_decisions-link (old ++ b ∷ []) new
            (omega (arith, h, length-append {0} old (b ∷ [])))
          ∙ ap (λ l. link (last_demo_hash demo) l) (append_assoc old (b ∷ []) new))

    -- A ledger that verifies, with what Hydrate loaded or empty, still verifies after as many decisions as
    -- it has room for below fifty.
    pub chain_valid-record_decisions :
        (old : List (PublicDecision Body)) (bodies : List Body)
        → chain_valid demo old ≡ true
        → length old + length bodies ≤ max_recent
        → chain_valid demo (record_decisions demo old bodies) ≡ true
    unfolding record_decisions
    chain_valid-record_decisions old [] valid h = valid
    chain_valid-record_decisions old (b ∷ bodies) valid h =
        let next = old ++ linked (last_hash (last_demo_hash demo) old) b ∷ [] in
        let size : length next ≡ length old + 1 =
          omega
            (arith, length-append {0} old (linked (last_hash (last_demo_hash demo) old) b ∷ [])) in
        let kept : record_decision demo old b ≡ next =
          unfold record_decision keep_recent in ground (arith, h, size) in
        rw kept (
          chain_valid-record_decisions next bodies (chain_valid-snoc old b valid)
            (omega (arith, h, size)))

    dropped :
        (b c : Body) (bs : List Body) (r : PublicDecision Body) (h : String)
        → length (b ∷ c ∷ bs) ≡ max_recent
        → keep_recent demo (link h (b ∷ c ∷ bs) ++ r ∷ []) ≡ link (digest b h) (c ∷ bs) ++ r ∷ []
    unfolding keep_recent link
    dropped b c bs r h n =
        let all = link (digest c (digest b h)) bs in
        let size : length (all ++ r ∷ []) ≡ 49 =
          omega (arith, length-append {0} all (r ∷ []), length-link (digest c (digest b h)) bs) in
        rw size refl

    -- The fifty-first decision breaks the chain: the first recorded decision is dropped, and the next
    -- one does not link to the seeded records that it now follows, unless the dropped record's hash
    -- is that of the last seeded record.
    pub chain_broken :
        (b c : Body) (bs : List Body) (x : Body)
        → length (b ∷ c ∷ bs) ≡ max_recent
        → digest b (last_demo_hash demo) ≢ last_demo_hash demo
        → chain_valid demo (record_decision demo (record_decisions demo [] (b ∷ c ∷ bs)) x) ≡ false
    unfolding chain_valid record_decision
    chain_broken b c bs x n fresh =
        let whole : record_decisions demo [] (b ∷ c ∷ bs)
            ≡ link (last_demo_hash demo) (b ∷ c ∷ bs) =
          unfold link in record_decisions-link [] (b ∷ c ∷ bs) (omega arith) in
        let unlinked : str_eq (digest b (last_demo_hash demo)) (last_demo_hash demo) ≡ false =
          ground (arith, eq_iff (digest b (last_demo_hash demo)) (last_demo_hash demo), fresh) in
        rw (whole, dropped, verify-append)
          (unfold last_demo_hash verify_chain link in rw unlinked refl)
