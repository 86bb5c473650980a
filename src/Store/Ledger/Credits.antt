-- ===== src/Store/Ledger/Credits.antt =====
-- What a history of AddCredit calls does to the balances.
use shared_compute.Common.{
  ◌<◌, ◌≡◌, ◌∙◌, refl, String, Bool, true, false, not, ◌&&◌, ◌||◌, List, [], ◌∷◌, ◌++◌, str_eq,
  eq_iff, if◌then◌else◌, arith,
}
use shared_compute.Common.Int64.{Int64, add64, modulus}
use shared_compute.Common.Dict
use shared_compute.Common.Dict.{StringSet, get-put}
use shared_compute.Store.{Mem, new_mem}
use shared_compute.Store.Ledger.{or_zero, seen, credit_balance, Credit, add_credit}

-- A top-up that carries a Stripe reference, and a debit that carries a job.
abbrev pub is_topup : Credit → Bool
is_topup c = str_eq c.reason "topup" && not (str_eq c.stripe_ref "")

abbrev pub is_debit : Credit → Bool
is_debit c = str_eq c.reason "debit" && not (str_eq c.job_id "")

-- The later call asks for the same top-up or the same debit.
abbrev pub repeats : Credit → Credit → Bool
repeats c d =
    (is_topup c && is_topup d && str_eq c.stripe_ref d.stripe_ref)
    || (is_debit c && is_debit d && str_eq c.job_id d.job_id)

abbrev pub any_repeats : List Credit → Credit → Bool
any_repeats [] d = false
any_repeats (c ∷ cs) d = repeats c d || any_repeats cs d

unfoldable pub add_credits : List Credit → Mem → Mem
add_credits [] m = m
add_credits (c ∷ cs) m = add_credits cs (add_credit c m)

pub add_credits-append :
    (cs ds : List Credit) (m : Mem) → add_credits (cs ++ ds) m ≡ add_credits ds (add_credits cs m)
unfolding add_credits
add_credits-append [] ds m = refl
add_credits-append (c ∷ cs) ds m = add_credits-append cs ds (add_credit c m)

-- The sum, modulo 2 ^ 64, of the deltas for `key` in `cs`, where a call counts that repeats no
-- earlier one; `past` holds the calls before `cs`.
unfoldable pub total : String → List Credit → List Credit → Int64
total key past [] = 0
total key past (c ∷ cs) =
    let rest = total key (c ∷ past) cs in
    if str_eq c.key_id key && not (any_repeats past c) then add64 c.delta_micros rest else rest

total-lt : (key : String) (past cs : List Credit) → total key past cs < modulus
unfolding total
total-lt key past [] = omega arith
total-lt key past (c ∷ cs) = ground (arith, total-lt key (c ∷ past) cs)

-- The sets hold the references and the jobs of the past calls.
record Remembers (past : List Credit) (m : Mem) : Type 0 where
  agrees :
      (d : Credit)
      → ((is_topup d && seen m.topup_refs d.stripe_ref)
          || (is_debit d && seen m.debit_jobs d.job_id))
        ≡ any_repeats past d

-- top-up and debit exclude each other
topup-ne-debit : (reason : String) → str_eq reason "topup" ≡ true → str_eq reason "debit" ≡ false
topup-ne-debit reason h = let e = (eq_iff reason "topup").0 h in rw e refl

-- One call: the balance of its key moves by the delta unless it repeats a past call.
balance-add_credit :
    (past : List Credit) (c : Credit) (m : Mem) (key : String)
    → Remembers past m
    → credit_balance (add_credit c m) key ≡ (
        if str_eq c.key_id key && not (any_repeats past c)
        then add64 (credit_balance m key) c.delta_micros
        else credit_balance m key)
unfolding credit_balance add_credit
balance-add_credit past c m key r = ground (
  arith,
  r.agrees c,
  topup-ne-debit c.reason,
  get-put m.credits c.key_id key (add64 (or_zero (Dict.get m.credits c.key_id)) c.delta_micros),
  eq_iff c.key_id key,
)

-- A call that is neither a top-up nor a debit moves the balance of its key.
pub balance-plain :
    (c : Credit) (m : Mem) (key : String)
    → str_eq c.reason "topup" ≡ false
    → str_eq c.reason "debit" ≡ false
    → credit_balance (add_credit c m) key ≡ (
        if str_eq c.key_id key
        then add64 (credit_balance m key) c.delta_micros
        else credit_balance m key)
unfolding credit_balance add_credit
balance-plain c m key t d = ground (
  arith,
  t,
  d,
  get-put m.credits c.key_id key (add64 (or_zero (Dict.get m.credits c.key_id)) c.delta_micros),
  eq_iff c.key_id key,
)

Remembers-add_credit :
    (past : List Credit) (c : Credit) (m : Mem)
    → Remembers past m
    → Remembers (c ∷ past) (add_credit c m)
unfolding add_credit
Remembers-add_credit past c m r = record {
  agrees = λ d. ground (
    arith,
    r.agrees c,
    r.agrees d,
    topup-ne-debit c.reason,
    topup-ne-debit d.reason,
    get-put m.topup_refs c.stripe_ref d.stripe_ref tt,
    get-put m.debit_jobs c.job_id d.job_id tt,
    eq_iff c.stripe_ref d.stripe_ref,
    eq_iff c.job_id d.job_id,
  );
}

balance-add_credits :
    (past cs : List Credit) (m : Mem) (key : String)
    → Remembers past m
    → credit_balance m key < modulus
    → credit_balance (add_credits cs m) key ≡ add64 (credit_balance m key) (total key past cs)
unfolding add_credits total
balance-add_credits past [] m key r h = omega arith
balance-add_credits past (c ∷ cs) m key r h =
    let one = balance-add_credit past c m key r in
    let word : credit_balance (add_credit c m) key < modulus = ground (arith, one) in
    balance-add_credits (c ∷ past) cs (add_credit c m) key (Remembers-add_credit past c m r) word
    ∙ ground (arith, one)

Remembers-new_mem :
    (key_id : String → String) (keys tokens : List String)
    → Remembers [] (new_mem key_id keys tokens)
unfolding new_mem Dict.get
Remembers-new_mem key_id keys tokens = record { agrees = λ d. ground arith }

-- From a new store, whatever calls of AddCredit are made, a key's balance is the sum modulo 2 ^ 64
-- of the deltas given for it, where a top-up that repeats the Stripe reference of an earlier one
-- counts nothing, and so for a debit that repeats the job of an earlier one.
pub balance-new_mem :
    (key_id : String → String) (keys tokens : List String) (cs : List Credit) (key : String)
    → credit_balance (add_credits cs (new_mem key_id keys tokens)) key ≡ total key [] cs
balance-new_mem key_id keys tokens cs key =
    balance-add_credits [] cs (new_mem key_id keys tokens) key
      (Remembers-new_mem key_id keys tokens) (unfold new_mem credit_balance Dict.get in omega arith)
    ∙ unfold new_mem credit_balance Dict.get in omega (arith, total-lt key [] cs)

-- The first debit of a job moves the balance of its key.
pub balance-first_debit :
    (c : Credit) (m : Mem) (key : String)
    → str_eq c.reason "topup" ≡ false
    → seen m.debit_jobs c.job_id ≡ false
    → credit_balance (add_credit c m) key ≡ (
        if str_eq c.key_id key
        then add64 (credit_balance m key) c.delta_micros
        else credit_balance m key)
unfolding credit_balance add_credit
balance-first_debit c m key t s = ground (
  arith,
  t,
  s,
  get-put m.credits c.key_id key (add64 (or_zero (Dict.get m.credits c.key_id)) c.delta_micros),
  eq_iff c.key_id key,
)
