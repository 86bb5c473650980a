-- ===== src/Store.antt =====
-- coordinator/internal/store/store.go, the rows, and coordinator/internal/store/memory.go, the
-- in-memory store. A method takes the store and returns the one that it leaves; the lock makes each
-- a single step. Clock readings and random tokens are arguments. The benchmark rows, whose fields
-- are floats, are left out.
pub mod Keys
pub mod Ledger
pub mod Rows
mod Tests
use shared_compute.Common.{ℕ, String, Bool, Option, List, [], ◌∷◌, map}
use shared_compute.Common.Int64.{Int64}
use shared_compute.Common.Dict
use shared_compute.Common.Dict.{Dict, StringSet}

pub record UsageEvent : Type 0 where
  pub key_id : String
  pub provider_id : String
  pub model : String
  pub tier : String
  pub prompt_tokens : Int64
  pub completion_tokens : Int64
  pub duration_ms : Int64
  pub finish_reason : String
  pub created_at : ℕ

pub record ProviderRecord : Type 0 where
  pub provider_id : String
  pub static_pk : String
  pub platform : String
  pub arch : String
  pub backend : String
  pub last_seen : ℕ

pub record KeyInfo : Type 0 where
  pub id : String
  pub label : String
  pub disabled : Bool
  pub created_at : ℕ

pub record UsageRow : Type 0 where
  pub key_id : String
  pub model : String
  pub requests : Int64
  pub prompt_tokens : Int64
  pub completion_tokens : Int64

pub record EarningEvent : Type 0 where
  pub job_id : String
  pub provider_id : String
  pub static_pk : String
  pub key_id : String
  pub model : String
  pub model_class : String
  pub tier : String
  pub gross_micros : Int64
  pub provider_micros : Int64
  pub created_at : ℕ

pub record ProviderAccrual : Type 0 where
  pub static_pk : String
  pub jobs : Int64
  pub owed_micros : Int64

pub record PayoutAccount : Type 0 where
  pub static_pk : String
  pub stripe_account : String
  pub status : String

pub record PayoutRecord : Type 0 where
  pub static_pk : String
  pub stripe_account : String
  pub amount_micros : Int64
  pub stripe_transfer : String
  pub state : String
  pub remainder_micros : Int64

pub record EarningRow : Type 0 where
  pub provider_id : String
  pub jobs : Int64
  pub gross_micros : Int64
  pub provider_micros : Int64

pub record WaitlistEntry : Type 0 where
  pub email : String
  pub interest : String
  pub note : String
  pub ip_hash : String
  pub created_at : ℕ

pub record FeedbackReply : Type 0 where
  pub id : Int64
  pub feedback_id : Int64
  pub author : String
  pub body : String
  pub created_at : ℕ

pub record FeedbackEntry : Type 0 where
  pub id : Int64
  pub kind : String
  pub email : String
  pub device : String
  pub message : String
  pub app : String
  pub version : String
  pub user_id : String
  pub ip_hash : String
  pub created_at : ℕ
  pub replies : List FeedbackReply

pub record WorkloadRun : Type 0 where
  pub id : String
  pub key_id : String
  pub workload_id : String
  pub model : String
  pub status : String
  pub total_items : Int64
  pub done_items : Int64
  pub ok_items : Int64
  pub failed_items : Int64
  pub quoted_micros : Int64
  pub charged_micros : Int64
  pub prompt_tokens : Int64
  pub completion_tokens : Int64
  pub wall_ms : Int64
  pub fanout : Int64
  pub webhook_url : String
  pub webhook_state : String
  pub label : String
  pub error : String
  pub created_at : ℕ
  pub started_at : Option ℕ
  pub finished_at : Option ℕ

pub record Proposal : Type 0 where
  pub name : String
  pub email : String
  pub title : String
  pub summary : String
  pub link : String
  pub ip_hash : String
  pub created_at : ℕ

pub record Mem : Type 0 where
  pub keys : Dict String
  pub key_info : Dict KeyInfo
  pub tokens : StringSet
  pub raw_by_id : Dict String
  pub providers : Dict ProviderRecord
  pub usage_rows : List UsageRow
  pub earning_rows : List EarningRow
  pub earning_events : StringSet
  pub waitlist : List WaitlistEntry
  pub feedback : List FeedbackEntry
  pub runs : Dict WorkloadRun
  pub proposals : List Proposal
  pub credits : Dict Int64
  pub topup_refs : StringSet
  pub debit_jobs : StringSet
  pub payout_accts : Dict PayoutAccount
  pub accrued : Dict ProviderAccrual
  pub next_payout : Int64
  pub usage : Int64

put_keys : (String → String) → List String → Dict String → Dict String
put_keys key_id [] keys = keys
put_keys key_id (k ∷ ks) keys = put_keys key_id ks (Dict.put keys k (key_id k))

put_tokens : List String → StringSet → StringSet
put_tokens [] tokens = tokens
put_tokens (t ∷ ts) tokens = put_tokens ts (Dict.put tokens t tt)

-- `key_id` is keyID, the shortened SHA-256 of a raw key.
unfoldable pub new_mem : (String → String) → List String → List String → Mem
unfolding put_keys put_tokens
new_mem key_id consumer_keys provider_tokens = record {
  keys = put_keys key_id consumer_keys [];
  key_info = [];
  tokens = put_tokens provider_tokens [];
  raw_by_id = [];
  providers = [];
  usage_rows = [];
  earning_rows = [];
  earning_events = [];
  waitlist = [];
  feedback = [];
  runs = [];
  proposals = [];
  credits = [];
  topup_refs = [];
  debit_jobs = [];
  payout_accts = [];
  accrued = [];
  next_payout = 0;
  usage = 0;
}
