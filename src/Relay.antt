-- ===== src/Relay.antt =====
-- coordinator/internal/relay/relay.go: the loop of ExecuteOn over what its select receives, with
-- the frames of coordinator/internal/protocol/protocol.go that it reads. Which case of the select
-- comes next is the order of the list of signals. JSON, the length of a string in bytes and the
-- caller's callback are parameters; the frames that the code sends are recorded.
pub mod Frames
pub mod Stream
pub mod Serves
pub mod Dispatch
pub mod Tests
use shared_compute.Common.{
  ℕ, ◌+◌, String, Bool, true, false, not, ◌&&◌, ◌||◌, Option, none, some, List, [], ◌∷◌, ◌++◌,
  str_eq, ◌==◌, if◌then◌else◌,
}
use shared_compute.Common.Int64.{Int64, add64, lt64, le64, is_neg}
use shared_compute.Crypto
use shared_compute.Crypto.{SealedPayload, Library}
use shared_compute.Jobs
use shared_compute.Jobs.{chunk, done, error}

pub record Usage : Type 0 where
  pub prompt_tokens : Int64
  pub completion_tokens : Int64
  pub total_tokens : Int64

pub record JobChunk : Type 0 where
  pub job_id : String
  pub sealed : SealedPayload

pub record ChunkPlaintext : Type 0 where
  pub job_id : String
  pub seq : Int64
  pub delta : String

pub record JobDone : Type 0 where
  pub job_id : String
  pub usage : Usage
  pub finish_reason : String

pub record ChatMessage : Type 0 where
  pub role : String
  pub content : String

-- `none` is an error of json.Unmarshal; of a job_error only its code is used, and errors are ignored.
pub record Codec (lib : Library) : Type 0 where
  pub chunk_of : String → Option JobChunk
  pub plaintext_of : lib.Bytes → Option ChunkPlaintext
  pub done_of : String → Option JobDone
  pub error_code_of : String → String
  pub byte_length : String → ℕ

-- What one job has fixed before the loop; `static_pk` is the provider's, `secret` the ephemeral key.
-- `accepts` says whether onDelta returns nil on a delta after those it has taken.
pub record Job (lib : Library) : Type 0 where
  pub job_id : String
  pub messages : List ChatMessage
  pub max_tokens : Int64
  pub static_pk : lib.Bytes
  pub secret : lib.Bytes
  pub provider_id : String
  pub trust_tier : String
  pub accepts : List String → String → Bool

pub record Result : Type 0 where
  pub usage : Usage
  pub finish_reason : String
  pub provider_id : String
  pub provider_pk : String
  pub trust_tier : String
  pub job_id : String

pub data Failure : Type 0 where
  context_done deadline provider_gone bad_chunk decrypt bad_plaintext : Failure
  invalid_result write_failed bad_done : Failure
  provider_error : String → Failure

-- `waiting` is a loop that no signal has ended.
pub data Outcome : Type 0 where
  waiting : Outcome
  finished : Result → Outcome
  failed : Failure → Outcome

-- ctx.Done, the deadline's timer, the closed channel, and an event of it.
pub data Signal : Type 0 where
  cancelled expired drained : Signal
  event : Jobs.Event → Signal

-- The variables of the loop: the sequence number, the deltas that onDelta took, and the reasons of
-- the cancels that were sent to the provider.
pub record State : Type 0 where
  pub expected_seq : Int64
  pub deltas : List String
  pub cancels : List String

pub data Next : Type 0 where
  goes : State → Next
  stops : State → Outcome → Next

abbrev pub cancel : String → State → State
cancel reason s = record s { cancels = s.cancels ++ reason ∷ [] }

abbrev pub start : State
start = record { expected_seq = 0; deltas = []; cancels = [] }

module _ (lib : Library) (codec : Codec lib) (job : Job lib) where
  -- maxPromptUnits after the messages, from `n`.
  pub prompt_units : Int64 → List ChatMessage → Int64
  prompt_units n [] = n
  prompt_units n (m ∷ ms) =
      prompt_units
        (add64 n (add64 (add64 (codec.byte_length m.role) (codec.byte_length m.content)) 16)) ms

  pub forward : String → State → Next
  forward delta s =
      if str_eq delta ""
      then goes s
      else if job.accepts s.deltas delta
      then goes (record s { deltas = s.deltas ++ delta ∷ [] })
      else stops (cancel "client-disconnect" s) (failed write_failed)

  abbrev pub over_ceiling : State → Bool
  over_ceiling s = lt64 0 job.max_tokens && le64 job.max_tokens s.expected_seq

  pub read_chunk : JobChunk → Option ChunkPlaintext → State → Next
  unfolding forward
  read_chunk jc none s = stops s (failed bad_plaintext)
  read_chunk jc (some cp) s =
      if not (str_eq jc.job_id job.job_id)
        || (not (str_eq cp.job_id job.job_id) || (not (cp.seq == s.expected_seq) || over_ceiling s))
      then stops (cancel "invalid-result" s) (failed invalid_result)
      else forward cp.delta (record s { expected_seq = add64 s.expected_seq 1 })

  pub open_chunk : JobChunk → Option lib.Bytes → State → Next
  unfolding read_chunk
  open_chunk jc none s = stops (cancel "superseded" s) (failed decrypt)
  open_chunk jc (some plain) s = read_chunk jc (codec.plaintext_of plain) s

  pub decode_chunk : Option JobChunk → State → Next
  unfolding open_chunk
  decode_chunk none s = stops s (failed bad_chunk)
  decode_chunk (some jc) s =
      open_chunk jc (Crypto.open_sealed lib jc.sealed job.static_pk job.secret) s

  abbrev pub result : JobDone → Int64 → Result
  result jd n = record {
    usage = record {
      prompt_tokens = jd.usage.prompt_tokens;
      completion_tokens = n;
      total_tokens = add64 jd.usage.prompt_tokens n;
    };
    finish_reason = jd.finish_reason;
    provider_id = job.provider_id;
    provider_pk = lib.encode job.static_pk;
    trust_tier = job.trust_tier;
    job_id = job.job_id;
  }

  pub finish : Option JobDone → State → Outcome
  unfolding prompt_units
  finish none s = failed bad_done
  finish (some jd) s =
      if not (str_eq jd.job_id job.job_id)
        || (is_neg jd.usage.prompt_tokens
            || lt64 (prompt_units 0 job.messages) jd.usage.prompt_tokens)
      then failed invalid_result
      else finished (result jd s.expected_seq)

  pub on_event : Jobs.Kind → String → State → Next
  unfolding decode_chunk finish
  on_event chunk raw s = decode_chunk (codec.chunk_of raw) s
  on_event done raw s = stops s (finish (codec.done_of raw) s)
  on_event error raw s = stops s (failed (provider_error (codec.error_code_of raw)))

  pub on_signal : Signal → State → Next
  unfolding on_event
  on_signal cancelled s = stops (cancel "client-disconnect" s) (failed context_done)
  on_signal expired s = stops (cancel "deadline" s) (failed deadline)
  on_signal drained s = stops s (failed provider_gone)
  on_signal (event ev) s = on_event ev.kind ev.raw s

  pub after : (State → State × Outcome) → Next → State × Outcome
  after rest (goes s) = rest s
  after rest (stops s o) = (s, o)

  pub loop : List Signal → State → State × Outcome
  unfolding on_signal after
  loop [] s = (s, waiting)
  loop (x ∷ xs) s = after (λ t. loop xs t) (on_signal x s)
