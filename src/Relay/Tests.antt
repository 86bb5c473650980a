-- ===== src/Relay/Tests.antt =====
-- A job with two chunks, and the theorems of the relay at it.
use shared_compute.Common.{
  ap, ◌≡◌, refl, String, true, some, List, [], ◌∷◌, ◌++◌, map, str_eq, if◌then◌else◌, arith,
}
use shared_compute.Crypto.{SealedPayload, seal_alg, open_sealed}
use shared_compute.Crypto.Tests.{plain_library}
use shared_compute.Jobs.{done}
use shared_compute.Relay.{
  ChunkPlaintext, JobDone, Codec, Job, Outcome, finished, Signal, State, event, cancelled, start,
  loop, result, prompt_units,
}
use shared_compute.Relay.Frames.{IsChunk, IsStream, chunk_signal}
use shared_compute.Relay.Stream.{IsDone, Accounted, loop-Accounted}
use shared_compute.Relay.Serves.{loop-honest}

abbrev payload : String → SealedPayload
payload text = record { alg = seal_alg; epk = ""; nonce = ""; ciphertext = text }

abbrev plaintext : String → ChunkPlaintext
plaintext s =
    if str_eq s "0"
    then record { job_id = "j"; seq = 0; delta = "he" }
    else record { job_id = "j"; seq = 1; delta = "llo" }

abbrev last_frame : JobDone
last_frame = record {
  job_id = "j";
  usage = record { prompt_tokens = 7; completion_tokens = 99; total_tokens = 106 };
  finish_reason = "stop";
}

abbrev pub codec : Codec plain_library
codec = record {
  chunk_of = λ raw. some (record { job_id = "j"; sealed = payload raw });
  plaintext_of = λ b. some (plaintext b);
  done_of = λ raw. some last_frame;
  error_code_of = λ raw. raw;
  byte_length = λ s. 4;
}

abbrev job : Job plain_library
job = record {
  job_id = "j";
  messages = record { role = "user"; content = "hey?" } ∷ [];
  max_tokens = 2;
  static_pk = "pk";
  secret = "secret";
  provider_id = "p";
  trust_tier = "community";
  accepts = λ past d. true;
}

abbrev signals : List Signal
signals =
    map chunk_signal ("0" ∷ "1" ∷ []) ++ event (record { kind = done; raw = "d" }) ∷ cancelled ∷ []

zero_IsChunk : IsChunk plain_library codec job "0" 0 (plaintext "0")
unfolding open_sealed
zero_IsChunk = record {
  jc = record { job_id = "j"; sealed = payload "0" };
  plain = "0";
  decoded = refl;
  opened = refl;
  read = refl;
  frame_job = refl;
  plain_job = refl;
  in_order = refl;
  within = refl;
}

one_IsChunk : IsChunk plain_library codec job "1" 1 (plaintext "1")
unfolding open_sealed
one_IsChunk = record {
  jc = record { job_id = "j"; sealed = payload "1" };
  plain = "1";
  decoded = refl;
  opened = refl;
  read = refl;
  frame_job = refl;
  plain_job = refl;
  in_order = refl;
  within = refl;
}

two_chunks : IsStream plain_library codec job 0 ("0" ∷ "1" ∷ []) ("he" ∷ "llo" ∷ [])
two_chunks =
    (plaintext "0", zero_IsChunk, "llo" ∷ [], (plaintext "1", one_IsChunk, [], refl, refl), refl)

last_IsDone : IsDone plain_library codec job "d" last_frame
unfolding prompt_units
last_IsDone = record {
  read_done = refl;
  done_job = refl;
  not_negative = refl;
  below_ceiling = refl;
}

loop-Accounted_example :
    Accounted plain_library codec job signals start (loop plain_library codec job signals start)
loop-Accounted_example = loop-Accounted plain_library codec job signals start (omega arith)

loop-honest_example : loop plain_library codec job signals start ≡ (
  record { expected_seq = 2; deltas = "he" ∷ "llo" ∷ []; cancels = [] },
  finished (result plain_library codec job last_frame 2),
)
loop-honest_example =
    loop-honest plain_library codec job ("0" ∷ "1" ∷ []) ("he" ∷ "llo" ∷ []) "d" last_frame
      (cancelled ∷ []) (λ past d. refl) two_chunks last_IsDone

returned :
    (loop plain_library codec job signals start).1
    ≡ finished (result plain_library codec job last_frame 2)
returned =
    ap (λ (r : State × Outcome). r.1)
      (loop-honest plain_library codec job ("0" ∷ "1" ∷ []) ("he" ∷ "llo" ∷ []) "d" last_frame
        (cancelled ∷ []) (λ past d. refl) two_chunks last_IsDone)
