-- ===== src/Relay/Serves.antt =====
-- What the loop of ExecuteOn owes an honest provider, the token ceiling and the cancels.
use mathlib.Core.List.{append-nil, append_assoc}
use shared_compute.Common.{
  suc, ◌+◌, ◌%◌, ◌≤◌, ◌<◌, ◌≡◌, ap, refl, ◌∙◌, String, true, List, [], ◌∷◌, ◌++◌, map, length,
  arith,
}
use shared_compute.Common.Int64.{Int64, add64, lt64, modulus}
use shared_compute.Jobs.{done}
use shared_compute.Crypto.{Library}
use shared_compute.Relay.{
  start, ChunkPlaintext, JobDone, Codec, Job, Result, finished, Signal, State, goes, event, forward,
  read_chunk, open_chunk, decode_chunk, result, finish, on_event, on_signal, after, loop,
}
use shared_compute.Relay.Frames.{IsChunk, IsStream, chunk_signal, delta_of}
use shared_compute.Relay.Stream.{loop-Accounted, IsDone}

module _ (lib : Library) (codec : Codec lib) (job : Job lib) where
  -- Under a positive ceiling a stream is no longer than what the ceiling leaves.
  length-IsStream-le :
      (n : Int64) (raws ds : List String)
      → lt64 0 job.max_tokens ≡ true
      → job.max_tokens < modulus
      → n ≤ job.max_tokens
      → IsStream lib codec job n raws ds
      → n + length raws ≤ job.max_tokens
  length-IsStream-le n [] ds p w h s = omega (arith, h)
  length-IsStream-le n (raw ∷ raws) ds p w h (cp, c, rest, s, e) =
      let below : suc n ≤ job.max_tokens = ground (arith, c.within) in
      let next : add64 n 1 ≡ suc n = ground arith in
      let bound = length-IsStream-le (add64 n 1) raws rest p w (ground arith) s in
      ground (arith, bound, next)

  abbrev Accepting : Type 0
  Accepting = (past : List String) (d : String) → job.accepts past d ≡ true

  take_honest :
      (raw : String) (s : State) (cp : ChunkPlaintext)
      → Accepting
      → IsChunk lib codec job raw s.expected_seq cp
      → on_signal lib codec job (chunk_signal raw) s
        ≡ goes (record s {
          expected_seq = add64 s.expected_seq 1;
          deltas = s.deltas ++ delta_of cp.delta;
        })
  unfolding on_signal on_event forward
  take_honest raw s cp a c =
      rw
        (
          c.decoded, decode_chunk, c.opened, open_chunk, c.read, read_chunk, c.frame_job,
          c.plain_job, c.within,
        )
        (ground (arith, c.in_order, a s.deltas cp.delta, append-nil s.deltas))

  -- A stream of the job's chunks in order, whose deltas the client takes, is passed on in full: the
  -- loop goes on after it with the count and the deltas of the stream added.
  pub loop-stream :
      (raws ds : List String) (later : List Signal) (s : State)
      → ((past : List String) (d : String) → job.accepts past d ≡ true)
      → s.expected_seq < modulus
      → IsStream lib codec job s.expected_seq raws ds
      → loop lib codec job (map chunk_signal raws ++ later) s
        ≡ loop lib codec job later (record s {
          expected_seq = (s.expected_seq + length raws) % modulus;
          deltas = s.deltas ++ ds;
        })
  unfolding loop
  loop-stream [] ds later s a w e =
      let n : (s.expected_seq + 0) % modulus ≡ s.expected_seq = omega arith in
      rw (n, e, append-nil) refl
  loop-stream (raw ∷ raws) ds later s a w (cp, c, rest, stream, e) =
      let t : State = record s {
        expected_seq = add64 s.expected_seq 1;
        deltas = s.deltas ++ delta_of cp.delta;
      } in
      let n : (add64 s.expected_seq 1 + length raws) % modulus
          ≡ (s.expected_seq + length (raw ∷ raws)) % modulus =
        omega arith in
      let more = loop-stream raws rest later t a (omega arith) stream in
      rw (take_honest raw s cp a c, after, more, n, append_assoc, e) refl

  -- An honest provider is served: a stream of the job's chunks from number 0 and then a valid
  -- job_done gives a client that takes every delta all of them in order and returns the result with
  -- the count of the chunks modulo 2 ^ 64, whatever signals come later, and the provider is sent no
  -- cancel.
  pub loop-honest :
      (raws ds : List String) (last : String) (jd : JobDone) (later : List Signal)
      → ((past : List String) (d : String) → job.accepts past d ≡ true)
      → IsStream lib codec job 0 raws ds
      → IsDone lib codec job last jd
      → loop lib codec job
          (map chunk_signal raws ++ event (record { kind = done; raw = last }) ∷ later)
          start
        ≡ (
          record { expected_seq = length raws % modulus; deltas = ds; cancels = [] },
          finished (result lib codec job jd (length raws % modulus)),
        )
  unfolding loop on_signal on_event
  loop-honest raws ds last jd later a stream d =
      loop-stream raws ds (event (record { kind = done; raw = last }) ∷ later) start a (omega arith)
        stream
      ∙ (let n : start.expected_seq + length raws ≡ length raws = omega arith in
          rw (d.read_done, finish, d.done_job, d.not_negative, d.below_ceiling, n) refl)

  -- A job with a positive token ceiling, a 64-bit number, never returns a result with more
  -- completion tokens, whatever the provider sends.
  pub completion-le :
      (sigs : List Signal) (res : Result)
      → lt64 0 job.max_tokens ≡ true
      → job.max_tokens < modulus
      → (loop lib codec job sigs start).1 ≡ finished res
      → res.usage.completion_tokens ≤ job.max_tokens
  completion-le sigs res p w h =
      let (raws, ds, rest, split, stream, passed, completes) =
        loop-Accounted lib codec job sigs start (omega arith) in
      let (last, jd, later, e, d, r) = completes res h in
      let bound = length-IsStream-le 0 raws ds p w (omega arith) stream in
      let n : res.usage.completion_tokens ≡ (0 + length raws) % modulus =
        ap (λ (x : Result). x.usage.completion_tokens) r in
      omega (arith, bound, n)
