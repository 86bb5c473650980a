-- ===== src/Relay/Frames.antt =====
-- When a frame of the provider is taken as the next chunk of a job.
use mathlib.Core.List.{append-nil}
use shared_compute.Common.{
  ◌≡◌, ◌⊎◌, inl, inr, refl, String, true, false, not, ◌&&◌, ◌||◌, some, List, [], ◌∷◌, ◌++◌, str_eq,
  ◌==◌, if◌then◌else◌, Bool-cases, Option-cases, arith,
}
use shared_compute.Common.Int64.{Int64, add64, lt64, le64}
use shared_compute.Crypto
use shared_compute.Crypto.{Library}
use shared_compute.Jobs.{chunk}
use shared_compute.Relay.{
  JobChunk, ChunkPlaintext, Codec, Job, Failure, failed, Signal, State, Next, goes, stops, event,
  cancel, forward, over_ceiling, read_chunk, open_chunk, decode_chunk, on_event, on_signal,
  write_failed, bad_chunk, decrypt, bad_plaintext, invalid_result,
}

abbrev pub chunk_signal : String → Signal
chunk_signal raw = event (record { kind = chunk; raw = raw })

-- The deltas that are passed on for a delta: an empty one is not.
abbrev pub delta_of : String → List String
delta_of d = if str_eq d "" then [] else d ∷ []

module _ (lib : Library) (codec : Codec lib) (job : Job lib) where
  -- The frame is a sealed chunk of the job with sequence number `n`, within the token ceiling.
  pub record IsChunk (raw : String) (n : Int64) (cp : ChunkPlaintext) : Type 0 where
    pub jc : JobChunk
    pub plain : lib.Bytes
    pub decoded : codec.chunk_of raw ≡ some jc
    pub opened : Crypto.open_sealed lib jc.sealed job.static_pk job.secret ≡ some plain
    pub read : codec.plaintext_of plain ≡ some cp
    pub frame_job : str_eq jc.job_id job.job_id ≡ true
    pub plain_job : str_eq cp.job_id job.job_id ≡ true
    pub in_order : cp.seq ≡ n
    pub within : (lt64 0 job.max_tokens && le64 job.max_tokens n) ≡ false

  -- The frames are the job's chunks in order from number `n`, and `ds` are their deltas.
  abbrev pub IsStream : Int64 → List String → List String → Type 0
  IsStream n [] ds = ds ≡ []
  IsStream n (raw ∷ raws) ds =
      (cp : ChunkPlaintext) × IsChunk raw n cp
      × (rest : List String) × IsStream (add64 n 1) raws rest
      × (ds ≡ delta_of cp.delta ++ rest)

  abbrev pub advance : ChunkPlaintext → State → State
  advance cp s = record s {
    expected_seq = add64 s.expected_seq 1;
    deltas = s.deltas ++ delta_of cp.delta;
  }

  -- A chunk is taken as the next of the stream, or ends the loop with the deltas as they were.
  abbrev pub Takes : String → State → Next → Type 0
  Takes raw s r =
      ((cp : ChunkPlaintext) × IsChunk raw s.expected_seq cp × (r ≡ goes (advance cp s)))
      ⊎ ((t : State) × (f : Failure) × (r ≡ stops t (failed f)) × (t.deltas ≡ s.deltas))

  forward_cases :
      (raw : String) (s : State) (cp : ChunkPlaintext)
      → IsChunk raw s.expected_seq cp
      → Takes raw s
          (forward lib codec job cp.delta (record s { expected_seq = add64 s.expected_seq 1 }))
  unfolding forward
  forward_cases raw s cp c = elim (Bool-cases (str_eq cp.delta "")) [
    | inl e ↦ inl (cp, c, rw (e, append-nil) refl)
    | inr e ↦ elim (Bool-cases (job.accepts s.deltas cp.delta)) [
      | inl a ↦ inl (cp, c, rw (e, a) refl)
      | inr a ↦ inr (
        cancel "client-disconnect" (record s { expected_seq = add64 s.expected_seq 1 }),
        write_failed,
        rw (e, a) refl,
        refl,
      )
    ]
  ]

  pub take_cases :
      (raw : String) (s : State) → Takes raw s (on_signal lib codec job (chunk_signal raw) s)
  unfolding on_signal on_event
  take_cases raw s = elim (Option-cases (codec.chunk_of raw)) [
    | inl e ↦ inr (s, bad_chunk, rw (e, decode_chunk) refl, refl)
    | inr (jc, e) ↦
        elim (Option-cases (Crypto.open_sealed lib jc.sealed job.static_pk job.secret)) [
          | inl f ↦
              inr (cancel "superseded" s, decrypt, rw (e, decode_chunk, f, open_chunk) refl, refl)
          | inr (plain, f) ↦ elim (Option-cases (codec.plaintext_of plain)) [
            | inl g ↦
                inr
                  (s, bad_plaintext, rw (e, decode_chunk, f, open_chunk, g, read_chunk) refl, refl)
            | inr (cp, g) ↦
                elim (Bool-cases (
                  not (str_eq jc.job_id job.job_id)
                  || (not (str_eq cp.job_id job.job_id)
                      || (not (cp.seq == s.expected_seq) || over_ceiling lib codec job s)))) [
                        | inl bad ↦ inr (
                          cancel "invalid-result" s,
                          invalid_result,
                          rw (e, decode_chunk, f, open_chunk, g, read_chunk, bad) refl,
                          refl,
                        )
                        | inr ok ↦
                            rw (e, decode_chunk, f, open_chunk, g, read_chunk, ok)
                              (forward_cases raw s cp (record {
                                jc = jc;
                                plain = plain;
                                decoded = e;
                                opened = f;
                                read = g;
                                frame_job = ground (arith, ok);
                                plain_job = ground (arith, ok);
                                in_order = ground (arith, ok);
                                within = ground (arith, ok);
                              }))
                      ]
          ]
        ]
  ]
