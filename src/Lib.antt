-- ===== src/Lib.antt =====
-- Verification library of the coordinator of shared-compute, the Go program under coordinator/,
-- which connects consumers of inference with the providers that serve models. Paths below are
-- from the repository's root.
--
-- The program. Providers connect over WebSockets (wshub) and stand in the registry with their
-- capabilities, telemetry and a counter of running jobs. A request for a model goes to the
-- scheduler, which ranks the providers that can serve it; the relay registers a job with the jobs
-- manager, sends the sealed request and reads the frames that the provider returns through the
-- job's channel. A batch spreads its items over providers. The Council votes on workloads and
-- publishes its decisions as a hash chain. Usage, credits, earnings and payouts go to the store; a
-- marketplace quote is stored, then accepted at most once; operational events go to a bounded ring
-- that the admin console reads.
--
-- The files.
--   Common            Boolean tests and lists over native numbers (Common/Tests, Common/Lists), Go's
--                     int and int64 (Common/Int64), maps (Common/Dict), sort.Slice (Common/Sort).
--   Registry          coordinator/internal/registry/registry.go: addActive, AcquireSlot, Serves, Add,
--                     Remove, Get, Snapshot, Models as add_active, acquire_slot, serves, add, remove,
--                     lookup, snapshot, models. Registry/Slots has the counter and the models.
--   Scheduler         coordinator/internal/scheduler/scheduler.go: Eligible and Pick as eligible and
--                     pick; the loop body is visit, the closure of sort.Slice is less. Scheduler/Order
--                     has the order, Scheduler/Choice the results.
--   Jobs              coordinator/internal/jobs/jobs.go: Register, Deliver, Close, Has as register,
--                     deliver, close, has. Jobs/Valid has the invariant, Jobs/Isolation the channels.
--   Council           coordinator/internal/council/evaluate.go: Evaluate and Policy.count as evaluate and
--                     seats_wanted; its loops are collect, count_blocks, weigh and plurality_of.
--                     Council/Verdict has the decision, Council/Plurality the dissent, Council/Ledger the
--                     public ledger, also of council.go: RecordWorkloadDecision, verifyChain and
--                     allDecisions as record_decision, verify_chain and all_decisions. Council/Seats is
--                     ForWorkload and the Review of the three seats without a model, Seats/Model the
--                     model's with NewModelReviewer and parseReview; Seats/BuiltIn has what they decide.
--                     Council/Record is the record that RecordWorkloadDecision makes, Council/Runs is
--                     ReviewRun and Hydrate of persist.go, with Record/Counts and Runs/Kept.
--   Hub               coordinator/internal/wshub/wshub.go: HandleProvider as handle_provider, its first
--                     frame as registration, its main loop as serve; dispatch and deliver under their
--                     names, with Parse of protocol/wire.go, ParsePublicKey of crypto/box.go and Verify
--                     of attest/attest.go. Hub/Registration has who is admitted, Hub/Loop the loop.
--   Accounts          coordinator/internal/auth/auth.go: sessions, credentials and the callback of a
--                     sign-in service (SessionUser, createSession, upsertUser, handleCallback as
--                     session_user, create_session, upsert_user, handle_callback). Accounts/SignIn and
--                     Accounts/Gate have what holds of them; Accounts/Pairing is pair.go and
--                     Accounts/Referral referral.go beside it, with Pairing/Once and Referral/Laws.
--   Webhooks          coordinator/internal/api/billing.go: handleStripeWebhook, handlePayoutWebhook and
--                     adminPayoutsPending as handle_stripe_webhook, handle_payout_webhook and
--                     payouts_pending. Webhooks/Replay has the credits, Webhooks/Accounts the accounts.
--   Crypto            coordinator/internal/crypto/box.go: Seal and Open as seal and open_sealed.
--   Relay             coordinator/internal/relay/relay.go: the loop of ExecuteOn as loop, one round as
--                     on_signal, the cases of a frame as decode_chunk, finish and on_event.
--                     Relay/Frames has the frames, Relay/Stream what is passed on, Relay/Serves
--                     what an honest provider gets. Relay/Dispatch is Execute and ExecuteOn around the
--                     loop and ErrCode as execute, execute_on and err_code; Dispatch/Cleanup has what
--                     they leave and send, Dispatch/Codes the codes.
--   Runs              coordinator/internal/api/runs.go: the methods of runRegistry under their names
--                     (add_inflight, inflight_for, put, get, set_secret, secret, gc). Runs/Expiry has the
--                     results, Runs/Inflight the counts. Runs/Execute is executeWorkload, with the cost
--                     in Execute/Charge; Runs/Async is startAsyncRun, executeAsyncRun, finishRun and
--                     handleGetRunResults, with Async/Ends and Async/Results.
--   Workloads         coordinator/internal/api/workloads.go: handleGetWorkload and handleAcceptWorkload
--                     under their names, over Marketplace and Runs; the checks before the quote is
--                     locked are check. Workloads/Admission has what is refused and what runs,
--                     Workloads/Credit the balance.
--   Batch             coordinator/internal/batch/batch.go: choose, release and summarize as they are
--                     named, with chunkItems and mergeSummary of coordinator/internal/api/workloads.go
--                     as chunk_items and merge_summary. Batch/Spread, Batch/Totals and Batch/Chunks have
--                     the choice, the counts and the chunks.
--   Payouts           coordinator/internal/api/billing.go: the payout run of adminPayoutsRun as payouts_run,
--                     one row as pay_row. Payouts/Conserve has the money, Payouts/DryRun the dry run.
--   Events            coordinator/internal/events/events.go: NewRing, Push, snapshot, Recent, Counts as
--                     new_ring, push, snapshot, recent, counts. Events/Refine has the queue that the
--                     ring implements, Events/Query the reads.
--   Store             coordinator/internal/store/store.go, the rows, and memory.go, the operations:
--                     Store/Keys, Store/Ledger (credits, earnings, payouts, settlement) and
--                     Store/Rows (usage, waitlist, feedback, runs), each with its theorems below it.
--   Chat              coordinator/internal/api/chat.go: handleChatCompletions as handle_chat_completions,
--                     its guards as check, with resolveModel, mapRelayErr, meter and recordJob.
--                     Chat/Meter has what a chat costs.
--   Manifest          coordinator/internal/manifest/manifest.go and kms.go under their names, Sign of the
--                     two signers as sign and kms_sign; Manifest/Job is signJobManifest of
--                     coordinator/internal/relay/relay.go. Manifest/Limits has the bounds of a lease,
--                     Manifest/Sound what verifies, Manifest/Accepted what that says of
--                     the manifest.
--   Attest            coordinator/internal/attest/android.go under its names; Attest/Der is
--                     findContextTagged. Attest/Sound has what an attested device has proved,
--                     Attest/Data the evidence and the signed message,
--                     Attest/Binding what it binds, Attest/Tail the window of the last
--                     certificate, Der/Find and Der/Ends the scan; Hub/Tier
--                     joins the check to the registration.
--   Marketplace       coordinator/internal/marketplace/marketplace.go: Create, Get, MarkAccepted and
--                     gcLocked as create, get, mark_accepted, gc. Marketplace/Quotes has acceptance,
--                     Marketplace/Bounds the size.
--   .../Tests         runs at concrete inputs.
--
-- How the code is read. A method under a lock is one function from state to state; a history is a
-- list of calls. Clock readings and random tokens are arguments. An int or int64 is its 64-bit
-- pattern, a number below 2 ^ 64, with wrap-around and the signed comparison written out
-- (Common/Int64). A map is an association list; where Go leaves the order of a range open, what is
-- proved holds for every list. sort.Slice is a parameter with its documented contract, which
-- insertion sort is shown to meet. Case folding and trimming of strings are parameters. Channels
-- stand in a store under addresses, since the relay and the manager share them; a send on a closed
-- channel and a second close are panics, which the model returns as none.
--
-- Bounds. The loops of chunkItems and of findContextTagged are on fuel, for which the number of
-- items and of bytes is shown to be enough; every other loop runs over a list. A channel holds 64 events, a quote store 2048
-- quotes, a ring at least 16 events, a list of runs at most 200. Lengths and sequence numbers are
-- 64-bit numbers that wrap.
--
-- Not modelled: the other HTTP handlers and the PostgreSQL store (I/O), floating-point prices,
-- scores and rate limits, the requests to the sign-in services, and the signatures, certificates
-- and encodings of the standard library, which are parameters.
pub mod Accounts
pub mod Attest
pub mod Batch
pub mod Chat
pub mod Common
pub mod Council
pub mod Crypto
pub mod Events
pub mod Hub
pub mod Jobs
pub mod Manifest
pub mod Marketplace
pub mod Payouts
pub mod Registry
pub mod Relay
pub mod Runs
pub mod Scheduler
pub mod Store
pub mod Webhooks
pub mod Workloads
