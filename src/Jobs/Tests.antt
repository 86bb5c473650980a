-- ===== src/Jobs/Tests.antt =====
-- Runs of the job channels, and the theorems at them.
use shared_compute.Common.{◌≡◌, refl, none, some, List, [], ◌∷◌}
use shared_compute.Common.Dict
use shared_compute.Jobs.{Event, Assignment, Manager, chunk, done, new, register, deliver, close}
use shared_compute.Jobs.Valid.{
  IsValid, Op, registers, delivers, closes, receives, run, step, new-IsValid, register-IsValid,
  run-new,
}
use shared_compute.Jobs.Isolation.{Holds, pending, run-pending}

abbrev ev : Event
ev = record { kind = chunk; raw = "{}" }

abbrev registered : Manager
registered = (register "a" "p" new).0

abbrev assigned : Assignment
assigned = record { provider_id = "p"; ch = 0 }

-- The job's own frame, a foreign one, another job's life, and the relay's receive.
abbrev calls : List Op
calls =
    delivers "a" "p" ev
    ∷ delivers "a" "q" ev
    ∷ registers "b" "q"
    ∷ delivers "b" "q" ev
    ∷ delivers "a" "p" ev
    ∷ closes "b"
    ∷ receives 0
    ∷ []

abbrev end : Manager
end = elim (run registered calls) [ none ↦ new | some s ↦ s ]

one_left : (end.channels 0).buffer ≡ ev ∷ []
unfolding run step deliver register close Dict.get Dict.put Dict.delete shared_compute.Jobs.receive
one_left = refl

run-new_example : (s : Manager) × (run new calls ≡ some s) × IsValid s
run-new_example = run-new calls

registered-Holds : Holds registered "a" assigned []
unfolding register Dict.get Dict.put
registered-Holds = record { assigned = refl; buffered = refl }

run_ends : run registered calls ≡ some end
unfolding run step register deliver Dict.get Dict.put Dict.delete close shared_compute.Jobs.receive
run_ends = refl

run-pending_example : Holds end "a" assigned (pending "a" "p" 0 [] calls)
run-pending_example =
    run-pending "a" assigned [] registered end calls (register-IsValid "a" "p" new new-IsValid)
      registered-Holds (refl, (refl, (refl, (refl, (refl, (refl, (refl, tt))))))) run_ends
