-- ===== src/JobQueue/Tests.antt =====
-- Runs of compositor/JobQueue.h, and the theorems about it at concrete queues.
use android_hardware_nvidia.JobQueue.Order.{IdsRise, asked, handed, handed_by, run_hands_in_order}
use android_hardware_nvidia.JobQueue.Drops.{DropsFew, drops, run-DropsFew}
use android_hardware_nvidia.JobQueue.RoundTrip.{job_round_trip}
use android_hardware_nvidia.Prelude.{List, [], arith, false, none, refl, some, true, ℕ, ◌∷◌, ◌≡◌}
use mathlib.Core.List.{Sublist}
use android_hardware_nvidia.JobQueue.Invariant.{IsValid, init-IsValid, run-IsValid}
use android_hardware_nvidia.JobQueue.{
  Call, JobQueue, Outcome, answers, count_queued, done, drop_superseded, dropped, find, finishes,
  init, queue, queues, refused, resolve, resolves, run, step, take_entry, take_locked, takes,
  try_take, waiting,
}

abbrev Q : Type 0
Q = JobQueue ℕ ℕ

-- Two jobs are queued; the second supersedes the first, which may be dropped.
abbrev history : List (Call ℕ ℕ)
history = queues 70 true ∷ queues 71 true ∷ takes ∷ finishes 2 true (some 9) ∷ []

abbrev two_jobs : List (Call ℕ ℕ)
two_jobs = queues 70 true ∷ queues 71 true ∷ []

abbrev superseded : Q
superseded = run init two_jobs

superseded_runs :
    (waiting superseded ≡ 1) × (superseded.dropped_count ≡ 1) × (superseded.dropped_in_a_row ≡ 1)
unfolding run step queue init drop_superseded waiting
superseded_runs = (refl, refl, refl)

run-IsValid_example : IsValid (run {Job = ℕ} {Result = ℕ} init history)
run-IsValid_example = run-IsValid init history (unfold init in omega arith) init-IsValid

run_hands_in_order_example :
    Sublist (handed {Job = ℕ} {Result = ℕ} init history) (asked init history)
    × IdsRise 0 (asked init history)
run_hands_in_order_example = run_hands_in_order history (omega arith)

history_hands : handed {Job = ℕ} {Result = ℕ} init history ≡ (2, some 71) ∷ []
unfolding handed handed_by step queue init drop_superseded try_take take_locked take_entry
history_hands = refl

abbrev one_job : Q
one_job = run init (queues 70 true ∷ [])

abbrev superseding : List (Call ℕ ℕ)
superseding = queues 71 true ∷ queues 72 true ∷ resolves 2 false ∷ []

superseding-drops : drops one_job superseding ≡ 1
unfolding run step queue init drop_superseded waiting count_queued resolve find
superseding-drops = refl

run-DropsFew_example : DropsFew one_job (drops one_job superseding) (run one_job superseding)
unfolding run step queue init drop_superseded
run-DropsFew_example =
    run-DropsFew one_job superseding (omega arith) (omega arith) (refl, (refl, (refl, tt)))

abbrev late : Outcome ℕ
late = record { state = dropped; result = none }

job_round_trip_example :
    let (q1, id) = queue {Job = ℕ} {Result = ℕ} init 70 true in
    let (q2, taken) = try_take q1 in
    let q3 = done q2 id false (some 5) in
    (taken ≡ some (id, some 70))
    × ((resolve q3 id true).1 ≡ answers (record { state = refused; result = some 5 }))
    × (q3.dropped_in_a_row ≡ 0)
unfolding init waiting count_queued
job_round_trip_example =
    job_round_trip init 70 true false true (some 5) init-IsValid refl refl (omega arith)
