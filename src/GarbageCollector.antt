-- ===== src/GarbageCollector.antt =====
-- compositor/GarbageCollector.h: the thread on which the composer's threads let go of what is theirs.
-- Each step holds the mutex once; a job runs between two of them. The thread's priority is left out.
pub mod Runs
mod Tests
use android_hardware_nvidia.Prelude.{
  Bool, List, Option, [], false, if◌then◌else◌, is_nil, is_some, length, ltb_ℤ, none, not, pos,
  some, suc, true, zero, ℕ, ℤ, ◌&&◌, ◌++◌, ◌+◌, ◌||◌, ◌∷◌,
}

-- With the jobs that have run, in their order. `running` is `running_` with the job that is held then.
pub record GarbageCollector (Job : Type 0) : Type 0 where
  pub jobs : List Job
  pub running : Option Job
  pub stopping : Bool
  pub is_started : Bool
  pub has_ended : Bool
  pub ran : List Job

module _ {Job : Type 0} where
  unfoldable pub init : GarbageCollector Job
  init = record {
    jobs = [];
    running = none;
    stopping = false;
    is_started = false;
    has_ended = false;
    ran = [];
  }

  unfoldable pub post : Job → GarbageCollector Job → GarbageCollector Job
  post job c = record c { jobs = c.jobs ++ job ∷ []; is_started = true }

  -- `close_job fd` is the job that closes the descriptor.
  unfoldable pub close : (ℤ → Job) → ℤ → GarbageCollector Job → GarbageCollector Job
  unfolding post
  close close_job fd c = if ltb_ℤ fd (pos 0) then c else post (close_job fd) c

  unfoldable pub stop : GarbageCollector Job → GarbageCollector Job
  stop c = record c { stopping = true }

  -- Whether `Flush` goes on.
  unfoldable pub is_flushed : GarbageCollector Job → Bool
  is_flushed c = is_nil c.jobs && not (is_some c.running)

  unfoldable pub pending : GarbageCollector Job → ℕ
  pending c = length c.jobs + (if is_some c.running then 1 else 0)

  -- The head of `Loop`, under the lock: it ends, waits, or takes a job.
  unfoldable pub take_job : GarbageCollector Job → GarbageCollector Job
  take_job c = elim c.jobs [
    | [] ↦ if c.stopping then record c { has_ended = true } else c
    | job ∷ rest ↦ record c { jobs = rest; running = some job }
  ]

  -- The next step of the thread.
  unfoldable pub thread_step : GarbageCollector Job → GarbageCollector Job
  unfolding take_job
  thread_step c = if not c.is_started || c.has_ended then c else elim c.running [
    | some job ↦ record c { running = none; ran = c.ran ++ job ∷ [] }
    | none ↦ take_job c
  ]

  unfoldable pub thread_steps : ℕ → GarbageCollector Job → GarbageCollector Job
  thread_steps zero c = c
  thread_steps (suc n) c = thread_steps n (thread_step c)

-- The calls and the steps of the thread, in the order in which they happen.
pub data Event (Job : Type 0) : Type 0 where
  posts : Job → Event Job
  stops : Event Job
  runs : Event Job

module _ {Job : Type 0} where
  unfoldable pub step : GarbageCollector Job → Event Job → GarbageCollector Job
  step c (posts job) = post job c
  step c stops = stop c
  step c runs = thread_step c

  unfoldable pub run : GarbageCollector Job → List (Event Job) → GarbageCollector Job
  run c [] = c
  run c (e ∷ es) = run (step c e) es
