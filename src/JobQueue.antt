-- ===== src/JobQueue.antt =====
-- compositor/JobQueue.h: the work one engine is asked for, between the thread that plans a frame
-- and the engine's worker. Each call holds the mutex throughout, so it is one function on the state;
-- a wait on the condition variable is the answer `waits`, after which the call starts again.
pub mod Entries
pub mod Invariant
pub mod Order
pub mod Drops
pub mod Outcomes
pub mod RoundTrip
mod Tests
use android_hardware_nvidia.Prelude.{
  ℕ, ◌+◌, ◌%◌, ◌^◌, Bool, true, false, ◌&&◌, ◌||◌, not, List, [], ◌∷◌, ◌++◌, map, Option, none,
  some, leb, ltb, ◌==◌, if◌then◌else◌,
}

pub data State : Type 0 where
  queued submitting submitted refused dropped cancelled : State

abbrev pub is_queued : State → Bool
is_queued queued = true
is_queued _ = false

abbrev pub is_submitting : State → Bool
is_submitting submitting = true
is_submitting _ = false

pub record Entry (Job Result : Type 0) : Type 0 where
  pub id : ℕ
  pub state : State
  pub droppable : Bool
  pub job : Option Job
  pub result : Option Result
  pub is_cancelled : Bool

pub record Outcome (Result : Type 0) : Type 0 where
  pub state : State
  pub result : Option Result

-- `id` and `dropped_count` are uint64_t, `dropped_in_a_row` is uint32_t.
pub record JobQueue (Job Result : Type 0) : Type 0 where
  pub entries : List (Entry Job Result)
  pub last_id : ℕ
  pub dropped_in_a_row : ℕ
  pub dropped_count : ℕ
  pub stopped : Bool

abbrev pub most_dropped_in_a_row : ℕ
most_dropped_in_a_row = 1

abbrev pub u32 : ℕ → ℕ
u32 n = n % 2 ^ 32

abbrev pub u64 : ℕ → ℕ
u64 n = n % 2 ^ 64

abbrev pub no_outcome : {Result : Type 0} → Outcome Result
no_outcome = record { state = cancelled; result = none }

-- One round of a call that may wait: its answer, or the wait.
pub data Round (A : Type 0) : Type 0 where
  answers : A → Round A
  waits : Round A

module _ {Job Result : Type 0} where
  unfoldable pub init : JobQueue Job Result
  init = record {
    entries = [];
    last_id = 0;
    dropped_in_a_row = 0;
    dropped_count = 0;
    stopped = false;
  }

  abbrev pub drop : Entry Job Result → Entry Job Result
  drop e = record e { state = dropped; job = none }

  -- The loop of `Queue` over the entries, with the two counters that it moves.
  unfoldable pub drop_superseded : List (Entry Job Result) → ℕ → ℕ → List (Entry Job Result) × ℕ × ℕ
  drop_superseded [] row count = ([], row, count)
  drop_superseded (e ∷ es) row count =
      let kept = drop_superseded es row count in
      let gone = drop_superseded es (u32 (row + 1)) (u64 (count + 1)) in
      if not (is_queued e.state) || not e.droppable
      then (e ∷ kept.0, kept.1, kept.2)
      else if leb most_dropped_in_a_row row
      then (e ∷ es, row, count)
      else (drop e ∷ gone.0, gone.1, gone.2)

  abbrev pub fresh_entry : ℕ → Job → Bool → Entry Job Result
  fresh_entry i job droppable = record {
    id = i;
    state = queued;
    droppable = droppable;
    job = some job;
    result = none;
    is_cancelled = false;
  }

  unfoldable pub queue : JobQueue Job Result → Job → Bool → JobQueue Job Result × ℕ
  queue q job droppable =
      let (es, row, count) = drop_superseded q.entries q.dropped_in_a_row q.dropped_count in
      let id = u64 (q.last_id + 1) in
      (
        record q {
          entries = es ++ fresh_entry id job droppable ∷ [];
          last_id = id;
          dropped_in_a_row = row;
          dropped_count = count;
        },
        id,
      )

  unfoldable pub find : ℕ → List (Entry Job Result) → Option (Entry Job Result)
  find id [] = none
  find id (e ∷ es) = if e.id == id then some e else find id es

  -- A write through the pointer that `Find` returns.
  unfoldable pub update :
      ℕ → (Entry Job Result → Entry Job Result) → List (Entry Job Result) → List (Entry Job Result)
  update id f [] = []
  update id f (e ∷ es) = if e.id == id then f e ∷ es else e ∷ update id f es

  unfoldable pub forget : ℕ → List (Entry Job Result) → List (Entry Job Result)
  forget id [] = []
  forget id (e ∷ es) = if e.id == id then es else e ∷ forget id es

  abbrev pub start : Entry Job Result → Entry Job Result
  start e = record e { state = submitting; job = none }

  -- `TakeLocked`. The job is what `*e.job` reads: `none` is a read of an empty optional.
  unfoldable pub take_entry :
      List (Entry Job Result) → List (Entry Job Result) × Option (ℕ × Option Job)
  take_entry [] = ([], none)
  take_entry (e ∷ es) =
      let (rest, taken) = take_entry es in
      if is_queued e.state then (start e ∷ es, some (e.id, e.job)) else (e ∷ rest, taken)

  unfoldable pub take_locked : JobQueue Job Result → JobQueue Job Result × Option (ℕ × Option Job)
  take_locked q = let (es, taken) = take_entry q.entries in (record q { entries = es }, taken)

  unfoldable pub take : JobQueue Job Result → JobQueue Job Result × Round (Option (ℕ × Option Job))
  take q =
      if q.stopped
      then (q, answers none)
      else let (q', taken) = take_locked q in
        elim taken [ none ↦ (q', waits) | some t ↦ (q', answers (some t)) ]

  unfoldable pub try_take : JobQueue Job Result → JobQueue Job Result × Option (ℕ × Option Job)
  try_take q = if q.stopped then (q, none) else take_locked q

  abbrev pub settle : Bool → Option Result → Entry Job Result → Entry Job Result
  settle is_submitted result e = record e {
    state = if is_submitted then submitted else refused;
    result = result;
  }

  unfoldable pub done : JobQueue Job Result → ℕ → Bool → Option Result → JobQueue Job Result
  done q id is_submitted result = elim (find id q.entries) [
    | none ↦ q
    | some e ↦
        let row = if is_submitted then 0 else q.dropped_in_a_row in
        if e.is_cancelled
        then record q { entries = forget id q.entries; dropped_in_a_row = row }
        else record q {
          entries = update id (settle is_submitted result) q.entries;
          dropped_in_a_row = row;
        }
  ]

  -- What `Resolve` does with the entry that it found, once it has dropped it if it may.
  unfoldable pub collect :
      JobQueue Job Result → ℕ → Entry Job Result → JobQueue Job Result × Round (Outcome Result)
  collect q id e =
      if not (is_queued e.state) && not (is_submitting e.state)
      then (
        record q { entries = forget id q.entries },
        answers (record { state = e.state; result = e.result }),
      )
      else if q.stopped
      then (record q { entries = forget id q.entries }, answers no_outcome)
      else (q, waits)

  unfoldable pub resolve :
      JobQueue Job Result → ℕ → Bool → JobQueue Job Result × Round (Outcome Result)
  unfolding collect
  resolve q id wait = elim (find id q.entries) [
    | none ↦ (q, answers no_outcome)
    | some e ↦
        if is_queued e.state
          && not wait
          && e.droppable
          && ltb q.dropped_in_a_row most_dropped_in_a_row
        then collect
            (record q {
              entries = update id drop q.entries;
              dropped_in_a_row = u32 (q.dropped_in_a_row + 1);
              dropped_count = u64 (q.dropped_count + 1);
            })
            id (drop e)
        else collect q id e
  ]

  abbrev pub set_cancelled : Entry Job Result → Entry Job Result
  set_cancelled e = record e { is_cancelled = true }

  unfoldable pub cancel : JobQueue Job Result → ℕ → JobQueue Job Result
  cancel q id = elim (find id q.entries) [
    | none ↦ q
    | some e ↦
        if is_submitting e.state
        then record q { entries = update id set_cancelled q.entries }
        else record q { entries = forget id q.entries }
  ]

  abbrev pub let_go : Entry Job Result → Entry Job Result
  let_go e = if is_queued e.state then record e { job = none } else e

  unfoldable pub stop : JobQueue Job Result → JobQueue Job Result
  stop q = record q { entries = map let_go q.entries; stopped = true }

  unfoldable pub count_queued : List (Entry Job Result) → ℕ
  count_queued [] = 0
  count_queued (e ∷ es) = (if is_queued e.state then 1 else 0) + count_queued es

  unfoldable pub waiting : JobQueue Job Result → ℕ
  unfolding count_queued
  waiting q = count_queued q.entries

-- The calls, in the order in which they get the mutex. `takes` is a round of `Take` or a `TryTake`.
pub data Call (Job Result : Type 0) : Type 0 where
  queues : Job → Bool → Call Job Result
  takes : Call Job Result
  finishes : ℕ → Bool → Option Result → Call Job Result
  resolves : ℕ → Bool → Call Job Result
  cancels : ℕ → Call Job Result
  stops : Call Job Result

module _ {Job Result : Type 0} where
  unfoldable pub step : JobQueue Job Result → Call Job Result → JobQueue Job Result
  step q (queues job droppable) = (queue q job droppable).0
  step q takes = (try_take q).0
  step q (finishes id is_submitted result) = done q id is_submitted result
  step q (resolves id wait) = (resolve q id wait).0
  step q (cancels id) = cancel q id
  step q stops = stop q

  unfoldable pub run : JobQueue Job Result → List (Call Job Result) → JobQueue Job Result
  run q [] = q
  run q (c ∷ cs) = run (step q c) cs
