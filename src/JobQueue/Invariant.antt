-- ===== src/JobQueue/Invariant.antt =====
-- JobQueue.h: what holds of the queue between two calls, and that every call keeps it.
use android_hardware_nvidia.Prelude.{
  Bool, Bool-cases, List, Option, Option-cases, [], arith, inl, inr, length, refl, ℕ, ◌+◌, ◌<◌, ◌^◌,
  ◌∷◌, ◌≤◌,
}
use android_hardware_nvidia.JobQueue.{
  Call, Entry, JobQueue, cancel, cancels, collect, done, drop, find, finishes, init, is_submitting,
  most_dropped_in_a_row, queue, queues, resolve, resolves, run, step, stop, stops, take_locked,
  takes, try_take,
}
use android_hardware_nvidia.JobQueue.Entries.{
  Ordered, append-Ordered, drop_superseded-Ordered, drop_superseded_counts, find-IsValid,
  forget-Ordered, forget-update, let_go-Ordered, set_cancelled-IsValid, settle-IsValid,
  take_entry-Ordered, update-Ordered,
}

pub record IsValid {Job Result : Type 0} (q : JobQueue Job Result) : Type 0 where
  pub ordered : Ordered q.stopped q.last_id 0 q.entries
  pub few_drops : q.dropped_in_a_row ≤ most_dropped_in_a_row

module _ {Job Result : Type 0} where
  pub queue-IsValid :
      (q : JobQueue Job Result) (job : Job) (droppable : Bool)
      → q.last_id + 1 < 2 ^ 64
      → IsValid q
      → IsValid (queue q job droppable).0
  unfolding queue
  queue-IsValid q job droppable h v = record {
    ordered = append-Ordered q.stopped q.last_id 0 _ job droppable _ (omega arith) (omega arith) (
        drop_superseded-Ordered q.stopped q.last_id 0 q.entries q.dropped_in_a_row q.dropped_count
          v.ordered);
    few_drops = (drop_superseded_counts q.entries q.dropped_in_a_row q.dropped_count v.few_drops).1;
  }

  pub try_take-IsValid : (q : JobQueue Job Result) → IsValid q → IsValid (try_take q).0
  unfolding try_take take_locked
  try_take-IsValid q v =
      ground (arith, take_entry-Ordered q.stopped q.last_id 0 q.entries v.ordered)

  pub done-IsValid :
      (q : JobQueue Job Result) (id : ℕ) (is_submitted : Bool) (result : Option Result)
      → IsValid q
      → IsValid (done q id is_submitted result)
  unfolding done
  done-IsValid q id is_submitted result v = elim (Option-cases (find id q.entries)) [
    | inl gone ↦ rw (gone, done) v
    | inr (e, here) ↦ elim (Bool-cases e.is_cancelled) [
      | inl marked ↦
          rw (here, done)
            (rw marked (record {
              ordered = forget-Ordered q.stopped q.last_id 0 id q.entries v.ordered;
              few_drops = ground arith;
            }))
      | inr kept ↦
          rw (here, done)
            (rw kept (record {
              ordered =
                  update-Ordered q.stopped q.last_id 0 id _ q.entries (λ x. refl)
                    (λ x there.
                      settle-IsValid q.stopped is_submitted result x (ground arith)
                        (find-IsValid q.stopped q.last_id 0 id q.entries v.ordered there).0)
                    v.ordered;
              few_drops = ground arith;
            }))
    ]
  ]

  collect-IsValid :
      (q : JobQueue Job Result) (id : ℕ) (e : Entry Job Result)
      → IsValid q
      → IsValid (collect q id e).0
  unfolding collect
  collect-IsValid q id e v =
      ground (arith, forget-Ordered q.stopped q.last_id 0 id q.entries v.ordered)

  pub resolve-IsValid :
      (q : JobQueue Job Result) (id : ℕ) (wait : Bool) → IsValid q → IsValid (resolve q id wait).0
  unfolding resolve
  resolve-IsValid q id wait v = elim (Option-cases (find id q.entries)) [
    | inl gone ↦ rw (gone, resolve) v
    | inr (e, here) ↦
        rw (here, resolve)
          (ground (
            arith,
            collect-IsValid q id e v,
            forget-update id drop q.entries (λ x. refl),
            forget-Ordered q.stopped q.last_id 0 id q.entries v.ordered,
          ))
  ]

  pub cancel-IsValid : (q : JobQueue Job Result) (id : ℕ) → IsValid q → IsValid (cancel q id)
  unfolding cancel
  cancel-IsValid q id v = elim (Option-cases (find id q.entries)) [
    | inl gone ↦ rw (gone, cancel) v
    | inr (e, here) ↦ elim (Bool-cases (is_submitting e.state)) [
      | inl taken ↦
          rw (here, cancel)
            (rw taken (record {
              ordered =
                  update-Ordered q.stopped q.last_id 0 id _ q.entries (λ x. refl)
                    (λ x there.
                      set_cancelled-IsValid q.stopped x (ground arith)
                        (find-IsValid q.stopped q.last_id 0 id q.entries v.ordered there).0)
                    v.ordered;
              few_drops = v.few_drops;
            }))
      | inr other ↦
          rw (here, cancel)
            (rw other (record {
              ordered = forget-Ordered q.stopped q.last_id 0 id q.entries v.ordered;
              few_drops = v.few_drops;
            }))
    ]
  ]

  pub stop-IsValid : (q : JobQueue Job Result) → IsValid q → IsValid (stop q)
  unfolding stop
  stop-IsValid q v = record {
    ordered = let_go-Ordered q.stopped q.last_id 0 q.entries v.ordered;
    few_drops = v.few_drops;
  }

  -- The worker and the frames make calls in any order; only the identifiers must not run out.
  pub step-IsValid :
      (q : JobQueue Job Result) (c : Call Job Result)
      → q.last_id + 1 < 2 ^ 64
      → IsValid q
      → IsValid (step q c)
  unfolding step
  step-IsValid q (queues job droppable) h v = queue-IsValid q job droppable h v
  step-IsValid q takes h v = try_take-IsValid q v
  step-IsValid q (finishes id is_submitted result) h v = done-IsValid q id is_submitted result v
  step-IsValid q (resolves id wait) h v = resolve-IsValid q id wait v
  step-IsValid q (cancels id) h v = cancel-IsValid q id v
  step-IsValid q stops h v = stop-IsValid q v

  pub last_id-step :
      (q : JobQueue Job Result) (c : Call Job Result)
      → q.last_id + 1 < 2 ^ 64
      → (q.last_id ≤ (step q c).last_id) × ((step q c).last_id ≤ q.last_id + 1)
  unfolding step queue try_take take_locked done resolve cancel stop
  last_id-step q (queues job droppable) h = ground arith
  last_id-step q takes h = ground arith
  last_id-step q (finishes id is_submitted result) h = ground arith
  last_id-step q (resolves id wait) h = ground arith
  last_id-step q (cancels id) h = ground arith
  last_id-step q stops h = ground arith

  pub init-IsValid : IsValid {Job = Job} {Result = Result} init
  unfolding init
  init-IsValid = record { ordered = tt; few_drops = omega arith }

  -- Between any two calls, in any order, as long as the 64-bit identifiers do not run out: identifiers
  -- rise along the list, a queued job of a running queue is there to be taken, one that is dropped or
  -- taken is gone, only the worker's answer brings a result, only a job that is being submitted is
  -- marked as cancelled, and at most one drop stands in the row.
  pub run-IsValid :
      (q : JobQueue Job Result) (cs : List (Call Job Result))
      → q.last_id + length cs < 2 ^ 64
      → IsValid q
      → IsValid (run q cs)
  unfolding run
  run-IsValid q [] h v = v
  run-IsValid q (c ∷ cs) h v =
      let b : q.last_id + 1 < 2 ^ 64 = omega arith in
      run-IsValid (step q c) cs (omega (arith, last_id-step q c b)) (step-IsValid q c b v)
