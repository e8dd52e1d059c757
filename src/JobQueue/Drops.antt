-- ===== src/JobQueue/Drops.antt =====
-- JobQueue.h: how often a job that was superseded is dropped.
use android_hardware_nvidia.JobQueue.Order.{
  asked_by, pending, pending-append_fresh, pending_entries,
}
use android_hardware_nvidia.JobQueue.Entries.{drop_superseded_counts}
use android_hardware_nvidia.Prelude.{
  Bool, List, Option-cases, [], arith, false, if◌then◌else◌, inl, inr, none, refl, some, suc, true,
  ℕ, ◌&&◌, ◌++◌, ◌+◌, ◌-◌, ◌<◌, ◌^◌, ◌∷◌, ◌≡◌, ◌≤◌,
}
use android_hardware_nvidia.JobQueue.{
  Call, Entry, JobQueue, Outcome, Round, answers, cancel, cancels, collect, count_queued, done,
  drop_superseded, dropped, find, finishes, forget, fresh_entry, is_queued, most_dropped_in_a_row,
  queue, queues, resolve, resolves, run, step, stop, stops, take_locked, takes, try_take, u32, u64,
  waiting, waits,
}

abbrev pub is_dropped : {Result : Type 0} → Round (Outcome Result) → Bool
is_dropped (answers o) = elim o.state [ dropped ↦ true | _ ↦ false ]
is_dropped waits = false

module _ {Job Result : Type 0} where
  abbrev pub is_submission : Call Job Result → Bool
  is_submission (finishes _ is_submitted _) = is_submitted
  is_submission _ = false

  abbrev pub NoSubmission : List (Call Job Result) → Type 0
  NoSubmission [] = Unit {0}
  NoSubmission (c ∷ cs) = (is_submission c ≡ false) × NoSubmission cs

  -- The jobs that a call drops: the ones that waited for the worker before a job was queued, less the ones that
  -- wait still, without the new one; and the job that waited for the worker and is answered as dropped.
  abbrev pub drops_of : JobQueue Job Result → Call Job Result → ℕ
  drops_of q (queues job droppable) = suc (waiting q) - waiting (queue q job droppable).0
  drops_of q (resolves id wait) = elim (find id q.entries) [
    | none ↦ 0
    | some e ↦ if is_queued e.state && is_dropped (resolve q id wait).1 then 1 else 0
  ]
  drops_of q _ = 0

  abbrev pub drops : JobQueue Job Result → List (Call Job Result) → ℕ
  drops q [] = 0
  drops q (c ∷ cs) = drops_of q c + drops (step q c) cs

  -- With the jobs dropped on the way from `q` to `r`: at most one in a row, and both counters tell it.
  abbrev pub DropsFew : JobQueue Job Result → ℕ → JobQueue Job Result → Type 0
  DropsFew q n r =
      (q.dropped_in_a_row + n ≤ most_dropped_in_a_row)
      × ((r.dropped_in_a_row ≡ q.dropped_in_a_row + n)
          × (r.dropped_count ≡ u64 (q.dropped_count + n)))

  drop_superseded-count_queued :
      (es : List (Entry Job Result)) (row count : ℕ)
      → row ≤ most_dropped_in_a_row
      → let r = drop_superseded es row count in count_queued es + row ≡ count_queued r.0 + r.1
  unfolding drop_superseded count_queued
  drop_superseded-count_queued [] row count h = omega arith
  drop_superseded-count_queued (e ∷ es) row count h = ground (
    arith,
    drop_superseded-count_queued es row count h,
    drop_superseded-count_queued es (u32 (row + 1)) (u64 (count + 1)),
  )

  count_queued-append :
      (es fs : List (Entry Job Result))
      → count_queued (es ++ fs) ≡ count_queued es + count_queued fs
  unfolding count_queued
  count_queued-append [] fs = omega arith
  count_queued-append (e ∷ es) fs = omega (arith, count_queued-append es fs)

  queues-DropsFew :
      (q : JobQueue Job Result) (job : Job) (droppable : Bool)
      → q.dropped_in_a_row ≤ most_dropped_in_a_row
      → q.dropped_count < 2 ^ 64
      → DropsFew q (drops_of q (queues job droppable)) (step q (queues job droppable))
  unfolding step queue waiting count_queued
  queues-DropsFew q job droppable h b =
      let counts = drop_superseded_counts q.entries q.dropped_in_a_row q.dropped_count h in
      let es = drop_superseded q.entries q.dropped_in_a_row q.dropped_count in
      let fresh = fresh_entry {Result = Result} (u64 (q.last_id + 1)) job droppable in
      omega (
        arith,
        counts,
        counts.2 (omega arith),
        drop_superseded-count_queued q.entries q.dropped_in_a_row q.dropped_count h,
        count_queued-append es.0 (fresh ∷ []),
      )

  resolves-DropsFew :
      (q : JobQueue Job Result) (id : ℕ) (wait : Bool)
      → q.dropped_in_a_row ≤ most_dropped_in_a_row
      → q.dropped_count < 2 ^ 64
      → DropsFew q (drops_of q (resolves id wait)) (step q (resolves id wait))
  unfolding step resolve collect
  resolves-DropsFew q id wait h b = elim (Option-cases (find id q.entries)) [
    | inl gone ↦ rw (gone, drops_of, step, resolve) (omega arith)
    | inr (e, here) ↦ rw (here, drops_of, step, resolve) (ground (arith, here))
  ]

  step-DropsFew :
      (q : JobQueue Job Result) (c : Call Job Result)
      → q.dropped_in_a_row ≤ most_dropped_in_a_row
      → q.dropped_count < 2 ^ 64
      → is_submission c ≡ false
      → DropsFew q (drops_of q c) (step q c)
  unfolding step try_take take_locked done cancel stop
  step-DropsFew q (queues job droppable) h b s = queues-DropsFew q job droppable h b
  step-DropsFew q takes h b s = ground arith
  step-DropsFew q (finishes id is_submitted result) h b s = ground arith
  step-DropsFew q (resolves id wait) h b s = resolves-DropsFew q id wait h b
  step-DropsFew q (cancels id) h b s = ground arith
  step-DropsFew q stops h b s = ground arith

  -- The jobs dropped in a row are at most one and the count of drops is of 64 bits. As long as no job is
  -- submitted, at most one job that waits for the worker is dropped, whatever is queued, taken, resolved and
  -- cancelled, and none where one was dropped already; and both counters move by the jobs that are dropped.
  pub run-DropsFew :
      (q : JobQueue Job Result) (cs : List (Call Job Result))
      → q.dropped_in_a_row ≤ most_dropped_in_a_row
      → q.dropped_count < 2 ^ 64
      → NoSubmission cs
      → DropsFew q (drops q cs) (run q cs)
  unfolding run
  run-DropsFew q [] h b s = omega arith
  run-DropsFew q (c ∷ cs) h b s =
      let first = step-DropsFew q c h b s.0 in
      omega
        (arith, first, run-DropsFew (step q c) cs (omega (arith, first)) (omega (arith, first)) s.1)

  drop_superseded_none :
      (es : List (Entry Job Result)) (count : ℕ) → (drop_superseded es 1 count).0 ≡ es
  unfolding drop_superseded
  drop_superseded_none [] count = refl
  drop_superseded_none (e ∷ es) count = ground (arith, drop_superseded_none es count)

  forget-pending :
      (id : ℕ) (es : List (Entry Job Result)) (e : Entry Job Result)
      → find id es ≡ some e
      → is_queued e.state ≡ false
      → pending_entries (forget id es) ≡ pending_entries es
  unfolding find forget pending_entries
  forget-pending id [] e h s = refl
  forget-pending id (x ∷ es) e h s = ground (arith, forget-pending id es e)

  resolve-pending :
      (q : JobQueue Job Result) (id : ℕ) (wait : Bool)
      → q.dropped_in_a_row ≡ 1
      → q.stopped ≡ false
      → pending (resolve q id wait).0 ≡ pending q
  unfolding resolve collect pending
  resolve-pending q id wait h on = elim (Option-cases (find id q.entries)) [
    | inl gone ↦ rw (gone, resolve)
    | inr (e, here) ↦ rw (here, resolve) (ground (arith, forget-pending id q.entries e here))
  ]

  -- Once one job was dropped, neither a new job nor a frame that will not wait takes a job from those
  -- that wait for the worker: they all stay, until a job is submitted.
  pub superseded_is_kept :
      (q : JobQueue Job Result) (id : ℕ) (wait : Bool) (job : Job) (droppable : Bool)
      → q.dropped_in_a_row ≡ 1
      → q.stopped ≡ false
      → (pending (step q (resolves id wait)) ≡ pending q)
        × (pending (step q (queues job droppable)) ≡ pending q ++ asked_by q (queues job droppable))
  unfolding step asked_by queue pending
  superseded_is_kept q id wait job droppable h on = (
    resolve-pending q id wait h on,
    rw (on, h, drop_superseded_none q.entries q.dropped_count)
        (pending-append_fresh q.entries (u64 (q.last_id + 1)) job droppable),
  )
