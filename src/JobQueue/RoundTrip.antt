-- ===== src/JobQueue/RoundTrip.antt =====
-- JobQueue.h: the way of one job through the queue, from the frame to the engine and back.
use android_hardware_nvidia.JobQueue.Entries.{Ordered}
use android_hardware_nvidia.Prelude.{
  Bool, List, Option, [], arith, false, if◌then◌else◌, none, refl, some, true, ℕ, ◌++◌, ◌+◌, ◌<◌,
  ◌^◌, ◌∷◌, ◌≡◌,
}
use android_hardware_nvidia.JobQueue.Invariant.{IsValid}
use android_hardware_nvidia.JobQueue.{
  Entry, JobQueue, answers, collect, count_queued, done, drop_superseded, find, fresh_entry,
  is_queued, is_submitting, queue, refused, resolve, settle, start, submitted, take_entry,
  take_locked, try_take, u64, update, waiting,
}

module _ {Job Result : Type 0} where
  find_above :
      (stopped : Bool) (last n id : ℕ) (es : List (Entry Job Result))
      → Ordered stopped last n es
      → last < id
      → find id es ≡ none
  unfolding find
  find_above stopped last n id [] v h = refl
  find_above stopped last n id (e ∷ es) v h = ground (arith, find_above stopped last e.id id es v.3)

  find-append :
      (id : ℕ) (es fs : List (Entry Job Result))
      → find id es ≡ none
      → find id (es ++ fs) ≡ find id fs
  unfolding find
  find-append id [] fs h = refl
  find-append id (e ∷ es) fs h = ground (arith, find-append id es fs)

  update-append :
      (id : ℕ) (f : Entry Job Result → Entry Job Result) (es fs : List (Entry Job Result))
      → find id es ≡ none
      → update id f (es ++ fs) ≡ es ++ update id f fs
  unfolding find update
  update-append id f [] fs h = refl
  update-append id f (e ∷ es) fs h = ground (arith, update-append id f es fs)

  take_entry-append :
      (es : List (Entry Job Result)) (e : Entry Job Result)
      → count_queued es ≡ 0
      → is_queued e.state ≡ true
      → take_entry (es ++ e ∷ []) ≡ (es ++ start e ∷ [], some (e.id, e.job))
  unfolding take_entry count_queued
  take_entry-append [] e h s = rw s
  take_entry-append (x ∷ es) e h s = ground (arith, take_entry-append es e)

  drop_superseded_idle :
      (es : List (Entry Job Result)) (row count : ℕ)
      → count_queued es ≡ 0
      → drop_superseded es row count ≡ (es, row, count)
  unfolding drop_superseded count_queued
  drop_superseded_idle [] row count h = refl
  drop_superseded_idle (e ∷ es) row count h = ground (arith, drop_superseded_idle es row count)

  -- The queue with one entry more at its end.
  abbrev with_last : JobQueue Job Result → ℕ → ℕ → Entry Job Result → JobQueue Job Result
  with_last q i row e = record q {
    entries = q.entries ++ e ∷ [];
    last_id = i;
    dropped_in_a_row = row;
  }

  queue_idle :
      (q : JobQueue Job Result) (job : Job) (droppable : Bool)
      → waiting q ≡ 0
      → q.last_id + 1 < 2 ^ 64
      → let i = q.last_id + 1 in
        queue q job droppable ≡ (with_last q i q.dropped_in_a_row (fresh_entry i job droppable), i)
  unfolding queue waiting
  queue_idle q job droppable idle h =
      let e : u64 (q.last_id + 1) ≡ q.last_id + 1 = omega arith in
      rw (drop_superseded_idle q.entries q.dropped_in_a_row q.dropped_count idle) (rw e)

  take_idle :
      (q : JobQueue Job Result) (i row : ℕ) (e : Entry Job Result)
      → waiting q ≡ 0
      → q.stopped ≡ false
      → is_queued e.state ≡ true
      → try_take (with_last q i row e) ≡ (with_last q i row (start e), some (e.id, e.job))
  unfolding try_take take_locked waiting
  take_idle q i row e idle on s = ground (arith, take_entry-append q.entries e idle s)

  module _ (q : JobQueue Job Result) (i row : ℕ) (e : Entry Job Result)
      (other : find i q.entries ≡ none) (same : e.id ≡ i) where
    find_last : find i (q.entries ++ e ∷ []) ≡ some e
    unfolding find
    find_last = rw (find-append i q.entries (e ∷ []) other) (ground arith)

    update_last :
        (f : Entry Job Result → Entry Job Result)
        → update i f (q.entries ++ e ∷ []) ≡ q.entries ++ f e ∷ []
    unfolding update
    update_last f = rw (update-append i f q.entries (e ∷ []) other) (ground arith)

    done_last :
        (is_submitted : Bool) (result : Option Result)
        → e.is_cancelled ≡ false
        → done (with_last q i row e) i is_submitted result
          ≡ with_last q i (if is_submitted then 0 else row) (settle is_submitted result e)
    unfolding done
    done_last is_submitted result kept =
        ground (arith, find_last, update_last (settle is_submitted result))

    resolve_last :
        (wait : Bool)
        → is_queued e.state ≡ false
        → is_submitting e.state ≡ false
        → (resolve (with_last q i row e) i wait).1
          ≡ answers (record { state = e.state; result = e.result })
    unfolding resolve collect
    resolve_last wait a b = rw (find_last, resolve) (ground arith)

  -- When nothing else waits, a job that is queued is the next that the worker is given, whole; when the
  -- worker has submitted it, the frame that resolves it gets the worker's result, whether it would wait
  -- or not, and the row of drops has ended. A job that the engine refused is reported so, and leaves
  -- the row as it was.
  pub job_round_trip :
      (q : JobQueue Job Result) (job : Job) (droppable is_submitted wait : Bool)
      (result : Option Result)
      → IsValid q
      → q.stopped ≡ false
      → waiting q ≡ 0
      → q.last_id + 1 < 2 ^ 64
      → let (q1, id) = queue q job droppable in
        let (q2, taken) = try_take q1 in
        let q3 = done q2 id is_submitted result in
        (taken ≡ some (id, some job))
        × ((resolve q3 id wait).1
            ≡ answers
                (record { state = if is_submitted then submitted else refused; result = result }))
        × (q3.dropped_in_a_row ≡ (if is_submitted then 0 else q.dropped_in_a_row))
  job_round_trip q job droppable is_submitted wait result v on idle h =
      let i = q.last_id + 1 in
      let e : Entry Job Result = fresh_entry i job droppable in
      let other = find_above q.stopped q.last_id 0 i q.entries v.ordered (omega arith) in
      rw (queue_idle q job droppable idle h) (
        rw (take_idle q i q.dropped_in_a_row e idle on refl) (
          rw (done_last q i q.dropped_in_a_row (start e) other refl is_submitted result refl) (
            refl,
            resolve_last q i _ (settle is_submitted result (start e)) other refl wait (ground arith)
                (ground arith),
            refl,
          )))
