-- ===== src/JobQueue/Order.antt =====
-- JobQueue.h: which jobs the worker is given, and in which order.
use android_hardware_nvidia.JobQueue.Invariant.{last_id-step}
use android_hardware_nvidia.JobQueue.Entries.{forget-update}
use android_hardware_nvidia.Prelude.{
  Bool, Bool-cases, List, Option, Option-cases, [], arith, false, if◌then◌else◌, inl, inr, length,
  none, refl, some, ℕ, ◌++◌, ◌+◌, ◌<◌, ◌==◌, ◌^◌, ◌∷◌, ◌≡◌, ◌≤◌,
}
use mathlib.Core.List.{append-nil, append_assoc, nil-sublist, Sublist}
use mathlib.Core.List.Sublist
use android_hardware_nvidia.JobQueue.{
  Call, Entry, JobQueue, cancel, cancels, collect, done, drop, drop_superseded, find, finishes,
  forget, fresh_entry, init, is_queued, is_submitting, queue, queues, resolve, resolves,
  set_cancelled, settle, step, stop, stops, take_entry, take_locked, takes, try_take, u32, u64,
  update,
}

abbrev pub taken_list {ℓ} : {A : Type ℓ} → Option A → List A
taken_list none = []
taken_list (some t) = t ∷ []

module _ {Job : Type 0} where
  -- The identifiers rise along the list, above `n`.
  abbrev pub IdsRise : ℕ → List (ℕ × Option Job) → Type 0
  IdsRise n [] = Unit {0}
  IdsRise n (t ∷ ts) = (n < t.0) × IdsRise t.0 ts

  IdsRise-mono : (m n : ℕ) (ts : List (ℕ × Option Job)) → m ≤ n → IdsRise n ts → IdsRise m ts
  IdsRise-mono m n [] h r = tt
  IdsRise-mono m n (t ∷ ts) h r = (omega arith, r.1)

module _ {Job Result : Type 0} where
  -- The jobs that wait for the worker, oldest first, each with its identifier.
  unfoldable pub pending_entries : List (Entry Job Result) → List (ℕ × Option Job)
  pending_entries [] = []
  pending_entries (e ∷ es) =
      if is_queued e.state then (e.id, e.job) ∷ pending_entries es else pending_entries es

  unfoldable pub pending : JobQueue Job Result → List (ℕ × Option Job)
  unfolding pending_entries
  pending q = if q.stopped then [] else pending_entries q.entries

  drop_superseded-sublist :
      (es : List (Entry Job Result)) (row count : ℕ)
      → Sublist (pending_entries (drop_superseded es row count).0) (pending_entries es)
  unfolding drop_superseded pending_entries
  drop_superseded-sublist [] row count = Sublist.refl []
  drop_superseded-sublist (e ∷ es) row count =
      let kept = drop_superseded-sublist es row count in
      let gone = drop_superseded-sublist es (u32 (row + 1)) (u64 (count + 1)) in
      ground (
        arith,
        kept,
        gone,
        Sublist.cons-cons (e.id, e.job) kept,
        Sublist.cons (e.id, e.job) gone,
        Sublist.refl ((e.id, e.job) ∷ pending_entries es),
      )

  pub pending-append_fresh :
      (es : List (Entry Job Result)) (i : ℕ) (job : Job) (droppable : Bool)
      → pending_entries (es ++ fresh_entry i job droppable ∷ [])
        ≡ pending_entries es ++ (i, some job) ∷ []
  unfolding pending_entries
  pending-append_fresh [] i job droppable = refl
  pending-append_fresh (e ∷ es) i job droppable =
      ground (arith, pending-append_fresh es i job droppable)

  forget-sublist :
      (id : ℕ) (es : List (Entry Job Result))
      → Sublist (pending_entries (forget id es)) (pending_entries es)
  unfolding forget pending_entries
  forget-sublist id [] = Sublist.refl []
  forget-sublist id (e ∷ es) =
      let rest = forget-sublist id es in
      ground (
        arith,
        rest,
        Sublist.cons-cons (e.id, e.job) rest,
        Sublist.cons (e.id, e.job) (Sublist.refl (pending_entries es)),
        Sublist.refl (pending_entries es),
      )

  -- A write that queues nothing leaves fewer jobs waiting.
  update-sublist :
      (id : ℕ) (f : Entry Job Result → Entry Job Result) (es : List (Entry Job Result))
      → ((e : Entry Job Result) → find id es ≡ some e → is_queued (f e).state ≡ false)
      → Sublist (pending_entries (update id f es)) (pending_entries es)
  unfolding update find pending_entries
  update-sublist id f [] out = Sublist.refl []
  update-sublist id f (e ∷ es) out = elim (Bool-cases (e.id == id)) [
    | inl hit ↦ rw hit (
        rw (out e (rw hit)) (
          ground (
            arith,
            Sublist.cons (e.id, e.job) (Sublist.refl (pending_entries es)),
            Sublist.refl (pending_entries es),
          )))
    | inr miss ↦
        let rest = update-sublist id f es (λ x h. out x (rw miss h)) in
        rw miss (ground (arith, rest, Sublist.cons-cons (e.id, e.job) rest))
  ]

  take_entry-pending :
      (es : List (Entry Job Result))
      → taken_list (take_entry es).1 ++ pending_entries (take_entry es).0 ≡ pending_entries es
  unfolding take_entry pending_entries
  take_entry-pending [] = refl
  take_entry-pending (e ∷ es) = ground (arith, take_entry-pending es)

  -- A call that leaves fewer entries queued, and stops nothing, leaves fewer jobs waiting.
  pending_shrinks :
      (q r : JobQueue Job Result)
      → r.stopped ≡ q.stopped
      → Sublist (pending_entries r.entries) (pending_entries q.entries)
      → Sublist (pending r) (pending q)
  unfolding pending
  pending_shrinks q r same fewer = elim (Bool-cases q.stopped) [
    | inl off ↦ rw (same, off) (Sublist.refl [])
    | inr on ↦ rw (same, on) fewer
  ]

  pub try_take-pending :
      (q : JobQueue Job Result) → taken_list (try_take q).1 ++ pending (try_take q).0 ≡ pending q
  unfolding try_take take_locked pending
  try_take-pending q = elim (Bool-cases q.stopped) [
    | inl off ↦ rw (off, try_take)
    | inr on ↦ rw (on, try_take) (take_entry-pending q.entries)
  ]

  done-sublist :
      (q : JobQueue Job Result) (id : ℕ) (is_submitted : Bool) (result : Option Result)
      → Sublist (pending (done q id is_submitted result)) (pending q)
  unfolding done
  done-sublist q id is_submitted result = ground (
    arith,
    Sublist.refl (pending q),
    pending_shrinks q
        (record q {
          entries = forget id q.entries;
          dropped_in_a_row = if is_submitted then 0 else q.dropped_in_a_row;
        })
        refl (forget-sublist id q.entries),
    pending_shrinks q
        (record q {
          entries = update id (settle is_submitted result) q.entries;
          dropped_in_a_row = if is_submitted then 0 else q.dropped_in_a_row;
        })
        refl (update-sublist id (settle is_submitted result) q.entries (λ e _. ground arith)),
  )

  cancel-sublist : (q : JobQueue Job Result) (id : ℕ) → Sublist (pending (cancel q id)) (pending q)
  unfolding cancel
  cancel-sublist q id = elim (Option-cases (find id q.entries)) [
    | inl gone ↦ rw (gone, cancel) (Sublist.refl _)
    | inr (e, here) ↦ elim (Bool-cases (is_submitting e.state)) [
      | inl taken ↦
          rw (here, cancel)
            (rw taken (
              pending_shrinks q _ refl
                (update-sublist id set_cancelled q.entries (λ x there. ground arith))))
      | inr other ↦
          rw (here, cancel) (rw other (pending_shrinks q _ refl (forget-sublist id q.entries)))
    ]
  ]

  collect-sublist :
      (q : JobQueue Job Result) (id : ℕ) (e : Entry Job Result)
      → Sublist (pending (collect q id e).0) (pending q)
  unfolding collect
  collect-sublist q id e = ground (
    arith,
    Sublist.refl (pending q),
    pending_shrinks q (record q { entries = forget id q.entries }) refl
        (forget-sublist id q.entries),
  )

  resolve-sublist :
      (q : JobQueue Job Result) (id : ℕ) (wait : Bool)
      → Sublist (pending (resolve q id wait).0) (pending q)
  unfolding resolve
  resolve-sublist q id wait = elim (Option-cases (find id q.entries)) [
    | inl gone ↦ rw (gone, resolve) (Sublist.refl _)
    | inr (e, here) ↦
        rw (here, resolve)
          (ground (
            arith,
            collect-sublist q id e,
            pending_shrinks q
                (record q {
                  entries = forget id (update id drop q.entries);
                  dropped_in_a_row = u32 (q.dropped_in_a_row + 1);
                  dropped_count = u64 (q.dropped_count + 1);
                })
                refl
                (rw (forget-update id drop q.entries (λ x. refl)) (forget-sublist id q.entries)),
          ))
  ]

  stop-sublist : (q : JobQueue Job Result) → Sublist (pending (stop q)) (pending q)
  unfolding stop pending
  stop-sublist q = nil-sublist _

  -- What one call hands to the worker, and what it asks for.
  unfoldable pub handed_by : JobQueue Job Result → Call Job Result → List (ℕ × Option Job)
  handed_by q takes = taken_list (try_take q).1
  handed_by q _ = []

  unfoldable pub asked_by : JobQueue Job Result → Call Job Result → List (ℕ × Option Job)
  asked_by q (queues job droppable) = ((queue q job droppable).1, some job) ∷ []
  asked_by q _ = []

  unfoldable pub handed : JobQueue Job Result → List (Call Job Result) → List (ℕ × Option Job)
  handed q [] = []
  handed q (c ∷ cs) = handed_by q c ++ handed (step q c) cs

  unfoldable pub asked : JobQueue Job Result → List (Call Job Result) → List (ℕ × Option Job)
  asked q [] = []
  asked q (c ∷ cs) = asked_by q c ++ asked (step q c) cs

  queue-sublist :
      (q : JobQueue Job Result) (job : Job) (droppable : Bool)
      → Sublist
          (pending (queue q job droppable).0)
          (pending q ++ ((queue q job droppable).1, some job) ∷ [])
  unfolding queue pending
  queue-sublist q job droppable = elim (Bool-cases q.stopped) [
    | inl off ↦ rw off (Sublist.cons _ (Sublist.refl []))
    | inr on ↦ rw on (
        rw
          (pending-append_fresh (drop_superseded q.entries q.dropped_in_a_row q.dropped_count).0
            (u64 (q.last_id + 1)) job droppable)
          (Sublist.append (drop_superseded-sublist q.entries q.dropped_in_a_row q.dropped_count)
            (Sublist.refl _)))
  ]

  step-sublist :
      (q : JobQueue Job Result) (c : Call Job Result)
      → Sublist (handed_by q c ++ pending (step q c)) (pending q ++ asked_by q c)
  unfolding step handed_by asked_by
  step-sublist q (queues job droppable) = queue-sublist q job droppable
  step-sublist q takes =
      let e : pending q ++ [] ≡ pending q = append-nil (pending q) in
      rw e (rw (try_take-pending q) (Sublist.refl _))
  step-sublist q (finishes id is_submitted result) =
      rw (append-nil (pending q)) (done-sublist q id is_submitted result)
  step-sublist q (resolves id wait) = rw (append-nil (pending q)) (resolve-sublist q id wait)
  step-sublist q (cancels id) = rw (append-nil (pending q)) (cancel-sublist q id)
  step-sublist q stops = rw (append-nil (pending q)) (stop-sublist q)

  asked-IdsRise :
      (q : JobQueue Job Result) (cs : List (Call Job Result))
      → q.last_id + length cs < 2 ^ 64
      → IdsRise q.last_id (asked q cs)
  unfolding asked asked_by step queue
  asked-IdsRise q [] h = tt
  asked-IdsRise q (queues job droppable ∷ cs) h =
      (omega arith, asked-IdsRise (step q (queues job droppable)) cs (omega arith))
  asked-IdsRise q (c ∷ cs) h =
      IdsRise-mono q.last_id (step q c).last_id (asked (step q c) cs)
        (omega (arith, last_id-step q c))
        (asked-IdsRise (step q c) cs (omega (arith, last_id-step q c)))

  handed-sublist :
      (q : JobQueue Job Result) (cs : List (Call Job Result))
      → Sublist (handed q cs) (pending q ++ asked q cs)
  unfolding handed asked
  handed-sublist q [] = nil-sublist _
  handed-sublist q (c ∷ cs) =
      let first = Sublist.append (step-sublist q c) (Sublist.refl (asked (step q c) cs)) in
      let rest = Sublist.append (Sublist.refl (handed_by q c)) (handed-sublist (step q c) cs) in
      Sublist.trans rest (
        rw (← append_assoc (handed_by q c) (pending (step q c)) (asked (step q c) cs))
          (rw (← append_assoc (pending q) (asked_by q c) (asked (step q c) cs)) first))

  -- Whatever the worker and the frames do, the jobs that the worker is given are among those that were
  -- queued, in the order in which they were queued and none of them twice, each under the identifier
  -- that `Queue` returned for it; and these identifiers all differ, since they rise.
  pub run_hands_in_order :
      (cs : List (Call Job Result))
      → length cs < 2 ^ 64
      → Sublist (handed init cs) (asked init cs) × IdsRise 0 (asked init cs)
  unfolding init pending
  run_hands_in_order cs h = (handed-sublist init cs, asked-IdsRise init cs (omega arith))
