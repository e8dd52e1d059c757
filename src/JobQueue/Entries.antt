-- ===== src/JobQueue/Entries.antt =====
-- JobQueue.h: what holds of each entry and of the list of entries, and that every loop over the list
-- keeps it.
use mathlib.Core.Path.{subst}
use android_hardware_nvidia.Prelude.{
  ℕ, ◌+◌, ◌-◌, ◌≤◌, ◌<◌, ◌≡◌, refl, sym, ◌≢◌, ◌⊎◌, Bool, true, false, List, [], ◌∷◌, ◌++◌, map,
  Option, none, some, is_some, ◌==◌, Bool-cases, inl, inr, arith,
}
use android_hardware_nvidia.JobQueue.{
  queued, submitting, submitted, refused, dropped, cancelled, is_queued, Entry, u32, u64, drop,
  drop_superseded, fresh_entry, find, update, forget, start, take_entry, settle, set_cancelled,
  let_go, most_dropped_in_a_row,
}

-- The place that an entry may be in: a job is held exactly while it is queued and the queue runs, a
-- result only once the worker gave one, and only a job that the worker has can be marked cancelled.
pub record EntryIsValid {Job Result : Type 0} (stopped : Bool) (e : Entry Job Result) : Type 0 where
  pub job_held : e.state ≡ queued → stopped ≡ false → is_some e.job ≡ true
  pub job_gone : (e.state ≡ submitting) ⊎ (e.state ≡ dropped) → e.job ≡ none
  pub result_given : e.state ≢ submitted → e.state ≢ refused → e.result ≡ none
  pub marked_taken : e.is_cancelled ≡ true → e.state ≡ submitting
  pub state_kept : e.state ≢ cancelled

module _ {Job Result : Type 0} where
  -- Identifiers rise along the list, above `n` and up to `last`, and each entry is valid.
  abbrev pub Ordered : Bool → ℕ → ℕ → List (Entry Job Result) → Type 0
  Ordered stopped last n [] = Unit {0}
  Ordered stopped last n (e ∷ es) =
      (n < e.id) × (e.id ≤ last) × EntryIsValid stopped e × Ordered stopped last e.id es

module _ {Job Result : Type 0} where
  pub drop-IsValid :
      (stopped : Bool) (e : Entry Job Result)
      → e.state ≡ queued
      → EntryIsValid stopped e
      → EntryIsValid stopped (drop e)
  drop-IsValid stopped e s v = record {
    job_held = λ h. cc;
    job_gone = λ _. refl;
    result_given = λ _ _. v.result_given (λ h. cc) (λ h. cc);
    marked_taken = λ h. ground (arith, v.marked_taken h);
    state_kept = λ h. cc;
  }

  start-IsValid :
      (stopped : Bool) (e : Entry Job Result)
      → e.state ≡ queued
      → EntryIsValid stopped e
      → EntryIsValid stopped (start e)
  start-IsValid stopped e s v = record {
    job_held = λ h. cc;
    job_gone = λ _. refl;
    result_given = λ _ _. v.result_given (λ h. cc) (λ h. cc);
    marked_taken = λ h. refl;
    state_kept = λ h. cc;
  }

  pub settle-IsValid :
      (stopped : Bool) (is_submitted : Bool) (result : Option Result) (e : Entry Job Result)
      → e.is_cancelled ≡ false
      → EntryIsValid stopped e
      → EntryIsValid stopped (settle is_submitted result e)
  settle-IsValid stopped is_submitted result e kept v = record {
    job_held = λ h _. ground arith;
    job_gone = λ h. ground arith;
    result_given = λ h k. ground (arith, h, k);
    marked_taken = λ h. cc;
    state_kept = λ h. ground arith;
  }

  pub set_cancelled-IsValid :
      (stopped : Bool) (e : Entry Job Result)
      → e.state ≡ submitting
      → EntryIsValid stopped e
      → EntryIsValid stopped (set_cancelled e)
  set_cancelled-IsValid stopped e s v = record {
    job_held = v.job_held;
    job_gone = v.job_gone;
    result_given = v.result_given;
    marked_taken = λ _. s;
    state_kept = v.state_kept;
  }

  fresh-IsValid :
      (stopped : Bool) (i : ℕ) (job : Job) (droppable : Bool)
      → EntryIsValid {Result = Result} stopped (fresh_entry i job droppable)
  fresh-IsValid stopped i job droppable = record {
    job_held = λ _ _. refl;
    job_gone = λ h. ground arith;
    result_given = λ _ _. refl;
    marked_taken = λ h. cc;
    state_kept = λ h. cc;
  }

  pub drop_superseded-Ordered :
      (stopped : Bool) (last n : ℕ) (es : List (Entry Job Result)) (row count : ℕ)
      → Ordered stopped last n es
      → Ordered stopped last n (drop_superseded es row count).0
  unfolding drop_superseded
  drop_superseded-Ordered stopped last n [] row count v = tt
  drop_superseded-Ordered stopped last n (e ∷ es) row count v = ground (
    arith,
    drop-IsValid stopped e,
    drop_superseded-Ordered stopped last e.id es row count v.3,
    drop_superseded-Ordered stopped last e.id es (u32 (row + 1)) (u64 (count + 1)) v.3,
  )

  pub append-Ordered :
      (stopped : Bool) (last n i : ℕ) (job : Job) (droppable : Bool) (es : List (Entry Job Result))
      → n ≤ last
      → last < i
      → Ordered stopped last n es
      → Ordered stopped i n (es ++ fresh_entry i job droppable ∷ [])
  append-Ordered stopped last n i job droppable [] l h v =
      (omega arith, omega arith, fresh-IsValid stopped i job droppable, tt)
  append-Ordered stopped last n i job droppable (e ∷ es) l h v =
      (v.0, omega arith, v.2, append-Ordered stopped last e.id i job droppable es v.1 h v.3)

  weaken-Ordered :
      (stopped : Bool) (last m n : ℕ) (es : List (Entry Job Result))
      → m ≤ n
      → Ordered stopped last n es
      → Ordered stopped last m es
  weaken-Ordered stopped last m n [] h v = tt
  weaken-Ordered stopped last m n (e ∷ es) h v = (omega arith, v.1, v.2, v.3)

  pub forget-Ordered :
      (stopped : Bool) (last n id : ℕ) (es : List (Entry Job Result))
      → Ordered stopped last n es
      → Ordered stopped last n (forget id es)
  unfolding forget
  forget-Ordered stopped last n id [] v = tt
  forget-Ordered stopped last n id (e ∷ es) v =
      ground
        (arith, weaken-Ordered stopped last n e.id es, forget-Ordered stopped last e.id id es v.3)

  pub take_entry-Ordered :
      (stopped : Bool) (last n : ℕ) (es : List (Entry Job Result))
      → Ordered stopped last n es
      → Ordered stopped last n (take_entry es).0
  unfolding take_entry
  take_entry-Ordered stopped last n [] v = tt
  take_entry-Ordered stopped last n (e ∷ es) v =
      ground (arith, start-IsValid stopped e, take_entry-Ordered stopped last e.id es v.3)

  pub find-IsValid :
      (stopped : Bool) (last n id : ℕ) (es : List (Entry Job Result)) {e : Entry Job Result}
      → Ordered stopped last n es
      → find id es ≡ some e
      → EntryIsValid stopped e × (e.id ≡ id)
  unfolding find
  find-IsValid stopped last n id [] v h = cc
  find-IsValid stopped last n id (x ∷ es) {e} v h =
      ground (arith, find-IsValid stopped last x.id id es {e = e} v.3)

  pub update-Ordered :
      (stopped : Bool) (last n id : ℕ) (f : Entry Job Result → Entry Job Result)
      (es : List (Entry Job Result))
      → ((e : Entry Job Result) → (f e).id ≡ e.id)
      → ((e : Entry Job Result) → find id es ≡ some e → EntryIsValid stopped (f e))
      → Ordered stopped last n es
      → Ordered stopped last n (update id f es)
  unfolding update find
  update-Ordered stopped last n id f [] same good v = tt
  update-Ordered stopped last n id f (e ∷ es) same good v = elim (Bool-cases (e.id == id)) [
    | inl hit ↦ rw hit (
      omega (arith, same e),
      omega (arith, same e),
      good e (rw hit),
      subst (λ k. Ordered stopped last k es) (sym (same e)) v.3,
    )
    | inr miss ↦ rw miss (
      v.0,
      v.1,
      v.2,
      update-Ordered stopped last e.id id f es same (λ x h. good x (rw miss h)) v.3,
    )
  ]

  let_go-IsValid :
      (stopped : Bool) (e : Entry Job Result)
      → EntryIsValid stopped e
      → EntryIsValid true (let_go e)
  let_go-IsValid stopped e v = elim (Bool-cases (is_queued e.state)) [
    | inl h ↦ rw h (record {
      job_held = λ _ t. cc;
      job_gone = λ _. refl;
      result_given = v.result_given;
      marked_taken = v.marked_taken;
      state_kept = v.state_kept;
    })
    | inr h ↦ rw h (record {
      job_held = λ _ t. cc;
      job_gone = v.job_gone;
      result_given = v.result_given;
      marked_taken = v.marked_taken;
      state_kept = v.state_kept;
    })
  ]

  pub let_go-Ordered :
      (stopped : Bool) (last n : ℕ) (es : List (Entry Job Result))
      → Ordered stopped last n es
      → Ordered true last n (map let_go es)
  let_go-Ordered stopped last n [] v = tt
  let_go-Ordered stopped last n (e ∷ es) v =
      ground (arith, let_go-IsValid stopped e v.2, let_go-Ordered stopped last e.id es v.3)

  pub drop_superseded_counts :
      (es : List (Entry Job Result)) (row count : ℕ)
      → row ≤ most_dropped_in_a_row
      → let r = drop_superseded es row count in
        (row ≤ r.1)
        × (r.1 ≤ most_dropped_in_a_row)
        × (u64 count ≡ count → r.2 ≡ u64 (count + (r.1 - row)))
  unfolding drop_superseded
  drop_superseded_counts [] row count h = omega arith
  drop_superseded_counts (e ∷ es) row count h = ground (
    arith,
    drop_superseded_counts es row count h,
    drop_superseded_counts es (u32 (row + 1)) (u64 (count + 1)),
  )

  pub forget-update :
      (id : ℕ) (f : Entry Job Result → Entry Job Result) (es : List (Entry Job Result))
      → ((e : Entry Job Result) → (f e).id ≡ e.id)
      → forget id (update id f es) ≡ forget id es
  unfolding forget update
  forget-update id f [] same = refl
  forget-update id f (e ∷ es) same = ground (arith, same e, forget-update id f es same)
