-- ===== src/JobQueue/Outcomes.antt =====
-- JobQueue.h: what a frame gets when it resolves its job, and what a stopped queue answers.
use android_hardware_nvidia.Prelude.{
  Bool, Option-cases, arith, false, inl, inr, none, some, true, ℕ, ◌||◌, ◌≡◌, ◌≤◌, ◌⊎◌,
}
use android_hardware_nvidia.JobQueue.{
  Entry, JobQueue, Outcome, collect, dropped, find, is_queued, is_submitting, no_outcome, queued,
  resolve, submitting, waits,
}

module _ {Job Result : Type 0} where
  -- What the entry that was asked for comes to: it came to rest, and its state and result are the answer; it
  -- waits for the worker, the frame will not wait, and it is dropped; or the queue was stopped first.
  abbrev pub ComesTo : JobQueue Job Result → Bool → Entry Job Result → Outcome Result → Type 0
  ComesTo q wait e o =
      ((is_queued e.state ≡ false)
        × ((is_submitting e.state ≡ false) × (o ≡ record { state = e.state; result = e.result })))
      ⊎ (((e.state ≡ queued)
            × ((wait ≡ false)
                × ((e.droppable ≡ true)
                    × ((q.dropped_in_a_row ≡ 0)
                        × (o ≡ record { state = dropped; result = none })))))
          ⊎ (((is_queued e.state || is_submitting e.state) ≡ true)
              × ((q.stopped ≡ true) × (o ≡ no_outcome))))

  abbrev pub IsOutcome : JobQueue Job Result → ℕ → Bool → Outcome Result → Type 0
  IsOutcome q id wait o =
      ((find id q.entries ≡ none) × (o ≡ no_outcome))
      ⊎ ((e : Entry Job Result) × ((find id q.entries ≡ some e) × ComesTo q wait e o))

  -- A frame waits only for a job that the worker still has to take or to submit, in a queue that runs;
  -- if it would not wait, that job may not be dropped. The wait changes nothing.
  pub resolve_waits :
      (q : JobQueue Job Result) (id : ℕ) (wait : Bool)
      → (resolve q id wait).1 ≡ waits
      → ((resolve q id wait).0 ≡ q)
        × (q.stopped ≡ false)
        × ((e : Entry Job Result) × (find id q.entries ≡ some e)
            × ((e.state ≡ submitting)
                ⊎ ((e.state ≡ queued)
                    × ((wait ≡ true) ⊎ (e.droppable ≡ false) ⊎ (1 ≤ q.dropped_in_a_row)))))
  unfolding resolve collect
  resolve_waits q id wait h = elim (Option-cases (find id q.entries)) [
    | inl gone ↦ ground arith
    | inr (e, here) ↦ (ground arith, ground arith, (e, here, ground arith))
  ]
