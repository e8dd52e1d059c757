-- ===== src/Governor/FloorLane/Stranded.antt =====
-- FloorLane.cpp: what becomes of a floor when the fences of the work that was reported could not be
-- copied.
use mathlib.Core.Path.{subst}
use android_hardware_nvidia.Governor.FloorLane.Exits.{next_give_up_none}
use android_hardware_nvidia.Prelude.{
  List, [], ap, arith, false, ltb_ℤ, none, pos, refl, sym, true, ℕ, ◌*◌, ◌∙◌, ◌∷◌, ◌≡◌, ◌≢◌,
}
use android_hardware_nvidia.Governor.FenceWatch.{
  FenceWatch, PollSlot, Watched, add, add_all, judge, judge_from,
}
use android_hardware_nvidia.Governor.FloorLane.{
  FloorActuator, FloorLane, LaneTuning, Round, append_slots, decide, follow, next_due_ns, ns_per_ms,
  release_if_due, reported, take_reports, turn, turns,
}

-- Reports, each without a fence.
abbrev pub AllFailed : List Watched → Type 0
AllFailed [] = Unit {0}
AllFailed (w ∷ ws) = (ltb_ℤ w.fd (pos 0) ≡ true) × AllFailed ws

-- Rounds in which nothing is reported and nothing is asked of the lane.
abbrev pub AllIdle : List Round → Type 0
AllIdle [] = Unit {0}
AllIdle (r ∷ rs) = ((r.reports ≡ []) × (r.decision ≡ none)) × AllIdle rs

add_all-none :
    (w : FenceWatch) (ws : List Watched) (now : ℕ)
    → AllFailed ws
    → (add_all w ws now).watched ≡ w.watched
unfolding add_all
add_all-none w [] now h = refl
add_all-none w (x ∷ ws) now (h, hs) =
    add_all-none (add w x.fd x.seq now) ws now hs ∙ unfold add in ground arith

judge_nothing :
    (w : FenceWatch) (fds : List PollSlot) (slot now patience : ℕ)
    → w.watched ≡ []
    → let j = judge w fds slot now patience in (j.watch.watched ≡ []) × (j.any_done ≡ false)
unfolding judge
judge_nothing w fds slot now patience h = rw h (unfold judge_from in (refl, refl))

module _ (a : FloorActuator) (t : LaneTuning) where
  open a use {State, floor_mhz}

  -- No fence is watched and no timer runs.
  abbrev pub IsUnattended : FloorLane State → Type 0
  IsUnattended l = (l.fences.watched ≡ []) × ((l.release_due_ns ≡ 0) × (l.orphan_due_ns ≡ 0))

  -- Whether a fence is done is asked of none.
  follow_failed :
      (l : FloorLane State) (fds : List PollSlot) (ws : List Watched) (now : ℕ)
      → AllFailed ws
      → IsUnattended l
      → IsUnattended (follow a t l fds ws now).0
        × ((follow a t l fds ws now).0.actuator ≡ l.actuator)
  unfolding follow
  follow_failed l fds ws now f (w, (r, o)) =
      let p = t.fence_patience_ms * ns_per_ms in
      let j = judge l.fences fds l.first_slot now p in
      let quiet = judge_nothing l.fences fds l.first_slot now p w in
      ground (arith, quiet, add_all-none j.watch ws now f)

  follow_idle :
      (l : FloorLane State) (fds : List PollSlot) (now : ℕ)
      → IsUnattended l
      → (IsUnattended (follow a t l fds [] now).0)
        × ((follow a t l fds [] now).0.actuator ≡ l.actuator)
  follow_idle l fds now u = follow_failed l fds [] now tt u

  release_keeps : (l : FloorLane State) (now : ℕ) → IsUnattended l → release_if_due a t l now ≡ l
  unfolding release_if_due
  release_keeps l now (w, (r, o)) = ground arith

  -- The lane once its slots are in the poll set.
  abbrev opened : FloorLane State → Round → FloorLane State
  opened l r = (append_slots a t l r.ahead).0

  reported-opened :
      (l : FloorLane State) (r : Round)
      → (reported a t (opened l r)).actuator ≡ (reported a t l).actuator
  unfolding reported append_slots
  reported-opened l r = ground arith

  turn_failed :
      (l : FloorLane State) (r : Round)
      → AllFailed r.reports
      → r.decision ≡ none
      → IsUnattended (take_reports a t (opened l r) r.reports)
      → IsUnattended (turn a t l r)
        × ((turn a t l r).actuator ≡ (take_reports a t (opened l r) r.reports).actuator)
  unfolding turn
  turn_failed l r f d u =
      let m = (follow a t (take_reports a t (opened l r) r.reports) r.slots r.reports r.now).0 in
      let (v, e) =
        follow_failed (take_reports a t (opened l r) r.reports) r.slots r.reports r.now f u in
      rw (d) (unfold decide in rw (release_keeps m r.now v) (v, e))

  reported-IsUnattended :
      (l : FloorLane State)
      → l.fences.watched ≡ []
      → l.release_due_ns ≡ 0
      → IsUnattended (reported a t l)
  unfolding reported
  reported-IsUnattended l w r = ground arith

  idle_stands :
      (l : FloorLane State) (rs : List Round)
      → AllIdle rs
      → IsUnattended l
      → IsUnattended (turns a t l rs) × ((turns a t l rs).actuator ≡ l.actuator)
  unfolding turns
  idle_stands l [] i u = (u, refl)
  idle_stands l (r ∷ rs) ((n, d), i) u =
      let (v, e) = turn_failed l r (subst AllFailed (sym n) tt) d (
        subst (λ ws. IsUnattended (take_reports a t (opened l r) ws)) (sym n)
          (unfold take_reports append_slots in u)) in
      let (v', e') = idle_stands (turn a t l r) rs i v in
      (
        v',
        e'
            ∙ e
            ∙ ap (λ ws. (take_reports a t (opened l r) ws).actuator) n
            ∙ unfold take_reports append_slots in refl,
      )

  take_some :
      (l : FloorLane State) (ws : List Watched) → ws ≢ [] → take_reports a t l ws ≡ reported a t l
  unfolding take_reports
  take_some l [] h = absurd (h refl)
  take_some l (_ ∷ _) h = refl

  unattended_due : (l : FloorLane State) → IsUnattended l → next_due_ns a t l ≡ 0
  unfolding next_due_ns
  unattended_due l (w, (r, o)) =
      ground (arith, next_give_up_none l.fences (t.fence_patience_ms * ns_per_ms) (rw w refl))

  -- A lane with no fence to follow and no hold running is told of work whose fences could not be copied,
  -- and nothing is asked of it then or later. Then however many rounds go by, at whatever times, its
  -- floor stays what it was when the reports came, and the thread has no time to wake at for it.
  pub floor_is_stranded :
      (l : FloorLane State) (r : Round) (rs : List Round)
      → (r.reports ≢ []) × AllFailed r.reports
      → r.decision ≡ none
      → AllIdle rs
      → (l.fences.watched ≡ []) × (l.release_due_ns ≡ 0)
      → let m = turns a t l (r ∷ rs) in
        (floor_mhz m.actuator ≡ floor_mhz (reported a t l).actuator) × (next_due_ns a t m ≡ 0)
  unfolding turns
  floor_is_stranded l r rs (some_reports, f) d i (w, n) =
      let told = take_some (opened l r) r.reports some_reports in
      let (v, e) = turn_failed l r f d (
        subst IsUnattended (sym told) (
          reported-IsUnattended (opened l r) (unfold append_slots in w)
            (unfold append_slots in n))) in
      let (v', e') = idle_stands (turn a t l r) rs i v in
      (
        ap floor_mhz (e' ∙ e ∙ ap (λ m. m.actuator) told ∙ reported-opened l r),
        unattended_due (turns a t (turn a t l r) rs) v',
      )
