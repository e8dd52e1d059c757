-- ===== src/Governor/FloorLane/Exits.antt =====
-- FloorLane.cpp: a floor that stands has a time by which it goes.
use android_hardware_nvidia.Governor.FenceWatch.{
  FenceWatch, PollSlot, Watched, add, add_all, any_closed, earliest_from, is_watching_none, judge,
  judge_from, next_give_up_ns,
}
use android_hardware_nvidia.Prelude.{
  Bool, Bool-cases, List, Option, [], arith, false, if◌then◌else◌, inl, inr, is_nil,
  is_nil-append_one, ltb, ltb_ℤ, none, not, pos, refl, some, true, ℕ, ℤ, ◌*◌, ◌+◌, ◌<◌, ◌==◌, ◌||◌,
  ◌∷◌, ◌≡◌, ◌⊎◌,
}
use android_hardware_nvidia.Governor.FloorLane.{
  FloorActuator, FloorLane, LaneTuning, Round, append_slots, ask, decide, follow, next_due_ns,
  ns_per_ms, raise, release_if_due, start_hold, take_reports, turn, turns,
}

-- A round with reports has at least one whose fence was copied.
abbrev pub has_copy : List Watched → Bool
has_copy [] = false
has_copy (w ∷ ws) = not (ltb_ℤ w.fd (pos 0)) || has_copy ws

abbrev pub IsFenced : Round → Type 0
IsFenced r = (0 < r.now) × ((r.reports ≡ []) ⊎ (has_copy r.reports ≡ true))

abbrev pub AllFenced : List Round → Type 0
AllFenced [] = Unit {0}
AllFenced (r ∷ rs) = IsFenced r × AllFenced rs

add_watches :
    (w : FenceWatch) (fd : ℤ) (seq now : ℕ)
    → is_watching_none w ≡ false
    → is_watching_none (add w fd seq now) ≡ false
unfolding add
add_watches w fd seq now h =
    ground (arith, is_nil-append_one w.watched (record { fd = fd; seq = seq; since_ns = now }))

add_all_watches :
    (w : FenceWatch) (ws : List Watched) (now : ℕ)
    → is_watching_none w ≡ false
    → is_watching_none (add_all w ws now) ≡ false
unfolding add_all
add_all_watches w [] now h = h
add_all_watches w (x ∷ ws) now h =
    add_all_watches (add w x.fd x.seq now) ws now (add_watches w x.fd x.seq now h)

add_watches_copy :
    (w : FenceWatch) (fd : ℤ) (seq now : ℕ)
    → ltb_ℤ fd (pos 0) ≡ false
    → is_watching_none (add w fd seq now) ≡ false
unfolding add
add_watches_copy w fd seq now h =
    ground (arith, is_nil-append_one w.watched (record { fd = fd; seq = seq; since_ns = now }))

-- A fence that was copied is watched from the round of its report on.
add_all_copy :
    (w : FenceWatch) (ws : List Watched) (now : ℕ)
    → has_copy ws ≡ true
    → is_watching_none (add_all w ws now) ≡ false
unfolding add_all
add_all_copy w [] now h = cc
add_all_copy w (x ∷ ws) now h = elim (Bool-cases (ltb_ℤ x.fd (pos 0))) [
  | inl failed ↦ add_all_copy (add w x.fd x.seq now) ws now (ground arith)
  | inr copied ↦
      add_all_watches (add w x.fd x.seq now) ws now (add_watches_copy w x.fd x.seq now copied)
]

-- As long as a fence was watched before, either one still is or one was closed.
judge_from_done :
    (fds : List PollSlot) (slot now_ns patience_ns : ℕ) (ws : List Watched)
    → is_nil ws ≡ false
    → let r = judge_from fds slot now_ns patience_ns ws in
      (is_nil r.0 ≡ false) ⊎ (any_closed r.1 ≡ true)
unfolding judge_from
judge_from_done fds slot now_ns patience_ns [] h = cc
judge_from_done fds slot now_ns patience_ns (w ∷ ws) h = ground arith

module _ (a : FloorActuator) (t : LaneTuning) where
  open a use {State, floor_mhz}

  -- A floor that stands is followed by a fence, or has its release or its orphan timer running.
  abbrev pub HasExit : FloorLane State → Type 0
  HasExit l =
      (floor_mhz l.actuator ≡ 0)
      ⊎ ((is_watching_none l.fences ≡ false) ⊎ ((0 < l.release_due_ns) ⊎ (0 < l.orphan_due_ns)))

  raise_floor :
      (s : State) (step : ℕ)
      → ((raise a t s step).1 ≡ true)
        ⊎ ((floor_mhz (raise a t s step).0 ≡ floor_mhz s) ⊎ (floor_mhz (raise a t s step).0 ≡ 0))
  unfolding raise
  raise_floor s step =
      ground (arith, a.current_mhz-floor s, a.set_floor-false (a.current_mhz s).0 step)

  ask-HasExit :
      (l : FloorLane State) (step owed : ℕ) (is_reported : Bool) (now : ℕ)
      → 0 < now
      → HasExit (ask a t l step owed is_reported now)
  unfolding ask
  ask-HasExit l step owed is_reported now h = ground arith

  release_if_due-HasExit :
      (l : FloorLane State) (now : ℕ) → HasExit l → HasExit (release_if_due a t l now)
  unfolding release_if_due
  release_if_due-HasExit l now h = ground (arith, a.release-floor l.actuator)

  -- A round with no report: the fences that are done are closed, and the hold starts with the last.
  follow-HasExit_idle :
      (l : FloorLane State) (fds : List PollSlot) (now : ℕ)
      → 0 < now
      → HasExit l
      → HasExit (follow a t l fds [] now).0
  unfolding follow judge add_all
  follow-HasExit_idle l fds now h v = ground (
    arith,
    judge_from_done fds l.first_slot now (t.fence_patience_ms * ns_per_ms) l.fences.watched,
  )

  follow-HasExit_copy :
      (l : FloorLane State) (fds : List PollSlot) (ws : List Watched) (now : ℕ)
      → has_copy ws ≡ true
      → HasExit (follow a t l fds ws now).0
  unfolding follow
  follow-HasExit_copy l fds ws now h =
      let j = judge l.fences fds l.first_slot now (t.fence_patience_ms * ns_per_ms) in
      inr (
        inl (
          follow_watches (record l { fences = add_all j.watch ws now }) j.any_done now
            (add_all_copy j.watch ws now h)))
    where
      follow_watches :
          (m : FloorLane State) (b : Bool) (now : ℕ)
          → is_watching_none m.fences ≡ false
          → is_watching_none (start_hold a t m b now).fences ≡ false
      follow_watches m b now k = ground arith

  reports-HasExit :
      (l : FloorLane State) (r : Round)
      → IsFenced r
      → HasExit l
      → HasExit (follow a t (take_reports a t l r.reports) r.slots r.reports r.now).0
  reports-HasExit l r (later, reports) v = go r.reports reports
    where
      go :
          (ws : List Watched)
          → (ws ≡ []) ⊎ (has_copy ws ≡ true)
          → HasExit (follow a t (take_reports a t l ws) r.slots ws r.now).0
      go [] _ = unfold take_reports in follow-HasExit_idle l r.slots r.now later v
      go (w ∷ ws) (inl e) = cc
      go (w ∷ ws) (inr copy) = follow-HasExit_copy _ r.slots (w ∷ ws) r.now copy

  turn-HasExit : (l : FloorLane State) (r : Round) → IsFenced r → HasExit l → HasExit (turn a t l r)
  unfolding turn
  turn-HasExit l r f v =
      let m =
        (follow a t (take_reports a t (append_slots a t l r.ahead).0 r.reports) r.slots r.reports
          r.now).0 in
      release_if_due-HasExit _ r.now (
        decided m r.decision
          (reports-HasExit (append_slots a t l r.ahead).0 r f (unfold append_slots in v)))
    where
      decided :
          (m : FloorLane State) (d : Option (ℕ × ℕ × Bool))
          → HasExit m
          → HasExit (decide a t m d r.now)
      decided m none k = unfold decide in k
      decided m (some (step, owed, is_reported)) k =
          unfold decide in ask-HasExit m step owed is_reported r.now f.0

  pub turns-HasExit :
      (l : FloorLane State) (rs : List Round) → AllFenced rs → HasExit l → HasExit (turns a t l rs)
  unfolding turns
  turns-HasExit l [] f v = v
  turns-HasExit l (r ∷ rs) f v = turns-HasExit (turn a t l r) rs f.1 (turn-HasExit l r f.0 v)

earliest_from_pos :
    (patience earliest : ℕ) (ws : List Watched)
    → 0 < patience
    → (0 < earliest) ⊎ (is_nil ws ≡ false)
    → 0 < earliest_from patience earliest ws
unfolding earliest_from
earliest_from_pos patience earliest [] p h = ground arith
earliest_from_pos patience earliest (w ∷ ws) p h =
    earliest_from_pos patience
      (if earliest == 0 || ltb (w.since_ns + patience) earliest
        then w.since_ns + patience
        else earliest)
      ws p (inl (ground arith))

next_give_up_pos :
    (w : FenceWatch) (patience : ℕ)
    → 0 < patience
    → is_watching_none w ≡ false
    → 0 < next_give_up_ns w patience
unfolding next_give_up_ns
next_give_up_pos w patience p h = earliest_from_pos patience 0 w.watched p (inr h)

pub next_give_up_none :
    (w : FenceWatch) (patience : ℕ) → is_watching_none w ≡ true → next_give_up_ns w patience ≡ 0
unfolding next_give_up_ns
next_give_up_none w patience h = go w.watched h
  where
    go : (ws : List Watched) → is_nil ws ≡ true → earliest_from patience 0 ws ≡ 0
    go [] k = refl
    go (x ∷ ws) k = cc

module _ (a : FloorActuator) (t : LaneTuning) where
  open a use {State, floor_mhz}

  due_release :
      (m : FloorLane State)
      → (0 < m.release_due_ns) ⊎ (0 < m.orphan_due_ns)
      → is_watching_none m.fences ≡ true
      → floor_mhz (release_if_due a t m (next_due_ns a t m)).actuator ≡ 0
  unfolding next_due_ns release_if_due
  due_release m timed k = ground (
    arith,
    a.release-floor m.actuator,
    next_give_up_none m.fences (t.fence_patience_ms * ns_per_ms) k,
  )

  -- Over any rounds of the thread in which each group of reports has at least one fence that could be
  -- copied, a lane keeps to this: while its floor stands, the thread has a time to wake at for it, and
  -- once no fence is watched any more the floor goes at that time.
  pub floor_goes :
      (l : FloorLane State) (rs : List Round)
      → AllFenced rs
      → 0 < t.fence_patience_ms
      → HasExit a t l
      → let m = turns a t l rs in
        (floor_mhz m.actuator ≡ 0)
        ⊎ ((0 < next_due_ns a t m)
            × (is_watching_none m.fences ≡ true
                → floor_mhz (release_if_due a t m (next_due_ns a t m)).actuator ≡ 0))
  unfolding next_due_ns
  floor_goes l rs f p v = goes (turns a t l rs) (turns-HasExit a t l rs f v)
    where
      goes :
          (m : FloorLane State)
          → HasExit a t m
          → (floor_mhz m.actuator ≡ 0)
            ⊎ ((0 < next_due_ns a t m)
                × (is_watching_none m.fences ≡ true
                    → floor_mhz (release_if_due a t m (next_due_ns a t m)).actuator ≡ 0))
      goes m (inl off) = inl off
      goes m (inr (inl watching)) =
          let next =
            next_give_up_pos m.fences (t.fence_patience_ms * ns_per_ms) (omega arith) watching in
          inr (ground arith, λ k. cc)
      goes m (inr (inr timed)) = inr (ground arith, λ k. due_release m timed k)
