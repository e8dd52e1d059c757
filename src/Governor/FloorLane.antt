-- ===== src/Governor/FloorLane.antt =====
-- governor/FloorLane.cpp: one engine's clock floor and how long it stands. The actuator is an interface
-- that governor/EngineClock.cpp and governor/GpuClock.cpp implement; traces are left out.
pub mod Exits
pub mod Stranded
use android_hardware_nvidia.Governor.FenceWatch.{
  FenceWatch, PollSlot, Watched, add_all, append_poll_set, drop_all, is_watching_none, judge,
  next_give_up_ns,
}
use android_hardware_nvidia.Prelude.{
  Bool, List, Option, [], false, if◌then◌else◌, leb, length, ltb, none, not, some, true, ℕ, ℤ, ◌&&◌,
  ◌*◌, ◌+◌, ◌==◌, ◌||◌, ◌∷◌, ◌≡◌, ◌⊎◌,
}

-- A clock floor as the kernel takes it. `State` is the actuator with what it asks the kernel.
pub record FloorActuator : Type 1 where
  pub State : Type 0
  pub usable : State → Bool
  pub current_mhz : State → State × Option ℕ
  pub set_floor : State → ℕ → State × Bool
  pub release : State → State
  pub floor_mhz : State → ℕ
  pub set_floor-true :
      (s : State) (mhz : ℕ) → (set_floor s mhz).1 ≡ true → floor_mhz (set_floor s mhz).0 ≡ mhz
  pub set_floor-false :
      (s : State) (mhz : ℕ)
      → (set_floor s mhz).1 ≡ false
      → (floor_mhz (set_floor s mhz).0 ≡ floor_mhz s) ⊎ (floor_mhz (set_floor s mhz).0 ≡ 0)
  pub current_mhz-floor : (s : State) → floor_mhz (current_mhz s).0 ≡ floor_mhz s
  pub release-floor : (s : State) → floor_mhz (release s) ≡ 0

-- The fields of governor/Tuning.h that a lane reads.
pub record LaneTuning : Type 0 where
  pub hold_ms : ℕ
  pub orphan_ms : ℕ
  pub fence_patience_ms : ℕ

abbrev pub ns_per_ms : ℕ
ns_per_ms = 1000000

-- Times are nought if not set.
pub record FloorLane (State : Type 0) : Type 0 where
  pub actuator : State
  pub fences : FenceWatch
  pub first_slot : ℕ
  pub release_due_ns : ℕ
  pub orphan_due_ns : ℕ
  pub owed_mhz : ℕ

-- The lambda of `NextDueNs`.
abbrev pub consider : ℕ → ℕ → ℕ
consider due when' = if ltb 0 when' && (due == 0 || ltb when' due) then when' else due

module _ (a : FloorActuator) (t : LaneTuning) where
  open a use {State, usable, current_mhz, set_floor, release, floor_mhz}

  unfoldable pub has_reported : FloorLane State → ℕ → Bool
  has_reported l seq = leb seq l.fences.latest_seq

  unfoldable pub next_due_ns : FloorLane State → ℕ
  next_due_ns l =
      consider (consider (consider 0 l.release_due_ns) l.orphan_due_ns)
        (next_give_up_ns l.fences (t.fence_patience_ms * ns_per_ms))

  unfoldable pub append_slots : FloorLane State → List PollSlot → FloorLane State × List PollSlot
  append_slots l fds = (record l { first_slot = length fds }, append_poll_set l.fences fds)

  unfoldable pub reported : FloorLane State → FloorLane State
  reported l =
      let step = l.owed_mhz in
      let calm = record l { orphan_due_ns = 0; owed_mhz = 0 } in
      if step == 0 || not (usable l.actuator) || leb step (floor_mhz l.actuator)
      then calm
      else record calm { actuator = (set_floor l.actuator step).0 }

  -- The hold that starts when the last fence is done.
  abbrev pub start_hold : FloorLane State → Bool → ℕ → FloorLane State
  start_hold l any_done now =
      if any_done
        && is_watching_none l.fences
        && not (floor_mhz l.actuator == 0)
        && l.orphan_due_ns == 0
      then record l { release_due_ns = now + t.hold_ms * ns_per_ms }
      else l

  -- With the lane, the descriptors that it closed.
  unfoldable pub follow :
      FloorLane State → List PollSlot → List Watched → ℕ → FloorLane State × List ℤ
  follow l fds submitted now =
      let j = judge l.fences fds l.first_slot now (t.fence_patience_ms * ns_per_ms) in
      (start_hold (record l { fences = add_all j.watch submitted now }) j.any_done now, j.closed)

  -- Each test of `raised` is made only if the one before it passed.
  unfoldable pub raise : State → ℕ → State × Bool
  raise s step =
      let (read, current) = current_mhz s in
      if leb step (floor_mhz s)
      then (s, false)
      else if leb step (elim current [ none ↦ 0 | some mhz ↦ mhz ])
      then (read, false)
      else set_floor read step

  unfoldable pub ask : FloorLane State → ℕ → ℕ → Bool → ℕ → FloorLane State
  ask l step owed is_reported now =
      let (act, raised) = raise l.actuator step in
      let asked = record l { actuator = act; owed_mhz = owed } in
      if not raised && floor_mhz act == 0
      then asked
      else if not is_reported
      then record asked { release_due_ns = 0; orphan_due_ns = now + t.orphan_ms * ns_per_ms }
      else record asked {
        orphan_due_ns = 0;
        release_due_ns = if is_watching_none l.fences then now + t.hold_ms * ns_per_ms else 0;
      }

  unfoldable pub release_if_due : FloorLane State → ℕ → FloorLane State
  release_if_due l now =
      let held_long_enough = not (l.release_due_ns == 0) && leb l.release_due_ns now in
      let orphaned = not (l.orphan_due_ns == 0) && leb l.orphan_due_ns now in
      if floor_mhz l.actuator == 0 || not (is_watching_none l.fences)
      then l
      else if held_long_enough || orphaned
      then record l {
        release_due_ns = 0;
        orphan_due_ns = 0;
        owed_mhz = 0;
        actuator = release l.actuator;
      }
      else l

  unfoldable pub drop_lane : FloorLane State → FloorLane State × List ℤ
  drop_lane l =
      let (watch, closed) = drop_all l.fences in
      (
        record l {
          fences = watch;
          release_due_ns = 0;
          orphan_due_ns = 0;
          owed_mhz = 0;
          actuator = release l.actuator;
        },
        closed,
      )

-- What the thread of governor/TegraGovernor.cpp finds for a lane in a turn: the slots that others put
-- into the poll set before it, the poll set as it was answered, the reports of the round, and the step that its decision asks, if it asks one: the step, what is
-- owed, and whether the work was reported.
pub record Round : Type 0 where
  pub ahead : List PollSlot
  pub slots : List PollSlot
  pub reports : List Watched
  pub decision : Option (ℕ × ℕ × Bool)
  pub now : ℕ

module _ (a : FloorActuator) (t : LaneTuning) where
  open a use {State}

  unfoldable pub decide : FloorLane State → Option (ℕ × ℕ × Bool) → ℕ → FloorLane State
  decide l none now = l
  decide l (some (step, owed, is_reported)) now = ask a t l step owed is_reported now

  unfoldable pub take_reports : FloorLane State → List Watched → FloorLane State
  take_reports l [] = l
  take_reports l (_ ∷ _) = reported a t l

  -- One turn of the thread's loop, for one lane, while the display is on.
  unfoldable pub turn : FloorLane State → Round → FloorLane State
  turn l r =
      let l0 = (append_slots a t l r.ahead).0 in
      let l1 = take_reports l0 r.reports in
      let l2 = (follow a t l1 r.slots r.reports r.now).0 in
      release_if_due a t (decide l2 r.decision r.now) r.now

  unfoldable pub turns : FloorLane State → List Round → FloorLane State
  turns l [] = l
  turns l (r ∷ rs) = turns (turn l r) rs
