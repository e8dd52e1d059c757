-- ===== src/Governor/EngineClock.antt =====
-- governor/EngineClock.cpp: the floor of the VIC, requested through the descriptor of the engine.
-- The kernel is a parameter: its state, what it answers a clock request, and what the devfreq node
-- reads, in hertz. Log lines and traces are left out.
use mathlib.Core.Option
use android_hardware_nvidia.Prelude.{
  Bool, Option, arith, false, if◌then◌else◌, inl, not, refl, true, ℕ, ◌%◌, ◌&&◌, ◌*◌, ◌/◌, ◌==◌,
  ◌^◌, ◌≡◌,
}
use android_hardware_nvidia.Governor.FloorLane.{FloorActuator}

-- The errors that `Request` tells apart: EPERM, EACCES and ENODEV refuse the engine for good.
pub data Answer : Type 0 where
  granted : Answer
  refused_for_good : Answer
  failed_once : Answer

pub record EngineClock (Kernel : Type 0) : Type 0 where
  pub kernel : Kernel
  pub is_open : Bool
  pub is_refused : Bool
  pub floor_mhz : ℕ

module _ {Kernel : Type 0} (set_clk_rate : Kernel → ℕ → Kernel × Answer) where
  unfoldable pub is_usable : EngineClock Kernel → Bool
  is_usable c = c.is_open && not c.is_refused

  unfoldable pub note_answer : EngineClock Kernel → Kernel → Answer → EngineClock Kernel × Bool
  note_answer c k granted = (record c { kernel = k }, true)
  note_answer c k refused_for_good = (record c { kernel = k; is_refused = true }, false)
  note_answer c k failed_once = (record c { kernel = k }, false)

  unfoldable pub request : EngineClock Kernel → ℕ → EngineClock Kernel × Bool
  unfolding is_usable
  request c rate_hz =
      if not (is_usable c)
      then (c, false)
      else let (k, answer) = set_clk_rate c.kernel rate_hz in note_answer c k answer

  unfoldable pub set_floor : EngineClock Kernel → ℕ → EngineClock Kernel × Bool
  unfolding request
  set_floor c mhz =
      let (asked, took) = request c (mhz * 1000000 % 2 ^ 32) in
      if took then (record asked { floor_mhz = mhz }, true) else (asked, false)

  unfoldable pub release : EngineClock Kernel → EngineClock Kernel
  unfolding request
  release c = if c.floor_mhz == 0 then c else (request (record c { floor_mhz = 0 }) 0).0

  pub set_floor-took :
      (c : EngineClock Kernel) (mhz : ℕ)
      → (set_floor c mhz).1 ≡ true
      → (set_floor c mhz).0.floor_mhz ≡ mhz
  unfolding set_floor
  set_floor-took c mhz h = ground arith

  note_answer-floor :
      (c : EngineClock Kernel) (k : Kernel) (a : Answer)
      → (note_answer c k a).0.floor_mhz ≡ c.floor_mhz
  unfolding note_answer
  note_answer-floor c k granted = refl
  note_answer-floor c k refused_for_good = refl
  note_answer-floor c k failed_once = refl

  request-floor : (c : EngineClock Kernel) (rate : ℕ) → (request c rate).0.floor_mhz ≡ c.floor_mhz
  unfolding request
  request-floor c rate =
      ground
        (arith, note_answer-floor c (set_clk_rate c.kernel rate).0 (set_clk_rate c.kernel rate).1)

  pub set_floor-keeps :
      (c : EngineClock Kernel) (mhz : ℕ)
      → (set_floor c mhz).1 ≡ false
      → (set_floor c mhz).0.floor_mhz ≡ c.floor_mhz
  unfolding set_floor
  set_floor-keeps c mhz h = ground (arith, request-floor c (mhz * 1000000 % 2 ^ 32))

  pub release-floor : (c : EngineClock Kernel) → (release c).floor_mhz ≡ 0
  unfolding release
  release-floor c = ground (arith, request-floor (record c { floor_mhz = 0 }) 0)

  module _ (devfreq_hz : Kernel → Kernel × Option ℕ) where
    unfoldable pub current_mhz : EngineClock Kernel → EngineClock Kernel × Option ℕ
    current_mhz c =
        let (k, hz) = devfreq_hz c.kernel in
        (record c { kernel = k }, Option.map (λ n. n / 1000000 % 2 ^ 32) hz)

    pub current_mhz-floor : (c : EngineClock Kernel) → (current_mhz c).0.floor_mhz ≡ c.floor_mhz
    unfolding current_mhz
    current_mhz-floor c = refl

    abbrev pub engine_actuator : FloorActuator
    engine_actuator = record {
      State = EngineClock Kernel;
      usable = is_usable;
      current_mhz = current_mhz;
      set_floor = set_floor;
      release = release;
      floor_mhz = λ c. c.floor_mhz;
      set_floor-true = set_floor-took;
      set_floor-false = λ c mhz h. inl (set_floor-keeps c mhz h);
      current_mhz-floor = current_mhz-floor;
      release-floor = release-floor;
    }
