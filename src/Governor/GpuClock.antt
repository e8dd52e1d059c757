-- ===== src/Governor/GpuClock.antt =====
-- governor/GpuClock.cpp: the floor of the GPU, a word written to its pm_qos node. The kernel is a
-- parameter: its state, whether it takes a word, and what the devfreq node reads, in hertz. Log lines
-- and traces are left out.
use mathlib.Core.Option
use android_hardware_nvidia.Prelude.{
  Bool, Option, arith, false, if◌then◌else◌, not, refl, true, ℕ, ◌%◌, ◌*◌, ◌/◌, ◌==◌, ◌^◌, ◌≡◌, ◌⊎◌,
}
use android_hardware_nvidia.Governor.FloorLane.{FloorActuator}

pub record GpuClock (Kernel : Type 0) : Type 0 where
  pub kernel : Kernel
  pub is_open : Bool
  pub floor_mhz : ℕ

module _ {Kernel : Type 0} (write_qos_word : Kernel → ℕ → Kernel × Bool) where
  -- A write that fails closes the node for good.
  unfoldable pub write : GpuClock Kernel → ℕ → GpuClock Kernel × Bool
  write c khz =
      if not c.is_open
      then (c, false)
      else let (k, took) = write_qos_word c.kernel khz in
        if took
        then (record c { kernel = k }, true)
        else (record { kernel = k; is_open = false; floor_mhz = 0 }, false)

  unfoldable pub set_floor : GpuClock Kernel → ℕ → GpuClock Kernel × Bool
  unfolding write
  set_floor c mhz =
      let (wrote, took) = write c (mhz * 1000 % 2 ^ 32) in
      if took then (record wrote { floor_mhz = mhz }, true) else (wrote, false)

  unfoldable pub release : GpuClock Kernel → GpuClock Kernel
  unfolding write
  release c = if c.floor_mhz == 0 then c else (write (record c { floor_mhz = 0 }) 0).0

  pub set_floor-took :
      (c : GpuClock Kernel) (mhz : ℕ)
      → (set_floor c mhz).1 ≡ true
      → (set_floor c mhz).0.floor_mhz ≡ mhz
  unfolding set_floor
  set_floor-took c mhz h = ground arith

  pub set_floor-gives_up :
      (c : GpuClock Kernel) (mhz : ℕ)
      → (set_floor c mhz).1 ≡ false
      → ((set_floor c mhz).0.floor_mhz ≡ c.floor_mhz) ⊎ ((set_floor c mhz).0.floor_mhz ≡ 0)
  unfolding set_floor
  set_floor-gives_up c mhz h = ground arith

  pub release-floor : (c : GpuClock Kernel) → (release c).floor_mhz ≡ 0
  unfolding release
  release-floor c = ground arith

  module _ (devfreq_hz : Kernel → Kernel × Option ℕ) where
    unfoldable pub current_mhz : GpuClock Kernel → GpuClock Kernel × Option ℕ
    current_mhz c =
        let (k, hz) = devfreq_hz c.kernel in
        (record c { kernel = k }, Option.map (λ n. n / 1000000 % 2 ^ 32) hz)

    pub current_mhz-floor : (c : GpuClock Kernel) → (current_mhz c).0.floor_mhz ≡ c.floor_mhz
    unfolding current_mhz
    current_mhz-floor c = refl

    abbrev pub gpu_actuator : FloorActuator
    gpu_actuator = record {
      State = GpuClock Kernel;
      usable = λ c. c.is_open;
      current_mhz = current_mhz;
      set_floor = set_floor;
      release = release;
      floor_mhz = λ c. c.floor_mhz;
      set_floor-true = set_floor-took;
      set_floor-false = set_floor-gives_up;
      current_mhz-floor = current_mhz-floor;
      release-floor = release-floor;
    }
