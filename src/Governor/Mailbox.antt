-- ===== src/Governor/Mailbox.antt =====
-- governor/Mailbox.cpp: what the composer leaves for the governor's thread. The eventfd is a parameter:
-- its state, and the write, the read and the readiness that the kernel gives it. A call that leaves
-- something is two functions: `plan` and the others are its section under the mutex, and `ring` is what it
-- does after it has let go of the mutex.
pub mod Calls
pub mod Deliveries
use android_hardware_nvidia.Prelude.{
  Bool, List, Option, [], false, if◌then◌else◌, is_nil, ltb_ℤ, none, not, pos, some, true, ℕ, ℤ,
  ◌++◌, ◌∷◌, ◌≡◌,
}
use android_hardware_nvidia.Governor.FenceWatch.{Watched}

pub data Power : Type 0 where
  off : Power
  doze : Power
  doze_suspend : Power
  suspend : Power
  on : Power

pub record Planned (Frame Member : Type 0) : Type 0 where
  pub frame : Frame
  pub members : List Member

pub record GpuPlan : Type 0 where
  pub seq : ℕ
  pub now_ns : ℕ
  pub pixels : ℕ

-- What rings, and how the kernel keeps it.
pub record Bell : Type 1 where
  pub State : Type 0
  pub ring : State → State
  pub drain : State → State
  pub is_readable : State → Bool
  pub is_readable-ring : (s : State) → is_readable (ring s) ≡ true

pub record Mailbox (State Frame Member : Type 0) : Type 0 where
  pub event : State
  pub pending : Option (Planned Frame Member)
  pub submitted : List Watched
  pub gpu_pending : Option GpuPlan
  pub gpu_submitted : List Watched
  pub power : Power
  pub stop : Bool

pub record Contents (Frame Member : Type 0) : Type 0 where
  pub planned : Option (Planned Frame Member)
  pub submitted : List Watched
  pub gpu_planned : Option GpuPlan
  pub gpu_submitted : List Watched
  pub power : Power
  pub stop : Bool

abbrev pub is_on : Power → Bool
is_on on = true
is_on _ = false

-- The descriptors of a list that are closed: the ones that are open.
abbrev pub open_fds : List Watched → List ℤ
open_fds [] = []
open_fds (w ∷ ws) = if ltb_ℤ w.fd (pos 0) then open_fds ws else w.fd ∷ open_fds ws

module _ (bell : Bell) {Frame Member : Type 0} where
  open bell use {State}

  unfoldable pub plan :
      Frame → List Member → Mailbox State Frame Member → Mailbox State Frame Member
  plan frame members m = record m { pending = some (record { frame = frame; members = members }) }

  unfoldable pub submit : Watched → Mailbox State Frame Member → Mailbox State Frame Member
  submit w m = record m { submitted = m.submitted ++ w ∷ [] }

  unfoldable pub plan_gpu : GpuPlan → Mailbox State Frame Member → Mailbox State Frame Member
  plan_gpu p m = record m { gpu_pending = some p }

  unfoldable pub submit_gpu : Watched → Mailbox State Frame Member → Mailbox State Frame Member
  submit_gpu w m = record m { gpu_submitted = m.gpu_submitted ++ w ∷ [] }

  unfoldable pub set_power : Power → Mailbox State Frame Member → Mailbox State Frame Member
  set_power mode m =
      let powered = record m { power = mode } in
      if is_on mode then powered else record powered { pending = none; gpu_pending = none }

  unfoldable pub ask_stop : Mailbox State Frame Member → Mailbox State Frame Member
  ask_stop m = record m { stop = true }

  -- `Ring`, which is not under the mutex.
  unfoldable pub ring : Mailbox State Frame Member → Mailbox State Frame Member
  ring m = record m { event = bell.ring m.event }

  unfoldable pub take :
      Bool → Mailbox State Frame Member → Mailbox State Frame Member × Contents Frame Member
  take rung m = (
    record m {
      event = if rung then bell.drain m.event else m.event;
      pending = none;
      submitted = [];
      gpu_pending = none;
      gpu_submitted = [];
    },
    record {
      planned = m.pending;
      submitted = m.submitted;
      gpu_planned = m.gpu_pending;
      gpu_submitted = m.gpu_submitted;
      power = m.power;
      stop = m.stop;
    },
  )

  unfoldable pub has_submitted : Mailbox State Frame Member → Bool
  has_submitted m = not (is_nil m.submitted)

  -- With the box, the descriptors that are closed.
  unfoldable pub discard : Mailbox State Frame Member → Mailbox State Frame Member × List ℤ
  discard m = (
    record m { submitted = []; gpu_submitted = []; pending = none; gpu_pending = none },
    open_fds m.submitted ++ open_fds m.gpu_submitted,
  )
