-- ===== src/ScratchPool.antt =====
-- tegra/ScratchPool.cpp: the buffers that merged frames land in, taken in turn. A slot is its index; what
-- is modelled of it is the fence by which the display has finished with it.
pub mod Rotation
mod Tests
use android_hardware_nvidia.Prelude.{
  Bool, Option, false, if◌then◌else◌, ltb, none, some, true, ℕ, ◌%◌, ◌&&◌, ◌+◌, ◌-◌, ◌==◌,
}

pub record ScratchPool (Fence : Type 0) : Type 0 where
  pub count : ℕ
  pub freed_when : ℕ → Option Fence
  pub at_slot : ℕ
  pub showing : ℕ
  pub anything_showing : Bool

module _ {Fence : Type 0} where
  -- The pool as `Create` makes it.
  unfoldable pub create : ℕ → ScratchPool Fence
  create count = record {
    count = count;
    freed_when = λ _. none;
    at_slot = 0;
    showing = 0;
    anything_showing = false;
  }

  -- With the pool, the slot handed out and its fence.
  unfoldable pub next : ScratchPool Fence → ScratchPool Fence × Option (ℕ × Option Fence)
  next p =
      if p.count == 0
      then (p, none)
      else let at_slot = (p.at_slot + 1) % p.count in
        (record p { at_slot = at_slot }, some (at_slot, p.freed_when at_slot))

  unfoldable pub rewind : ScratchPool Fence → ScratchPool Fence
  rewind p = if p.count == 0 then p else record p { at_slot = (p.at_slot + p.count - 1) % p.count }

  abbrev pub set_fence : ℕ → Option Fence → (ℕ → Option Fence) → ℕ → Option Fence
  set_fence i f freed j = if i == j then f else freed j

  unfoldable pub presented : Fence → ScratchPool Fence → ScratchPool Fence
  presented fence p =
      let replaced =
        if p.anything_showing && ltb p.showing p.count
        then set_fence p.showing (some fence) p.freed_when
        else p.freed_when in
      record p {
        freed_when = set_fence p.at_slot none replaced;
        showing = p.at_slot;
        anything_showing = true;
      }
