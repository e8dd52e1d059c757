-- ===== src/PartialRedraw/Slots.antt =====
-- compositor/PartialRedraw.cpp: the buffers that one engine draws into, each with what it holds and the
-- fence of its last drawing. The map of buffers is a function of their names.
use android_hardware_nvidia.PartialRedraw.Gather.{Engine}
use android_hardware_nvidia.PartialRedraw.History.{DamageHistory, record_damage}
use android_hardware_nvidia.PartialRedraw.Plans.{
  FloatMath, Kind, Plan, Snapshot, decide, full, no_reason, partly, unchanged,
}
use android_hardware_nvidia.Rect.{IRect, height, width}
use android_hardware_nvidia.Prelude.{
  List, Option, [], false, if◌then◌else◌, none, some, true, ℕ, ◌+◌, ◌==◌,
}
use android_hardware_nvidia.PictureMemory.{Member}

pub record Held (Group Fence : Type 0) : Type 0 where
  pub snapshot : Snapshot Group
  pub fence : Option Fence

pub record SlotPictures (Group Fence : Type 0) : Type 0 where
  pub engine : Engine
  pub slots : ℕ → Option (Held Group Fence)
  pub history : DamageHistory

-- Shown undrawn means shown against a fence; with none to name, it is drawn.
unfoldable pub with_fence : {Fence : Type 0} → Option Fence → Plan → Plan
with_fence (some f) plan = plan
with_fence none plan = elim plan.kind [ unchanged ↦ record plan { kind = full } | _ ↦ plan ]

unfoldable pub run_after : Kind → ℕ → ℕ
run_after partly run = run + 1
run_after unchanged run = run
run_after full run = 0

abbrev pub run_of : {Group Fence : Type 0} → Option (Held Group Fence) → ℕ
run_of none = 0
run_of (some h) = h.snapshot.partial_run

module _ (m : FloatMath) (Fence : Type 0) where
  open m use {floats}
  open floats use {Group}

  abbrev pub set_slot :
      ℕ
      → Option (Held Group Fence)
      → (ℕ → Option (Held Group Fence))
      → ℕ
      → Option (Held Group Fence)
  set_slot slot h slots i = if i == slot then h else slots i

  abbrev pub no_snapshot : Snapshot Group
  no_snapshot = record { valid = false; width = 0; height = 0; members = []; partial_run = 0 }

  unfoldable pub record_member :
      Member Group → List IRect → SlotPictures Group Fence → SlotPictures Group Fence
  record_member n damage s = record s {
    history = record_damage n.serial n.generation damage s.history;
  }

  unfoldable pub decide_slot : SlotPictures Group Fence → ℕ → ℕ → ℕ → List (Member Group) → Plan
  unfolding with_fence
  decide_slot s slot width height members = elim (s.slots slot) [
    | none ↦ record { kind = full; why = no_reason; parts = [] }
    | some h ↦ with_fence h.fence (decide m h.snapshot width height members s.history s.engine)
  ]

  unfoldable pub drawn_slot :
      ℕ
      → ℕ
      → ℕ
      → List (Member Group)
      → Plan
      → Option Fence
      → SlotPictures Group Fence
      → SlotPictures Group Fence
  unfolding run_after
  drawn_slot slot width height members plan fence s =
      let run = run_of (s.slots slot) in
      record s {
        slots =
            set_slot slot
              (some (record {
                snapshot = record {
                  valid = true;
                  width = width;
                  height = height;
                  members = members;
                  partial_run = run_after plan.kind run;
                };
                fence = fence;
              }))
              s.slots;
      }

  abbrev pub invalid : Held Group Fence → Held Group Fence
  invalid h = record {
    snapshot = record {
      valid = false;
      width = h.snapshot.width;
      height = h.snapshot.height;
      members = h.snapshot.members;
      partial_run = h.snapshot.partial_run;
    };
    fence = h.fence;
  }

  unfoldable pub lose_slot : ℕ → SlotPictures Group Fence → SlotPictures Group Fence
  lose_slot slot s = elim (s.slots slot) [
    | none ↦ s
    | some h ↦ record s { slots = set_slot slot (some (invalid h)) s.slots }
  ]

  unfoldable pub fence_of : SlotPictures Group Fence → ℕ → Option Fence
  fence_of s slot = elim (s.slots slot) [ none ↦ none | some h ↦ h.fence ]
