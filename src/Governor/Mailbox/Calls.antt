-- ===== src/Governor/Mailbox/Calls.antt =====
-- Mailbox.cpp: the calls of the composer and of the thread, in any order of their sections and rings.
use android_hardware_nvidia.Governor.Mailbox.{
  Bell, Contents, GpuPlan, Mailbox, Planned, Power, ask_stop, is_on, plan, plan_gpu, ring,
  set_power, submit, submit_gpu, take,
}
use android_hardware_nvidia.Prelude.{
  Bool, List, Option, [], false, if◌then◌else◌, none, some, suc, true, ℕ, ◌++◌, ◌-◌, ◌<◌, ◌==◌, ◌∷◌,
  ◌≡◌, ◌⊎◌,
}
use android_hardware_nvidia.Governor.FenceWatch.{Watched}

-- The sections of the composer's calls and of the thread's under the mutex, and the rings, which the calls
-- make afterwards: in the order in which they happen.
pub data Call (Frame Member : Type 0) : Type 0 where
  plans : Frame → List Member → Call Frame Member
  submits : Watched → Call Frame Member
  plans_gpu : GpuPlan → Call Frame Member
  submits_gpu : Watched → Call Frame Member
  powers : Power → Call Frame Member
  stops : Call Frame Member
  takes : Bool → Call Frame Member
  rings : Call Frame Member

module _ {Frame Member : Type 0} where
  -- The work that is reported to the box.
  abbrev pub reported_of : List (Call Frame Member) → List Watched
  reported_of [] = []
  reported_of (submits w ∷ cs) = w ∷ reported_of cs
  reported_of (_ ∷ cs) = reported_of cs

  abbrev pub reported_gpu_of : List (Call Frame Member) → List Watched
  reported_gpu_of [] = []
  reported_gpu_of (submits_gpu w ∷ cs) = w ∷ reported_gpu_of cs
  reported_gpu_of (_ ∷ cs) = reported_gpu_of cs

  -- The plan that stands after the calls: the last one, unless it was taken or the display went dark.
  abbrev pub standing :
      Option (Planned Frame Member) → List (Call Frame Member) → Option (Planned Frame Member)
  standing p [] = p
  standing p (plans frame members ∷ cs) =
      standing (some (record { frame = frame; members = members })) cs
  standing p (takes _ ∷ cs) = standing none cs
  standing p (powers mode ∷ cs) = standing (if is_on mode then p else none) cs
  standing p (_ ∷ cs) = standing p cs

  -- The same of the GPU's plan.
  abbrev pub standing_gpu : Option GpuPlan → List (Call Frame Member) → Option GpuPlan
  standing_gpu p [] = p
  standing_gpu p (plans_gpu q ∷ cs) = standing_gpu (some q) cs
  standing_gpu p (takes _ ∷ cs) = standing_gpu none cs
  standing_gpu p (powers mode ∷ cs) = standing_gpu (if is_on mode then p else none) cs
  standing_gpu p (_ ∷ cs) = standing_gpu p cs

-- A box, the calls that have let go of the mutex and not rung yet, and whether a call was made since the
-- thread last took.
pub record Post (State Frame Member : Type 0) : Type 0 where
  pub box : Mailbox State Frame Member
  pub rings_due : ℕ
  pub is_unseen : Bool

abbrev pub left :
    {State Frame Member : Type 0}
    → Mailbox State Frame Member
    → Post State Frame Member
    → Post State Frame Member
left m p = record { box = m; rings_due = suc p.rings_due; is_unseen = true }

module _ (bell : Bell) {Frame Member : Type 0} where
  open bell use {State}

  -- One step: the box after it, and what the thread took.
  abbrev pub call :
      Post State Frame Member
      → Call Frame Member
      → Post State Frame Member × List (Contents Frame Member)
  call p (plans frame members) = (left (plan bell frame members p.box) p, [])
  call p (submits w) = (left (submit bell w p.box) p, [])
  call p (plans_gpu q) = (left (plan_gpu bell q p.box) p, [])
  call p (submits_gpu w) = (left (submit_gpu bell w p.box) p, [])
  call p (powers mode) = (left (set_power bell mode p.box) p, [])
  call p stops = (left (ask_stop bell p.box) p, [])
  call p (takes rung) =
      let (m, got) = take bell rung p.box in (record p { box = m; is_unseen = false }, got ∷ [])
  call p rings = (
    if p.rings_due == 0 then p else record p { box = ring bell p.box; rings_due = p.rings_due - 1 },
    [],
  )

  unfoldable pub calls :
      Post State Frame Member
      → List (Call Frame Member)
      → Post State Frame Member × List (Contents Frame Member)
  calls p [] = (p, [])
  calls p (c ∷ cs) = let rest = calls (call p c).0 cs in (rest.0, (call p c).1 ++ rest.1)

  abbrev pub got_of : List (Contents Frame Member) → List Watched
  got_of [] = []
  got_of (c ∷ cs) = c.submitted ++ got_of cs

  abbrev pub got_gpu_of : List (Contents Frame Member) → List Watched
  got_gpu_of [] = []
  got_gpu_of (c ∷ cs) = c.gpu_submitted ++ got_gpu_of cs

  abbrev pub IsEmptied : Mailbox State Frame Member → Type 0
  IsEmptied m =
      (m.pending ≡ none) × (m.gpu_pending ≡ none) × (m.submitted ≡ []) × (m.gpu_submitted ≡ [])

  -- The thread has seen every call and nothing is left; or its descriptor reads as ready, or a call that was
  -- made has still to ring.
  abbrev pub IsRung : Post State Frame Member → Type 0
  IsRung p =
      ((p.is_unseen ≡ false) × IsEmptied p.box)
      ⊎ ((bell.is_readable p.box.event ≡ true) ⊎ (0 < p.rings_due))
