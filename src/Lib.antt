-- ===== src/Lib.antt =====
-- The hardware composer of the NVIDIA Tegra K1: the parts of it that decide, as functions on their state.
--
-- The service (hwc/, hwc2_device/) takes layers from the framework, plans a frame with the code of
-- compositor/, has an engine merge what the windows of the controller cannot show (tegra/, vk/), and
-- commits the frame; the governor (governor/) holds the clocks of the engines up for as long as the work
-- of a frame needs them. Modelled are the parts whose behaviour is their own logic:
--   JobQueue: compositor/JobQueue.h, the jobs between the planning thread and an engine's thread.
--     `queue`, `take`, `try_take`, `done`, `resolve`, `cancel` and `stop` are its calls.
--   Rect, Occlusion: compositor/Rect.h and compositor/Occlusion.cpp, what of each layer is seen:
--     `subtract`, `opaque_parts`, `show` and `resolve` are Subtract, OpaqueParts and Resolve.
--   MergeGroup: compositor/MergeGroup.cpp, which layers are merged in one turn of an engine:
--     `walk`, `record_choice` and `choose_merge_group` are Walk, Record and ChooseMergeGroup.
--   JoiningPlan: compositor/LayerToPlaneJoiningPlan.cpp, which plane shows which layer: Fit (`PlaceFirstFit`),
--     Steer (`PlaceSteered`, which takes its group from MergeGroup) and Create (the whole plan). A plane is
--     what its IsMerging and IsValidForLayer answer.
--   CompositionPlanner: compositor/GenericCompositionPlanner.cpp, which layers the client draws and which the
--     windows show: Ranges (`GetClientLayers`, the range of the client and the search that widens it) and
--     Validate (`ValidateDisplay`, the attempts one after another). What the display answers, its test of a
--     composition included, is the record Display.
--   PictureMemory: compositor/PictureMemory.cpp, whether a picture is the one that an engine drew last.
--   PartialRedraw: compositor/PartialRedraw.cpp, what of a buffer is drawn again: Gather (`Gather`, the parts
--     that an engine draws), History (`DamageHistory`), Plans (`Decide`) and Slots (`SlotPictures`). Whether a
--     member is scaled, and where a rectangle of its buffer lands, are float arithmetic and parameters; how an
--     engine draws a picture is the record Painter of its module Painter.
--   HdcpController and FlatteningController: compositor/HdcpController.cpp and
--     compositor/FlatteningController.cpp, each with its client's calls and the steps of its thread.
--   VsyncWorker: display/VSyncWorker.cpp, who is told of the blanks of a display, at which period, and when the
--     next is foretold: its calls, Thread (`ThreadFn`, a step at a time) and Steps (calls and steps in any order).
--   DisplayConfigs: hwc/HwcDisplayConfigs.cpp, the configurations of a display: `generate_display_configs` and
--     `sanitize_groups`. What is asked of a mode is the record Modes.
--   GarbageCollector: compositor/GarbageCollector.h, the thread that lets go of what others leave it.
--   ScratchPool: tegra/ScratchPool.cpp, the rotation of the buffers that merged frames land in.
--   Governor: ClockSteps (governor/ClockSteps.h), FenceWatch (governor/FenceWatch.cpp), FloorLane
--     (governor/FloorLane.cpp), EngineClock and GpuClock (governor/EngineClock.cpp,
--     governor/GpuClock.cpp), and Mailbox (governor/Mailbox.cpp). A lane reaches its clock through the
--     record FloorActuator, whose laws the two clocks prove.
--   CacheBudget: vk/CacheBudget.h, which image the cache of the compositor on the GPU lets go.
--   Prelude: tests on the native numbers, lists, and integers over them.
--
-- Conventions. A call that changes an object is a function from its state to its state, with what it
-- returns, closes or calls back beside it. A mutex is the sequence of the calls that hold it; a thread is
-- a state with a step, so that calls and steps fall in any order; what a thread does without the lock
-- is a step of its own. Times are nanoseconds of a clock as natural numbers, with nought for no time
-- where the source has it so, and no wrap-around of 64 bits. Counters and identities of the job queue,
-- the rates handed to the kernel, and the planner's counts of planes and pixels wrap at their width. Coordinates are integers without bound. The kernel, the
-- connector and the allocator are parameters, with the laws that their documentation gives. The
-- search of a merge group carries the budget of steps that the source gives it; the loops of `gather`, which
-- start again after each join, have as many rounds as there are parts, and a join leaves one part less;
-- every other loop is recursion on its list.
--
-- Not modelled: calls of the kernel, of Vulkan and of the vendor's library; float arithmetic; logs,
-- traces and statistics; the service itself, which is built of these parts.
pub mod CacheBudget
pub mod CompositionPlanner
pub mod DisplayConfigs
pub mod FlatteningController
pub mod GarbageCollector
pub mod Governor
pub mod HdcpController
pub mod JobQueue
pub mod JoiningPlan
pub mod MergeGroup
pub mod Occlusion
pub mod PartialRedraw
pub mod PictureMemory
pub mod Prelude
pub mod Rect
pub mod ScratchPool
pub mod VsyncWorker
