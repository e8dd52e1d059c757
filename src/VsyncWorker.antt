-- ===== src/VsyncWorker.antt =====
-- display/VSyncWorker.cpp: the state of the worker that gives out the blanks of a display, and the calls of
-- its client, one function per locked section. Times are nanoseconds as natural numbers without bound.
pub mod Thread
pub mod Steps
pub mod Settled
pub mod Exits
pub mod Calls
pub mod Periods
pub mod Phase
mod Tests
use android_hardware_nvidia.Prelude.{
  Bool, List, Option, [], false, if◌then◌else◌, is_some, leb, ltb, none, some, true, ℕ, ◌&&◌, ◌*◌,
  ◌+◌, ◌-◌, ◌/◌, ◌==◌, ◌||◌, ◌∷◌,
}

-- What the kernel tells of a fence.
pub record SyncFile : Type 0 where
  pub status : ℕ
  pub timestamps : List ℕ

pub record Worker (Fence Callback : Type 0) : Type 0 where
  pub has_source : Bool
  pub enabled : Bool
  pub thread_exit : Bool
  pub last_timestamp : Option ℕ
  pub vsync_period_ns : ℕ
  pub expected_period_ns : ℕ
  pub enable_vsync_timestamps : Bool
  pub display_on : Bool
  pub last_timestamp_is_fresh : Bool
  pub callback : Option Callback
  pub last_present_fence : Option Fence

abbrev pub default_period_ns : ℕ
default_period_ns = 16666666

abbrev pub value_or : ℕ → Option ℕ → ℕ
value_or d none = d
value_or d (some n) = n

-- How far apart two times are.
abbrev pub distance : ℕ → ℕ → ℕ
distance a b = (a - b) + (b - a)

-- The loop over the fences of a file.
unfoldable pub latest : ℕ → List ℕ → ℕ
latest timestamp [] = timestamp
latest timestamp (t ∷ ts) = latest (if leb timestamp t then t else timestamp) ts

unfoldable pub get_present_time :
    {Fence : Type 0} → (Fence → Option SyncFile) → Option Fence → Option ℕ
unfolding latest
get_present_time sync_file_info none = none
get_present_time sync_file_info (some fence) = elim (sync_file_info fence) [
  | none ↦ none
  | some file ↦ if file.status == 1 then some (latest 0 file.timestamps) else none
]

module _ {Fence Callback : Type 0} where
  -- A display that has a pipeline has a source.
  unfoldable pub create_instance : Bool → Worker Fence Callback
  create_instance has_pipe = record {
    has_source = has_pipe;
    enabled = false;
    thread_exit = false;
    last_timestamp = none;
    vsync_period_ns = default_period_ns;
    expected_period_ns = 0;
    enable_vsync_timestamps = false;
    display_on = true;
    last_timestamp_is_fresh = false;
    callback = none;
    last_present_fence = none;
  }

  unfoldable pub should_enable : Worker Fence Callback → Bool
  should_enable w = w.display_on && (w.enable_vsync_timestamps || is_some w.callback)

  unfoldable pub update_vsync_control : Worker Fence Callback → Worker Fence Callback
  unfolding should_enable
  update_vsync_control w = record w { enabled = should_enable w }

  unfoldable pub set_vsync_period_ns : ℕ → Worker Fence Callback → Worker Fence Callback
  set_vsync_period_ns period w = record w {
    vsync_period_ns = period;
    expected_period_ns = 0;
    last_timestamp = none;
    last_present_fence = none;
  }

  unfoldable pub expect_vsync_period_ns : ℕ → Worker Fence Callback → Worker Fence Callback
  expect_vsync_period_ns period w = record w {
    expected_period_ns = if period == w.vsync_period_ns then 0 else period;
  }

  unfoldable pub get_vsync_period_ns : Worker Fence Callback → ℕ
  get_vsync_period_ns w = w.vsync_period_ns

  unfoldable pub ran_at_expected_period : ℕ → Worker Fence Callback → Bool
  ran_at_expected_period ran w =
      leb (distance ran w.expected_period_ns) (w.expected_period_ns / 100)

  unfoldable pub lands_on_expected_period : ℕ → ℕ → Worker Fence Callback → Bool
  lands_on_expected_period previous timestamp w =
      leb (distance timestamp (previous + w.expected_period_ns)) (w.expected_period_ns / 5)

  unfoldable pub set_vsync_timestamp_tracking : Bool → Worker Fence Callback → Worker Fence Callback
  set_vsync_timestamp_tracking on w = record w {
    enable_vsync_timestamps = on;
    last_timestamp_is_fresh = if on then false else w.last_timestamp_is_fresh;
  }

  unfoldable pub get_last_vsync_timestamp : Worker Fence Callback → ℕ
  get_last_vsync_timestamp w = if w.last_timestamp_is_fresh then value_or 0 w.last_timestamp else 0

  unfoldable pub update_last_vsync_time_with_present_time :
      (Fence → Option SyncFile) → Worker Fence Callback → Worker Fence Callback
  unfolding get_present_time
  update_last_vsync_time_with_present_time sync_file_info w =
      let fence_time = get_present_time sync_file_info w.last_present_fence in
      if w.enabled then record w { last_present_fence = none } else record w {
        last_present_fence = none;
        last_timestamp =
            if ltb (value_or 0 w.last_timestamp) (value_or 0 fence_time)
            then fence_time
            else w.last_timestamp;
      }

  unfoldable pub set_display_on : Bool → Worker Fence Callback → Worker Fence Callback
  set_display_on on w = record w { display_on = on }

  unfoldable pub add_last_present_fence :
      Option Fence → Worker Fence Callback → Worker Fence Callback
  add_last_present_fence fence w = record w { last_present_fence = fence }

  unfoldable pub set_timestamp_callback :
      Option Callback → Worker Fence Callback → Worker Fence Callback
  set_timestamp_callback callback w = record w { callback = callback }

  unfoldable pub stop_thread : Worker Fence Callback → Worker Fence Callback
  stop_thread w = record w { thread_exit = true; enabled = false }

-- A division of integers goes towards nought.
unfoldable pub phased : ℕ → ℕ → Option ℕ → ℕ
phased frame_ns current none = current + frame_ns
phased frame_ns current (some last) =
    if leb last current
    then frame_ns * ((current - last) / frame_ns + 1) + last
    else last + frame_ns - frame_ns * ((last - current) / frame_ns)

-- With what the call leaves of the worker.
unfoldable pub get_phased_vsync :
    {Fence Callback : Type 0}
    → (Fence → Option SyncFile)
    → ℕ
    → ℕ
    → Worker Fence Callback
    → ℕ × Worker Fence Callback
unfolding update_last_vsync_time_with_present_time phased
get_phased_vsync sync_file_info frame_ns current w =
    let updated = update_last_vsync_time_with_present_time sync_file_info w in
    (phased frame_ns current updated.last_timestamp, updated)

unfoldable pub get_next_vsync_timestamp :
    {Fence Callback : Type 0}
    → (Fence → Option SyncFile)
    → ℕ
    → Worker Fence Callback
    → ℕ × Worker Fence Callback
unfolding get_phased_vsync
get_next_vsync_timestamp sync_file_info time w =
    get_phased_vsync sync_file_info w.vsync_period_ns time w
