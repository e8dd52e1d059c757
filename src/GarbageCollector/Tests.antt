-- ===== src/GarbageCollector/Tests.antt =====
-- Runs of compositor/GarbageCollector.h, and the theorem about it at concrete jobs.
use android_hardware_nvidia.Prelude.{List, [], refl, true, ℕ, ◌∷◌, ◌≡◌}
use android_hardware_nvidia.GarbageCollector.{
  Event, init, post, posts, run, runs, step, stop, stops, take_job, thread_step, thread_steps,
}

abbrev history : List (Event ℕ)
history = posts 7 ∷ runs ∷ posts 8 ∷ runs ∷ stops ∷ []

history_ends :
    ((run init history).ran ≡ 7 ∷ []) × ((thread_steps 4 (run init history)).has_ended ≡ true)
unfolding run step init post stop thread_steps thread_step take_job
history_ends = (refl, refl)
