-- ===== src/GarbageCollector/Runs.antt =====
-- GarbageCollector.h: every job runs, in the order posted.
use android_hardware_nvidia.Prelude.{
  List, Option, [], false, length, none, some, true, ℕ, ◌*◌, ◌++◌, ◌+◌, ◌∷◌, ◌≡◌, ◌⊎◌,
}
use android_hardware_nvidia.GarbageCollector.{Event, GarbageCollector, posts, step}

module _ {Job : Type 0} where
  abbrev pub posted : List (Event Job) → List Job
  posted [] = []
  posted (posts job ∷ es) = job ∷ posted es
  posted (_ ∷ es) = posted es

  abbrev held : Option Job → List Job
  held none = []
  held (some job) = job ∷ []

  abbrev known : GarbageCollector Job → List Job
  known c = c.ran ++ (held c.running ++ c.jobs)

  -- No job is posted to a collector that is being taken down.
  abbrev pub InTime : GarbageCollector Job → Event Job → Type 0
  InTime c (posts _) = c.stopping ≡ false
  InTime c _ = Unit {0}

  abbrev pub AllInTime : GarbageCollector Job → List (Event Job) → Type 0
  AllInTime c [] = Unit {0}
  AllInTime c (e ∷ es) = InTime c e × AllInTime (step c e) es

  -- What is left to run has a thread to run it, and a thread that ended was told to.
  abbrev HasThread : GarbageCollector Job → Type 0
  HasThread c =
      ((c.has_ended ≡ false) ⊎ (c.stopping ≡ true))
      × (((c.jobs ≡ []) × (c.running ≡ none)) ⊎ ((c.is_started ≡ true) × (c.has_ended ≡ false)))

  abbrev left : GarbageCollector Job → ℕ
  left c = 2 * length c.jobs + length (held c.running)
