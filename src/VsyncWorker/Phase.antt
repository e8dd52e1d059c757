-- ===== src/VsyncWorker/Phase.antt =====
-- VSyncWorker.cpp: the blank that is foretold.
use android_hardware_nvidia.VsyncWorker.{SyncFile}
use android_hardware_nvidia.Prelude.{
  Bool, List, Option, [], leb, none, not, some, true, ℕ, ◌&&◌, ◌*◌, ◌+◌, ◌<◌, ◌==◌, ◌||◌, ◌∷◌, ◌≡◌,
  ◌≤◌, ◌⊎◌,
}

-- The first time after `time` that is whole periods after `last`.
abbrev pub IsAhead : ℕ → ℕ → ℕ → ℕ → Type 0
IsAhead period time last r =
    (time < r) × ((r ≤ time + period) × ((k : ℕ) × (r ≡ last + period * k)))

-- A time before the second after `time`, and whole periods from `last`.
abbrev pub IsBehind : ℕ → ℕ → ℕ → ℕ → Type 0
IsBehind period time last r =
    (time < r) × ((r < time + 2 * period) × ((k : ℕ) × (r + period * k ≡ last + period)))

abbrev pub IsNextBlank : ℕ → ℕ → Option ℕ → ℕ → Type 0
IsNextBlank period time none r = r ≡ time + period
IsNextBlank period time (some last) r =
    ((last ≤ time) × IsAhead period time last r) ⊎ ((time < last) × IsBehind period time last r)

-- No fence of a file is later than `n`.
abbrev pub all_by : ℕ → List ℕ → Bool
all_by n [] = true
all_by n (t ∷ ts) = leb t n && all_by n ts

-- The frame that the fence stands for was shown by `n`, if it was shown.
abbrev pub is_shown_by : {Fence : Type 0} → (Fence → Option SyncFile) → Option Fence → ℕ → Bool
is_shown_by sync_file_info none n = true
is_shown_by sync_file_info (some fence) n = elim (sync_file_info fence) [
  | none ↦ true
  | some file ↦ not (file.status == 1) || all_by n file.timestamps
]
