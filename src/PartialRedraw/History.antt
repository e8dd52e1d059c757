-- ===== src/PartialRedraw/History.antt =====
-- compositor/PartialRedraw.cpp: the damage that each layer's clients sent, frame by frame. The map of
-- layers is a list of pairs: the order of its keys decides nothing, since no two layers are heard from
-- at the same time.
use android_hardware_nvidia.Rect.{IRect, is_empty}
use android_hardware_nvidia.Prelude.{
  Bool, List, Option, [], false, if◌then◌else◌, leb, length, ltb, none, some, suc, true, zero, ℕ,
  ◌++◌, ◌+◌, ◌-◌, ◌==◌, ◌∷◌,
}

abbrev pub most_frames : ℕ
most_frames = 8

abbrev pub most_layers : ℕ
most_layers = 64

pub record DamageFrame : Type 0 where
  pub generation : ℕ
  pub damage : List IRect

pub record Layer : Type 0 where
  pub frames : List DamageFrame
  pub recorded_at : ℕ

pub record DamageHistory : Type 0 where
  pub layers : List (ℕ × Layer)
  pub clock : ℕ

abbrev pub no_history : DamageHistory
no_history = record { layers = []; clock = 0 }

unfoldable pub find_layer : ℕ → List (ℕ × Layer) → Option Layer
find_layer serial [] = none
find_layer serial ((s, l) ∷ ls) = if s == serial then some l else find_layer serial ls

unfoldable pub put_layer : ℕ → Layer → List (ℕ × Layer) → List (ℕ × Layer)
put_layer serial l [] = (serial, l) ∷ []
put_layer serial l ((s, k) ∷ ls) =
    if s == serial then (s, l) ∷ ls else (s, k) ∷ put_layer serial l ls

unfoldable pub last_generation : List DamageFrame → Option ℕ
last_generation [] = none
last_generation (f ∷ []) = some f.generation
last_generation (f ∷ g ∷ fs) = last_generation (g ∷ fs)

-- `pop_front` while there are too many.
unfoldable pub keep_last : List DamageFrame → List DamageFrame
keep_last [] = []
keep_last (f ∷ fs) = if ltb most_frames (length (f ∷ fs)) then keep_last fs else f ∷ fs

-- The layer heard from longest ago, with the one found so far.
unfoldable pub oldest_from : ℕ × Layer → List (ℕ × Layer) → ℕ × Layer
oldest_from best [] = best
oldest_from best (l ∷ ls) =
    oldest_from (if ltb l.1.recorded_at best.1.recorded_at then l else best) ls

unfoldable pub erase_layer : ℕ → List (ℕ × Layer) → List (ℕ × Layer)
erase_layer serial [] = []
erase_layer serial ((s, l) ∷ ls) = if s == serial then ls else (s, l) ∷ erase_layer serial ls

unfoldable pub drop_oldest : List (ℕ × Layer) → List (ℕ × Layer)
drop_oldest [] = []
drop_oldest (l ∷ ls) =
    if ltb most_layers (length (l ∷ ls)) then erase_layer (oldest_from l ls).0 (l ∷ ls) else l ∷ ls

-- Whether a frame is one that the layer has had already.
unfoldable pub is_old : List DamageFrame → ℕ → Bool
is_old fs generation = elim (last_generation fs) [ none ↦ false | some g ↦ leb generation g ]

unfoldable pub frames_of : ℕ → List (ℕ × Layer) → List DamageFrame
frames_of serial ls = elim (find_layer serial ls) [ none ↦ [] | some l ↦ l.frames ]

unfoldable pub record_damage : ℕ → ℕ → List IRect → DamageHistory → DamageHistory
record_damage serial generation damage h =
    let clock = h.clock + 1 in
    let frames = frames_of serial h.layers in
    let heard = λ (fs : List DamageFrame).
      put_layer serial (record { frames = fs; recorded_at = clock }) h.layers in
    if is_old frames generation then record { layers = heard frames; clock = clock } else record {
      layers =
          drop_oldest (
            heard (keep_last (frames ++ record { generation = generation; damage = damage } ∷ [])));
      clock = clock;
    }

unfoldable pub find_frame : ℕ → List DamageFrame → Option (List IRect)
find_frame g [] = none
find_frame g (f ∷ fs) = if f.generation == g then some f.damage else find_frame g fs

unfoldable pub seen_rects : List IRect → List IRect
seen_rects [] = []
seen_rects (r ∷ rs) = if is_empty r then seen_rects rs else r ∷ seen_rects rs

-- What of a frame goes on to the next, if its damage is known: `some (rects, whole)`.
unfoldable pub add_frame :
    Option (List IRect) → Option (List IRect × Bool) → Option (List IRect × Bool)
add_frame none rest = none
add_frame (some []) rest = some ([], true)
add_frame (some (r ∷ rs)) none = none
add_frame (some (r ∷ rs)) (some (rects, whole)) = some (seen_rects (r ∷ rs) ++ rects, whole)

-- The loop of `Between` over the `n` frames from `g` on.
unfoldable pub between_from : List DamageFrame → ℕ → ℕ → Option (List IRect × Bool)
unfolding add_frame
between_from frames g zero = some ([], false)
between_from frames g (suc n) = add_frame (find_frame g frames) (between_from frames (suc g) n)

-- What changed after frame `from` up to frame `to`: nothing if that is not known, else the rectangles,
-- and whether a frame changed all of it.
unfoldable pub between : ℕ → ℕ → ℕ → DamageHistory → Option (List IRect × Bool)
between serial from to h = elim (find_layer serial h.layers) [
  | none ↦ none
  | some l ↦ between_from l.frames (suc from) (to - from)
]
