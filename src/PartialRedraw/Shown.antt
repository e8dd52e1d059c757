-- ===== src/PartialRedraw/Shown.antt =====
-- PartialRedraw.cpp: the buffers of `SlotPictures` over time, with what each of them shows.
use android_hardware_nvidia.PartialRedraw.Painter.{
  IsHonest, KeepTurns, LayersHonest, Painter, drawn, picture,
}
use mathlib.Core.Path.{subst}
use android_hardware_nvidia.PartialRedraw.Recorded.{record_damage-LayersHonest}
use android_hardware_nvidia.PartialRedraw.Refines.{decide-Redraws}
use android_hardware_nvidia.PartialRedraw.Slots.{
  Held, SlotPictures, decide_slot, drawn_slot, lose_slot, record_member, set_slot, with_fence,
}
use android_hardware_nvidia.PartialRedraw.Gather.{Engine}
use android_hardware_nvidia.PartialRedraw.Plans.{
  FloatMath, Kind, Plan, Why, buffer_bounds, decide, full, partly, unchanged,
}
use android_hardware_nvidia.PartialRedraw.History.{DamageHistory, no_history}
use android_hardware_nvidia.Rect.{IRect, covers, height, width}
use android_hardware_nvidia.Prelude.{
  Bool-cases, List, Option, Option-cases, [], ap, arith, if◌then◌else◌, inl, inr, none, not, refl,
  some, true, ℕ, ℤ, ◌==◌, ◌||◌, ◌∷◌, ◌≡◌,
}
use android_hardware_nvidia.PictureMemory.{Member}

module _ {m : FloatMath} (p : Painter m) (Fence : Type 0) where
  open m use {floats}
  open floats use {Group}
  open p use {Pixel}

  -- What the engine's owner keeps, and what the buffers show.
  pub record World : Type 0 where
    pub pictures : SlotPictures Group Fence
    pub contents : ℕ → ℤ → ℤ → Pixel

  abbrev pub set_contents : ℕ → (ℤ → ℤ → Pixel) → (ℕ → ℤ → ℤ → Pixel) → ℕ → ℤ → ℤ → Pixel
  set_contents slot c contents i = if i == slot then c else contents i

  abbrev pub drawn_world : World → ℕ → ℕ → ℕ → List (Member Group) → Option Fence → World
  drawn_world s slot width height now fence =
      let plan = decide_slot m Fence s.pictures slot width height now in
      record {
        pictures = drawn_slot m Fence slot width height now plan fence s.pictures;
        contents =
            set_contents slot (λ x y. drawn p plan (s.contents slot x y) (picture p now x y) x y)
              s.contents;
      }

  abbrev pub heard_world : World → Member Group → List IRect → World
  heard_world s n damage = record s { pictures = record_member m Fence n damage s.pictures }

  -- A damage recorded that is not understated; a drawing as decided, of members turned as those before;
  -- and a drawing lost, after which the buffer may show anything.
  pub data Step : World → World → Type 0 where
    recorded :
        (s : World) (n : Member Group) (damage : List IRect)
        → IsHonest p n.serial n.generation damage
        → Step s (heard_world s n damage)
    drew :
        (s : World) (slot width height : ℕ) (now : List (Member Group)) (fence : Option Fence)
        → ((h : Held Group Fence)
            → s.pictures.slots slot ≡ some h
            → KeepTurns p now h.snapshot.members)
        → Step s (drawn_world s slot width height now fence)
    lost :
        (s : World) (slot : ℕ) (c : ℤ → ℤ → Pixel)
        → Step s (record {
          pictures = lose_slot m Fence slot s.pictures;
          contents = set_contents slot c s.contents;
        })

  pub data Steps : World → World → Type 0 where
    done : (s : World) → Steps s s
    then_step : {s t u : World} → Steps s t → Step t u → Steps s u

  abbrev pub start : Engine → (ℕ → ℤ → ℤ → Pixel) → World
  start engine contents = record {
    pictures = record { engine = engine; slots = λ _. none; history = no_history };
    contents = contents;
  }

  abbrev pub Shows : Held Group Fence → (ℤ → ℤ → Pixel) → Type 0
  Shows h c =
      (x y : ℤ)
      → h.snapshot.valid ≡ true
      → covers (buffer_bounds h.snapshot.width h.snapshot.height) x y ≡ true
      → c x y ≡ picture p h.snapshot.members x y

  -- Every buffer that is known shows the picture it was last drawn with.
  abbrev pub AllShow : World → Type 0
  AllShow s =
      (slot : ℕ) (h : Held Group Fence) → s.pictures.slots slot ≡ some h → Shows h (s.contents slot)

  with_fence-drawn :
      (f : Option Fence) (plan : Plan) (old new : Pixel) (x y : ℤ)
      → drawn p plan old new x y ≡ new
      → drawn p (with_fence f plan) old new x y ≡ new
  unfolding with_fence
  with_fence-drawn (some f) plan old new x y e = e
  with_fence-drawn none plan old new x y e = by_kind plan.kind plan.why plan.parts e
    where
      by_kind :
          (k : Kind) (w : Why) (ps : List IRect)
          → drawn p (record { kind = k; why = w; parts = ps }) old new x y ≡ new
          → drawn p
              (with_fence {Fence = Fence} none (record { kind = k; why = w; parts = ps }))
              old
              new
              x
              y
            ≡ new
      by_kind full w ps q = q
      by_kind partly w ps q = q
      by_kind unchanged w [] q = refl
      by_kind unchanged w (r ∷ rs) q = ground (arith, q)

  -- Whatever the buffer is known to hold, the drawing that is decided gives the picture wanted.
  decide-drawn :
      (h : Held Group Fence) (width height : ℕ) (now : List (Member Group))
      (history : DamageHistory) (engine : Engine) (c : ℤ → ℤ → Pixel) (x y : ℤ)
      → LayersHonest p history.layers
      → KeepTurns p now h.snapshot.members
      → Shows h c
      → covers (buffer_bounds width height) x y ≡ true
      → drawn p
          (decide m h.snapshot width height now history engine)
          (c x y)
          (picture p now x y)
          x
          y
        ≡ picture p now x y
  unfolding decide
  decide-drawn h width height now history engine c x y v t shows b =
      elim (Bool-cases (
        not h.snapshot.valid
        || not (h.snapshot.width == width)
        || not (h.snapshot.height == height))) [
          | inl unknown ↦ rw (unknown, decide) refl
          | inr known ↦
              let same_width : h.snapshot.width ≡ width = ground arith in
              let same_height : h.snapshot.height ≡ height = ground arith in
              let bounds : covers (buffer_bounds h.snapshot.width h.snapshot.height) x y ≡ true =
                rw (same_width, same_height) b in
              rw (shows x y (ground arith) bounds)
                (decide-Redraws p h.snapshot width height now history engine v t x y b)
        ]

  decide_slot-drawn :
      (s : World) (slot width height : ℕ) (now : List (Member Group)) (x y : ℤ)
      → LayersHonest p s.pictures.history.layers
      → ((h : Held Group Fence)
          → s.pictures.slots slot ≡ some h
          → KeepTurns p now h.snapshot.members)
      → AllShow s
      → covers (buffer_bounds width height) x y ≡ true
      → drawn p
          (decide_slot m Fence s.pictures slot width height now)
          (s.contents slot x y)
          (picture p now x y)
          x
          y
        ≡ picture p now x y
  unfolding decide_slot
  decide_slot-drawn s slot width height now x y v t shows b =
      elim (Option-cases (s.pictures.slots slot)) [
        | inl unknown ↦ rw (unknown, decide_slot) refl
        | inr (h, known) ↦
            rw (known, decide_slot)
              (with_fence-drawn h.fence _ _ _ x y (
                decide-drawn h width height now s.pictures.history s.pictures.engine
                  (s.contents slot) x y v (t h known) (shows slot h known) b))
      ]

  -- What a buffer shows whose entry was set with its contents, and the others as they were.
  AllShow-set :
      (slots : ℕ → Option (Held Group Fence)) (contents : ℕ → ℤ → ℤ → Pixel) (slot : ℕ)
      (new : Held Group Fence) (c : ℤ → ℤ → Pixel)
      → Shows new c
      → ((i : ℕ) (h : Held Group Fence) → slots i ≡ some h → Shows h (contents i))
      → (i : ℕ) (h : Held Group Fence) → set_slot m Fence slot (some new) slots i ≡ some h
      → Shows h (set_contents slot c contents i)
  AllShow-set slots contents slot new c shows others i h e = elim (Bool-cases (i == slot)) [
    | inl here ↦ let same : new ≡ h = ground arith in rw here (subst (λ k. Shows k c) same shows)
    | inr there ↦ rw there (others i h (ground arith))
  ]

  AllShow-unknown :
      (slots : ℕ → Option (Held Group Fence)) (contents : ℕ → ℤ → ℤ → Pixel) (slot : ℕ)
      (c : ℤ → ℤ → Pixel)
      → slots slot ≡ none
      → ((i : ℕ) (h : Held Group Fence) → slots i ≡ some h → Shows h (contents i))
      → (i : ℕ) (h : Held Group Fence) → slots i ≡ some h
      → Shows h (set_contents slot c contents i)
  AllShow-unknown slots contents slot c unknown others i h e = elim (Bool-cases (i == slot)) [
    | inl here ↦ let same : i ≡ slot = ground arith in absurd (ground (arith, ap slots same))
    | inr there ↦ rw there (others i h e)
  ]

  Step-AllShow :
      {s t : World}
      → Step s t
      → LayersHonest p s.pictures.history.layers × AllShow s
      → LayersHonest p t.pictures.history.layers × AllShow t
  unfolding record_member drawn_slot lose_slot
  Step-AllShow (recorded s n damage honest) (v, shows) =
      (record_damage-LayersHonest p n.serial n.generation damage s.pictures.history honest v, shows)
  Step-AllShow (drew s slot width height now fence turns) (v, shows) = (
    v,
    AllShow-set s.pictures.slots s.contents slot _ _
        (λ x y _ b. decide_slot-drawn s slot width height now x y v turns shows b) shows,
  )
  Step-AllShow (lost s slot c) (v, shows) = elim (Option-cases (s.pictures.slots slot)) [
    | inl unknown ↦
        rw (unknown, lose_slot)
          (v, AllShow-unknown s.pictures.slots s.contents slot c unknown shows)
    | inr (h, known) ↦
        rw (known, lose_slot)
          (
            v,
            AllShow-set s.pictures.slots s.contents slot _ _ (λ x y valid _. absurd (ground arith))
                shows,
          )
  ]

  -- From a start at which no buffer is known, and after any steps -- damages recorded, none of which
  -- understates what changed, drawings as they are decided, with each member turned as the one in its
  -- place was, and drawings lost, after which a buffer may hold anything -- every buffer that counts as
  -- known shows, at each of its pixels, the picture it was last drawn with.
  pub known_slots_show :
      (engine : Engine) (contents : ℕ → ℤ → ℤ → Pixel) (s : World)
      → Steps (start engine contents) s
      → AllShow s
  known_slots_show engine contents s run = (go run (tt, λ _ _ e. cc)).1
    where
      go :
          {t u : World}
          → Steps t u
          → LayersHonest p t.pictures.history.layers × AllShow t
          → LayersHonest p u.pictures.history.layers × AllShow u
      go (done _) v = v
      go (then_step before last) v = Step-AllShow last (go before v)
