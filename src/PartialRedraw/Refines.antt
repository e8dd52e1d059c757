-- ===== src/PartialRedraw/Refines.antt =====
-- PartialRedraw.cpp: a drawing as decided gives the picture wanted.
use android_hardware_nvidia.PartialRedraw.Painter.{
  KeepTurns, LayersHonest, Painter, drawn, picture, samples,
}
use android_hardware_nvidia.PartialRedraw.Parts.{gather_parts}
use mathlib.Core.Path.{subst}
use android_hardware_nvidia.PartialRedraw.Gather.{Engine, area, gather}
use android_hardware_nvidia.PartialRedraw.Redraws.{member_places-shade}
use android_hardware_nvidia.PartialRedraw.Covers.{IsBuffer}
use android_hardware_nvidia.PartialRedraw.History.{DamageHistory}
use android_hardware_nvidia.Rect.{IRect, covered, covered-append, covers}
use android_hardware_nvidia.Prelude.{
  All, Bool, Bool-cases, List, [], ap, arith, false, if◌then◌else◌, inl, inr, leb, length, not,
  refl, sym, true, ℕ, ℤ, ◌&&◌, ◌++◌, ◌==◌, ◌||◌, ◌∙◌, ◌∷◌, ◌≡◌,
}
use android_hardware_nvidia.PartialRedraw.Plans.{
  FloatMath, Found, Plan, Snapshot, Why, all_places, any_scaled, buffer_bounds, decide, dst_places,
  found_and, full, member_count, member_places, most_partial_in_a_row, not_smaller, plan_found,
  plan_parts, refused, to_draw, too_many_in_a_row,
}
use android_hardware_nvidia.PictureMemory.{Member}

buffer_bounds-IsBuffer : (w h : ℕ) → IsBuffer (buffer_bounds w h)
buffer_bounds-IsBuffer w h = (refl, refl)

-- A pixel outside the parts lies in no place.
outside_parts :
    (rs : List IRect) (w h : ℕ) (members : List IRect) (engine : Engine) (x y : ℤ)
    → covers (buffer_bounds w h) x y ≡ true
    → covered (gather rs (buffer_bounds w h) members engine) x y ≡ false
    → covered rs x y ≡ false
outside_parts rs w h members engine x y b c =
    let inside =
      (gather_parts rs (buffer_bounds w h) members engine (buffer_bounds-IsBuffer w h)).0 x y b in
    elim (Bool-cases (covered rs x y)) [
      | inl seen ↦ absurd (ground (arith, inside seen))
      | inr unseen ↦ unseen
    ]

found_and-to_draw :
    (f g : Found) (rs : List IRect)
    → found_and f g ≡ to_draw rs
    → (first : List IRect) × (rest : List IRect) × (f ≡ to_draw first)
      × (g ≡ to_draw rest)
      × (rs ≡ first ++ rest)
unfolding found_and
found_and-to_draw (refused w) g rs e = cc
found_and-to_draw (to_draw first) (refused w) rs e = cc
found_and-to_draw (to_draw first) (to_draw rest) rs e = (first, rest, refl, refl, cc)

plan_cases :
    (right : Plan → Type 0) (b : Bool) {s t : Plan}
    → right s
    → (b ≡ false → right t)
    → right (if b then s else t)
plan_cases right true k l = k
plan_cases right false k l = l refl

seen_or :
    {A : Type 0} {old new : A} (b : Bool) → (b ≡ false → old ≡ new) → (if b then new else old) ≡ new
seen_or true k = refl
seen_or false k = k refl

module _ {m : FloatMath} (p : Painter m) where
  open m use {floats, is_scaled, has_extent, onto}
  open floats use {Group, is_same}
  open p use {Sample, Pixel, nothing, shade, blend}

  -- A drawing is right that leaves the buffer, inside its bounds, with the picture wanted.
  abbrev pub Redraws : Plan → List (Member Group) → List (Member Group) → ℕ → ℕ → Type 0
  Redraws plan then' now w h =
      (x y : ℤ)
      → covers (buffer_bounds w h) x y ≡ true
      → drawn p plan (picture p then' x y) (picture p now x y) x y ≡ picture p now x y

  all_places-samples :
      (history : DamageHistory) (now then' : List (Member Group)) (rs : List IRect) (x y : ℤ)
      → LayersHonest p history.layers
      → KeepTurns p now then'
      → length now ≡ length then'
      → all_places m history now then' ≡ to_draw rs
      → covered rs x y ≡ false
      → samples p now x y ≡ samples p then' x y
  unfolding all_places
  all_places-samples history [] [] rs x y v t l e c = refl
  all_places-samples history [] (u ∷ us) rs x y v t l e c = absurd (omega arith)
  all_places-samples history (n ∷ ns) [] rs x y v t l e c = absurd (omega arith)
  all_places-samples history (n ∷ ns) (u ∷ us) rs x y v t l e c =
      let (first, rest, here, on, all) =
        found_and-to_draw (member_places m history n u) (all_places m history ns us) rs e in
      let apart : (covered first x y || covered rest x y) ≡ false =
        sym (covered-append first rest x y) ∙ subst (λ ps. covered ps x y ≡ false) all c in
      let one = member_places-shade p history n u first x y v t.0 here (ground arith) in
      let others =
        all_places-samples history ns us rest x y v t.1 (omega arith) on (ground arith) in
      rw (one, others) refl

  outside-All :
      (ns : List (Member Group)) (x y : ℤ)
      → covered (dst_places m ns) x y ≡ false
      → All (λ s. s ≡ nothing) (samples p ns x y)
  unfolding covered
  outside-All [] x y c = tt
  outside-All (n ∷ ns) x y c =
      (p.shade_outside n x y (ground arith), outside-All ns x y (ground arith))

  -- Drawn in full: wherever a member stands or stood.
  full-Redraws :
      (why : Why) (then' now : List (Member Group)) (w h : ℕ) (members : List IRect)
      (engine : Engine)
      → let bounds = buffer_bounds w h in
        Redraws
          (record {
            kind = full;
            why = why;
            parts = gather (dst_places m then' ++ dst_places m now) bounds members engine;
          })
          then'
          now
          w
          h
  full-Redraws why then' now w h members engine x y b =
      go (gather (dst_places m then' ++ dst_places m now) (buffer_bounds w h) members engine) refl
    where
      go :
          (ps : List IRect)
          → gather (dst_places m then' ++ dst_places m now) (buffer_bounds w h) members engine ≡ ps
          → drawn p
              (record { kind = full; why = why; parts = ps })
              (picture p then' x y)
              (picture p now x y)
              x
              y
            ≡ picture p now x y
      go [] e = refl
      go (r ∷ rs) e = elim (Bool-cases (covered (r ∷ rs) x y)) [
        | inl seen ↦ rw seen refl
        | inr unseen ↦
            let cleared =
              outside_parts (dst_places m then' ++ dst_places m now) w h members engine x y b
                (ap (λ ps. covered ps x y) e ∙ unseen) in
            let apart =
              sym (covered-append (dst_places m then') (dst_places m now) x y) ∙ cleared in
            rw unseen (
              p.blend-nothing (samples p then' x y) (samples p now x y)
                (outside-All then' x y (ground arith)) (outside-All now x y (ground arith)))
      ]

  parts-Redraws :
      (history : DamageHistory) (then' now : List (Member Group)) (rs : List IRect) (w h : ℕ)
      (members : List IRect) (engine : Engine)
      → LayersHonest p history.layers
      → KeepTurns p now then'
      → length now ≡ length then'
      → all_places m history now then' ≡ to_draw rs
      → (x y : ℤ)
      → let bounds = buffer_bounds w h in
        covers bounds x y ≡ true
        → covered (gather rs bounds members engine) x y ≡ false
        → picture p then' x y ≡ picture p now x y
  parts-Redraws history then' now rs w h members engine v t l e x y b c =
      let unseen = outside_parts rs w h members engine x y b c in
      ap blend (sym (all_places-samples history now then' rs x y v t l e unseen))

  found-Redraws :
      (then' now : List (Member Group)) (w h : ℕ) (history : DamageHistory) (engine : Engine)
      → LayersHonest p history.layers
      → KeepTurns p now then'
      → length now ≡ length then'
      → (f : Found) → all_places m history now then' ≡ f
      → Redraws
          (plan_found f (buffer_bounds w h) (dst_places m now) engine (
            gather
              (dst_places m then' ++ dst_places m now)
              (buffer_bounds w h)
              (dst_places m now)
              engine))
          then'
          now
          w
          h
  unfolding plan_found
  found-Redraws then' now w h history engine v t l (refused why) e x y b =
      full-Redraws why then' now w h (dst_places m now) engine x y b
  found-Redraws then' now w h history engine v t l (to_draw rs) e x y b =
      parts_or_full (gather rs (buffer_bounds w h) (dst_places m now) engine)
        (parts-Redraws history then' now rs w h (dst_places m now) engine v t l e x y b)
    where
      parts_or_full :
          (ps : List IRect)
          → (covered ps x y ≡ false → picture p then' x y ≡ picture p now x y)
          → drawn p
              (plan_parts ps (
                gather
                  (dst_places m then' ++ dst_places m now)
                  (buffer_bounds w h)
                  (dst_places m now)
                  engine))
              (picture p then' x y)
              (picture p now x y)
              x
              y
            ≡ picture p now x y
      parts_or_full [] k = unfold plan_parts covered in k refl
      parts_or_full (r ∷ rs') k =
          unfold plan_parts in
          plan_cases
            (λ plan. drawn p plan (picture p then' x y) (picture p now x y) x y ≡ picture p now x y)
            (leb
              (area (
                gather (dst_places m then' ++ dst_places m now) (buffer_bounds w h)
                  (dst_places m now) engine))
              (area (r ∷ rs')))
            (full-Redraws not_smaller then' now w h (dst_places m now) engine x y b)
            (λ _. seen_or (covered (r ∷ rs') x y) k)

  -- The buffer holds the picture of the snapshot's members, each of which is turned as the one now in its
  -- place; and no client has understated the damage of a frame that the history keeps. Then, whatever
  -- the engine can draw in part, drawing what `Decide` says -- all, parts, or nothing -- leaves every
  -- pixel of the buffer with the picture wanted.
  pub decide-Redraws :
      (held : Snapshot Group) (w h : ℕ) (now : List (Member Group)) (history : DamageHistory)
      (engine : Engine)
      → LayersHonest p history.layers
      → KeepTurns p now held.members
      → Redraws (decide m held w h now history engine) held.members now w h
  unfolding decide plan_found plan_parts
  decide-Redraws held w h now history engine v t x y b =
      let right = λ (plan : Plan).
        drawn p plan (picture p held.members x y) (picture p now x y) x y ≡ picture p now x y in
      let full_parts =
        gather (dst_places m held.members ++ dst_places m now) (buffer_bounds w h)
          (dst_places m now) engine in
      let whole =
        λ (why : Why). full-Redraws why held.members now w h (dst_places m now) engine x y b in
      plan_cases right (not held.valid || not (held.width == w) || not (held.height == h)) refl
        (λ _. plan_cases right (not engine.draws_scaled_in_part && any_scaled m now) refl (λ _.
          plan_cases right (not (length held.members == length now)) (whole member_count) (λ l.
            plan_cases right (leb most_partial_in_a_row held.partial_run) (whole too_many_in_a_row)
              (λ _.
                found-Redraws held.members now w h history engine v t (ground arith)
                  (all_places m history now held.members) refl x y b))))
