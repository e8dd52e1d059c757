-- ===== src/JoiningPlan/Seats.antt =====
-- LayerToPlaneJoiningPlan.cpp: what holds of the seats that the steering finds, and of the layers put on
-- them.
use android_hardware_nvidia.JoiningPlan.Steer.{emplace_all}
use mathlib.Core.List.{append-nil, append_assoc}
use mathlib.Core.Option.{some-injective}
use mathlib.Core.Path.{subst}
use android_hardware_nvidia.JoiningPlan.Fit.{
  Joining, LayerData, Pipe, emplace, find_if, fits_class, is_merged, seats, turn_bits,
}
use android_hardware_nvidia.Prelude.{
  All, Bool, Bool-cases, List, Option-cases, [], ap, arith, false, if◌then◌else◌, inl, inr, length,
  not, some, suc, sym, true, ℕ, ◌&&◌, ◌++◌, ◌+◌, ◌∙◌, ◌∷◌, ◌≡◌, ◌≤◌,
}
use android_hardware_nvidia.JoiningPlan.Places.{
  Alike, All-append_one, AreSound, AreValid, RiseFrom, Together, count, emplace-RiseFrom,
  find_if-found, layers_of, layers_of-emplace, planes_of, planes_of-emplace, turn_bits-eq,
}

module _ (pipe : Pipe) where
  open pipe use {Data, Plane, is_merging, is_valid}

  abbrev pub of_kind : Bool → (Plane → Bool) → Plane → Bool
  of_kind merged q p = q p && (if merged then is_merging p else not (is_merging p))

  -- Each layer, from the `i`-th on, is on a plane that is valid for it, and is merged if it is of the
  -- run.
  abbrev pub AreSeated : ℕ → ℕ → ℕ → List (LayerData Data) → List Plane → Type 0
  AreSeated begin run_len i [] [] = Unit {0}
  AreSeated begin run_len i (l ∷ ls) (p ∷ ps) =
      (is_valid p l ≡ true)
      × (is_merging p ≡ is_merged pipe begin run_len i)
      × AreSeated begin run_len (suc i) ls ps
  AreSeated begin run_len i [] (p ∷ ps) = ⊥
  AreSeated begin run_len i (l ∷ ls) [] = ⊥

  kinds_make-count :
      (q : Plane → Bool) (ps : List Plane)
      → count (of_kind false q) ps + count (of_kind true q) ps ≡ count q ps
  kinds_make-count q [] = omega arith
  kinds_make-count q (p ∷ ps) = ground (arith, kinds_make-count q ps)

  pub seats-AreSeated :
      (begin run_len i : ℕ) (ordinary merging : List Plane) (ls : List (LayerData Data))
      (ps : List Plane)
      → seats pipe begin run_len i ordinary merging ls ≡ some ps
      → AreSeated begin run_len i ls ps
        × ((q : Plane → Bool)
            → count q ps ≤ count (of_kind false q) ordinary + count (of_kind true q) merging)
  unfolding seats fits_class
  seats-AreSeated begin run_len i ordinary merging [] [] e = (tt, λ q. omega arith)
  seats-AreSeated begin run_len i ordinary merging [] (p ∷ ps) e = cc
  seats-AreSeated begin run_len i ordinary merging (l ∷ ls) ps e =
      let right = λ (rs : List Plane).
        AreSeated begin run_len i (l ∷ ls) rs
        × ((q : Plane → Bool)
            → count q rs ≤ count (of_kind false q) ordinary + count (of_kind true q) merging) in
      elim (Bool-cases (is_merged pipe begin run_len i)) [
        | inl of_run ↦ elim (Option-cases (find_if (fits_class pipe true l) merging)) [
          | inl gone ↦ absurd (ground arith)
          | inr ((p, after), found) ↦
              elim (Option-cases (seats pipe begin run_len (suc i) ordinary after ls)) [
                | inl gone ↦ absurd (ground arith)
                | inr (qs, rest) ↦
                    let (ok, few) = find_if-found (fits_class pipe true l) merging p after found in
                    let (seated, used) =
                      seats-AreSeated begin run_len (suc i) ordinary after ls qs rest in
                    let made : (p ∷ qs) ≡ ps =
                      some-injective (p ∷ qs) ps (ground (arith, of_run, found, rest, e)) in
                    subst right made (
                      (ground (arith, ok), ground (arith, ok, of_run), seated),
                      λ q. ground (arith, ok, few (of_kind true q), used q),
                    )
              ]
        ]
        | inr out ↦ elim (Option-cases (find_if (fits_class pipe false l) ordinary)) [
          | inl gone ↦ absurd (ground arith)
          | inr ((p, after), found) ↦
              elim (Option-cases (seats pipe begin run_len (suc i) after merging ls)) [
                | inl gone ↦ absurd (ground arith)
                | inr (qs, rest) ↦
                    let (ok, few) =
                      find_if-found (fits_class pipe false l) ordinary p after found in
                    let (seated, used) =
                      seats-AreSeated begin run_len (suc i) after merging ls qs rest in
                    let made : (p ∷ qs) ≡ ps =
                      some-injective (p ∷ qs) ps (ground (arith, out, found, rest, e)) in
                    subst right made (
                      (ground (arith, ok), ground (arith, ok, out), seated),
                      λ q. ground (arith, ok, few (of_kind false q), used q),
                    )
              ]
        ]
      ]

  -- The layers of the run, among those from the `i`-th on, are turned as the number says.
  abbrev pub AreTurned : ℕ → ℕ → ℕ → ℕ → List (LayerData Data) → Type 0
  AreTurned begin run_len turn i [] = Unit {0}
  AreTurned begin run_len turn i (l ∷ ls) =
      (is_merged pipe begin run_len i ≡ true → turn_bits l.transform ≡ turn)
      × AreTurned begin run_len turn (suc i) ls

  abbrev MergedTurned : ℕ → List (Joining pipe) → Type 0
  MergedTurned turn = All (λ j. is_merging j.plane ≡ true → turn_bits j.layer.transform ≡ turn)

  MergedTurned-Alike :
      (turn : ℕ) (j : Joining pipe) (js : List (Joining pipe))
      → (is_merging j.plane ≡ true → turn_bits j.layer.transform ≡ turn)
      → MergedTurned turn js
      → All (Alike pipe j) js
  MergedTurned-Alike turn j [] h t = tt
  MergedTurned-Alike turn j (k ∷ js) h (t, ts) = (
    λ m n. turn_bits-eq j.layer.transform k.layer.transform (h m ∙ sym (t n)),
    MergedTurned-Alike turn j js h ts,
  )

  MergedTurned-Together :
      (turn : ℕ) (js : List (Joining pipe)) → MergedTurned turn js → Together pipe js
  MergedTurned-Together turn [] t = tt
  MergedTurned-Together turn (j ∷ js) (t, ts) =
      (MergedTurned-Alike turn j js t ts, MergedTurned-Together turn js ts)

  module _ (begin run_len turn : ℕ) where
    abbrev Emplaced :
        List (Joining pipe) → List (LayerData Data) → List Plane → List (Joining pipe) → Type 0
    Emplaced joined ls ps out =
        AreValid pipe out
        × RiseFrom pipe 0 out
        × MergedTurned turn out
        × (layers_of pipe out ≡ layers_of pipe joined ++ ls)
        × (planes_of pipe out ≡ planes_of pipe joined ++ ps)

    emplace_all-Emplaced :
        (i : ℕ) (joined : List (Joining pipe)) (ls : List (LayerData Data)) (ps : List Plane)
        → AreSeated begin run_len i ls ps
        → AreTurned begin run_len turn i ls
        → AreValid pipe joined
        → RiseFrom pipe 0 joined
        → MergedTurned turn joined
        → Emplaced joined ls ps (emplace_all pipe joined ls ps)
    unfolding emplace_all emplace
    emplace_all-Emplaced i joined [] [] s t v z m = (
      v,
      z,
      m,
      sym (append-nil (layers_of pipe joined)),
      sym (append-nil (planes_of pipe joined)),
    )
    emplace_all-Emplaced i joined [] (p ∷ ps) s t v z m = elim s [ ]
    emplace_all-Emplaced i joined (l ∷ ls) [] s t v z m = elim s [ ]
    emplace_all-Emplaced i joined (l ∷ ls) (p ∷ ps) (ok, of_run, s) (t, ts) v z m =
        let js = emplace pipe joined l p in
        let (v', z', m', shown, used) =
          emplace_all-Emplaced (suc i) js ls ps s ts
            (All-append_one pipe (λ j. is_valid j.plane j.layer ≡ true) joined _ v ok)
            (emplace-RiseFrom pipe 0 joined _ z (omega arith))
            (All-append_one pipe
              (λ j. is_merging j.plane ≡ true → turn_bits j.layer.transform ≡ turn) joined _ m
              (λ merging. t (sym of_run ∙ merging))) in
        (
          v',
          z',
          m',
          shown
              ∙ ap (λ ks. ks ++ ls) (layers_of-emplace pipe joined l p (length joined))
              ∙ append_assoc (layers_of pipe joined) (l ∷ []) ls,
          used
              ∙ ap (λ ks. ks ++ ps) (planes_of-emplace pipe joined l p (length joined))
              ∙ append_assoc (planes_of pipe joined) (p ∷ []) ps,
        )

    -- Layers seated with one turn for the run make a plan that is sound.
    pub seats-AreSound :
        (avail : List Plane) (ls : List (LayerData Data)) (ps : List Plane)
        → seats pipe begin run_len 0 avail avail ls ≡ some ps
        → AreTurned begin run_len turn 0 ls
        → let out = emplace_all pipe [] ls ps in
          AreSound pipe out
          × (layers_of pipe out ≡ ls)
          × ((q : Plane → Bool) → count q (planes_of pipe out) ≤ count q avail)
    seats-AreSound avail ls ps e t =
        let (seated, used) = seats-AreSeated begin run_len 0 avail avail ls ps e in
        let (v, z, m, shown, planes) = emplace_all-Emplaced 0 [] ls ps seated t tt tt tt in
        (
          (v, z, MergedTurned-Together turn _ m),
          shown,
          λ q. omega (arith, ap (count q) planes, used q, kinds_make-count q avail),
        )
