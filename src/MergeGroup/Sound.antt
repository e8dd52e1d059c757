-- ===== src/MergeGroup/Sound.antt =====
-- MergeGroup.cpp: the group chosen shows the same picture, and is one the engine can draw.
use android_hardware_nvidia.MergeGroup.Moves.{Pairs, Pairs-move, is_clear-Keeps, numbered-Pairs}
use android_hardware_nvidia.Rect.{width}
use android_hardware_nvidia.Prelude.{
  All, Bool, Bool-cases, List, Option, [], ap, arith, false, if◌then◌else◌, inl, inr, leb, length,
  length-append, ltb, none, not, refl, some, sym, true, ℕ, ◌&&◌, ◌++◌, ◌+◌, ◌-◌, ◌==◌, ◌||◌, ◌∙◌,
  ◌∷◌, ◌≡◌,
}
use android_hardware_nvidia.MergeGroup.{
  GroupChoice, GroupMember, Placed, Search, as_one, choose_merge_group, is_clear, is_cut,
  most_steps, numbered, record_choice, search_from, walk,
}
use mathlib.Core.List.{append-nil, append_assoc, Perm, perm_middle}
use mathlib.Core.List.Perm
use mathlib.Core.Path.{subst}

abbrev pub live_of : List Placed → ℕ
live_of [] = 0
live_of (x ∷ xs) = as_one x.layer.live + live_of xs

abbrev pub SharesTurn : ℕ → Placed → Type 0
SharesTurn turn x = x.layer.turn ≡ turn

-- The choice puts the stack into an order in which layers that overlap keep theirs, and leaves it as it
-- was where it lowers none; in it, from `begin`
-- on, stand `width` layers of one turn, and of them as many are live as it says.
abbrev pub IsSound : List Placed → ℕ → GroupChoice → Type 0
IsSound all width c =
    Perm c.order all
    × Pairs c.order
    × (c.width ≡ width)
    × (c.lowered ≡ 0 → c.order ≡ all)
    × ((before : List Placed) × (group : List Placed) × (after : List Placed) × (turn : ℕ)
        × (c.order ≡ before ++ (group ++ after))
        × (length before ≡ c.begin)
        × (length group ≡ width)
        × All (SharesTurn turn) group
        × (live_of group ≡ c.live))

abbrev pub BestIsSound : List Placed → ℕ → Option GroupChoice → Type 0
BestIsSound all width none = Unit {0}
BestIsSound all width (some c) = IsSound all width c

live_of-append_one :
    (xs : List Placed) (x : Placed) → live_of (xs ++ x ∷ []) ≡ live_of xs + as_one x.layer.live
live_of-append_one [] x = omega arith
live_of-append_one (y ∷ xs) x = omega (arith, live_of-append_one xs x)

All-append_one :
    (turn : ℕ) (xs : List Placed) (x : Placed)
    → All (SharesTurn turn) xs
    → x.layer.turn ≡ turn
    → All (SharesTurn turn) (xs ++ x ∷ [])
All-append_one turn [] x h k = (k, tt)
All-append_one turn (y ∷ xs) x (p, h) k = (p, All-append_one turn xs x h k)

-- A property of both branches holds of the test.
if_keeps :
    (P : Search → Type 0) (b : Bool) {s t : Search}
    → (b ≡ true → P s)
    → (b ≡ false → P t)
    → P (if b then s else t)
if_keeps P true h k = h refl
if_keeps P false h k = k refl

Perm-move :
    (xs ms zs : List Placed) (x : Placed) → Perm (xs ++ (ms ++ x ∷ zs)) (xs ++ x ∷ (ms ++ zs))
Perm-move [] ms zs x = perm_middle ms zs
Perm-move (y ∷ xs) ms zs x = Perm.cons y (Perm-move xs ms zs x)

module _ (all : List Placed) (width turn : ℕ) (below : List Placed) where
  abbrev seated : List Placed → List Placed → List Placed → List Placed
  seated lowered members rest = (below ++ lowered) ++ (members ++ rest)

  abbrev Fits : List Placed → List Placed → List Placed → ℕ → Type 0
  Fits lowered members rest live =
      Perm (seated lowered members rest) all
      × Pairs (seated lowered members rest)
      × All (SharesTurn turn) members
      × (live_of members ≡ live)
      × (length lowered ≡ 0 → seated lowered members rest ≡ all)

  Fits-join :
      (lowered members rest : List Placed) (x : Placed) (live : ℕ)
      → x.layer.turn ≡ turn
      → Fits lowered members (x ∷ rest) live
      → Fits lowered (members ++ x ∷ []) rest (live + as_one x.layer.live)
  Fits-join lowered members rest x live e (p, q, t, n, k) =
      let same = ap (λ ys. (below ++ lowered) ++ ys) (sym (append_assoc members (x ∷ []) rest)) in
      (
        subst (λ ys. Perm ys all) same p,
        subst Pairs same q,
        All-append_one turn members x t e,
        live_of-append_one members x ∙ ap (λ k. k + as_one x.layer.live) n,
        λ none_moved. sym same ∙ k none_moved,
      )

  seat_assoc :
      (lowered members rest : List Placed) (x : Placed)
      → (below ++ lowered) ++ x ∷ (members ++ rest) ≡ seated (lowered ++ x ∷ []) members rest
  seat_assoc lowered members rest x =
      sym (append_assoc (below ++ lowered) (x ∷ []) (members ++ rest))
      ∙ ap (λ ys. ys ++ (members ++ rest)) (append_assoc below lowered (x ∷ []))

  Fits-lower :
      (lowered members rest : List Placed) (x : Placed) (live : ℕ)
      → is_clear members x.layer ≡ true
      → Fits lowered members (x ∷ rest) live
      → Fits (lowered ++ x ∷ []) members rest live
  Fits-lower lowered members rest x live c (p, q, t, n, k) =
      let same = seat_assoc lowered members rest x in
      (
        subst (λ ys. Perm ys all) same
            (Perm.trans (Perm.symm (Perm-move (below ++ lowered) members rest x)) p),
        subst Pairs same
            (Pairs-move (below ++ lowered) members rest x (is_clear-Keeps members x c) q),
        t,
        n,
        λ none_moved. absurd (omega (arith, none_moved, length-append lowered (x ∷ []))),
      )

  record_choice-IsSound :
      (lowered members rest : List Placed) (live : ℕ)
      → (length members == width) ≡ true
      → Fits lowered members rest live
      → IsSound all width (record_choice width turn below lowered members rest live)
  unfolding record_choice
  record_choice-IsSound lowered members rest live w (p, q, t, n, k) =
      (p, q, refl, k, (below ++ lowered, members, rest, turn, refl, refl, ground arith, t, n))

  walk-BestIsSound :
      (lowered members rest : List Placed) (live : ℕ) (s : Search)
      → Fits lowered members rest live
      → BestIsSound all width s.best
      → BestIsSound all width (walk width turn below lowered members rest live s).best
  unfolding walk
  walk-BestIsSound lowered members [] live s f b =
      elim (Bool-cases (is_cut s.best live (length lowered))) [
        | inl cut ↦ rw cut b
        | inr on ↦ elim (Bool-cases (length members == width)) [
          | inl full ↦ rw (on, full) (record_choice-IsSound lowered members [] live full f)
          | inr short ↦ rw (on, short) b
        ]
      ]
  walk-BestIsSound lowered members (x ∷ rest) live s f b =
      let counted : Search = record s { steps = s.steps - 1 } in
      let foreign = not (x.layer.turn == turn) in
      let joined =
        walk width turn below lowered (members ++ x ∷ []) rest (live + as_one x.layer.live)
          counted in
      let taken = if foreign then counted else joined in
      let joined_lem = λ (e : x.layer.turn ≡ turn).
        walk-BestIsSound lowered (members ++ x ∷ []) rest (live + as_one x.layer.live) counted
          (Fits-join lowered members rest x live e f) b in
      let taken_lem : BestIsSound all width taken.best = elim (Bool-cases foreign) [
        | inl apart ↦ rw apart b
        | inr shared ↦ rw shared (joined_lem (ground arith))
      ] in
      let sound = λ (r : Search). BestIsSound all width r.best in
      if_keeps sound (is_cut s.best live (length lowered)) (λ _. b)
        (λ _.
          if_keeps sound (length members == width)
            (λ full. record_choice-IsSound lowered members (x ∷ rest) live full f)
            (λ _.
              if_keeps sound
                ((x.layer.live || foreign)
                  && ltb 0 taken.steps
                  && leb (width - length members) (length rest)
                  && is_clear members x.layer)
                (λ free.
                  walk-BestIsSound (lowered ++ x ∷ []) members rest live taken
                    (Fits-lower lowered members rest x live (ground arith) f) taken_lem)
                (λ _. taken_lem)))

search_from-BestIsSound :
    (all : List Placed) (width : ℕ) (below rest : List Placed) (s : Search)
    → below ++ rest ≡ all
    → Pairs all
    → BestIsSound all width s.best
    → BestIsSound all width (search_from width below rest s).best
unfolding search_from
search_from-BestIsSound all width below [] s e p b = b
search_from-BestIsSound all width below (x ∷ rest) s e p b =
    let walked = walk width x.layer.turn below [] (x ∷ []) rest (as_one x.layer.live) s in
    let whole = ap (λ ys. ys ++ (x ∷ rest)) (append-nil below) ∙ e in
    let seats : Fits all width x.layer.turn below [] (x ∷ []) rest (as_one x.layer.live) = (
      subst (Perm ((below ++ []) ++ x ∷ rest)) whole (Perm.refl ((below ++ []) ++ x ∷ rest)),
      subst Pairs (sym whole) p,
      (refl, tt),
      omega arith,
      λ _. whole,
    ) in
    let b' =
      walk-BestIsSound all width x.layer.turn below [] (x ∷ []) rest (as_one x.layer.live) s seats
        b in
    let on =
      search_from-BestIsSound all width (below ++ x ∷ []) rest walked
        (append_assoc below (x ∷ []) rest ∙ e) p b' in
    if_keeps (λ r. BestIsSound all width r.best) (leb width (length (x ∷ rest))) (λ _. on) (λ _. b)

-- Whatever the stack and the width: if a group is chosen, its order is the whole stack with each layer
-- once, in which any two layers that overlap stand as they did, and the order it came in where no layer is
-- lowered; in it the group stands together where
-- the choice says, with exactly the width asked for, of one turn, and with as many live layers as the
-- choice says.
pub chosen_is_sound :
    (stack : List GroupMember) (width : ℕ)
    → BestIsSound (numbered 0 stack) width (choose_merge_group stack width)
unfolding choose_merge_group
chosen_is_sound stack width = elim (Bool-cases (width == 0 || ltb (length stack) width)) [
  | inl e ↦ rw e tt
  | inr e ↦ rw e (
      search_from-BestIsSound (numbered 0 stack) width [] (numbered 0 stack)
        (record { steps = most_steps; best = none }) refl (numbered-Pairs 0 stack) tt)
]
