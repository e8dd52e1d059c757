-- ===== src/MergeGroup.antt =====
-- compositor/MergeGroup.cpp: which layers are merged in one turn of the engine, and the stack reordered
-- around them. A position of the stack is kept with the layer that stands there.
pub mod Moves
pub mod Sound
mod Tests
use android_hardware_nvidia.Prelude.{
  Bool, List, Option, [], false, if◌then◌else◌, leb, length, ltb, ltb_ℤ, max_ℤ, min_ℤ, none, not,
  some, suc, true, ℕ, ℤ, ◌&&◌, ◌++◌, ◌+◌, ◌-◌, ◌==◌, ◌||◌, ◌∷◌,
}

pub record Frame : Type 0 where
  pub left : ℤ
  pub top : ℤ
  pub right : ℤ
  pub bottom : ℤ

pub record GroupMember : Type 0 where
  pub live : Bool
  pub frame : Option Frame
  pub turn : ℕ

pub record Placed : Type 0 where
  pub index : ℕ
  pub layer : GroupMember

pub record GroupChoice : Type 0 where
  pub order : List Placed
  pub begin : ℕ
  pub width : ℕ
  pub live : ℕ
  pub lowered : ℕ

unfoldable pub overlaps : GroupMember → GroupMember → Bool
overlaps a b = elim a.frame [
  | none ↦ true
  | some p ↦ elim b.frame [
    | none ↦ true
    | some q ↦
        ltb_ℤ (max_ℤ p.left q.left) (min_ℤ p.right q.right)
        && ltb_ℤ (max_ℤ p.top q.top) (min_ℤ p.bottom q.bottom)
  ]
]

abbrev pub numbered : ℕ → List GroupMember → List Placed
numbered n [] = []
numbered n (l ∷ ls) = record { index = n; layer = l } ∷ numbered (suc n) ls

-- What of the search goes on from walk to walk.
pub record Search : Type 0 where
  pub steps : ℕ
  pub best : Option GroupChoice

abbrev pub most_steps : ℕ
most_steps = 4096

abbrev pub as_one : Bool → ℕ
as_one b = if b then 1 else 0

-- A branch is cut that carries as many live layers as the best so far and lowers as many.
unfoldable pub is_cut : Option GroupChoice → ℕ → ℕ → Bool
is_cut none live lowered = false
is_cut (some best) live lowered =
    ltb best.live live || (live == best.live && leb best.lowered lowered)

-- `none_of` over the members taken.
unfoldable pub is_clear : List Placed → GroupMember → Bool
is_clear [] layer = true
is_clear (m ∷ ms) layer = not (overlaps m.layer layer) && is_clear ms layer

module _ (width turn : ℕ) (below : List Placed) where
  unfoldable pub record_choice : List Placed → List Placed → List Placed → ℕ → GroupChoice
  record_choice lowered members rest live = record {
    order = (below ++ lowered) ++ (members ++ rest);
    begin = length (below ++ lowered);
    width = width;
    live = live;
    lowered = length lowered;
  }

  -- `Walk`, at the first layer of `rest`. The two branches are named before the tests that choose between
  -- them.
  unfoldable pub walk : List Placed → List Placed → List Placed → ℕ → Search → Search
  unfolding record_choice
  walk lowered members [] live s =
      if is_cut s.best live (length lowered)
      then record s { steps = s.steps - 1 }
      else if length members == width
      then record { steps = s.steps - 1; best = some (record_choice lowered members [] live) }
      else record s { steps = s.steps - 1 }
  walk lowered members (x ∷ rest) live s =
      let counted = record s { steps = s.steps - 1 } in
      let foreign = not (x.layer.turn == turn) in
      let joined = walk lowered (members ++ x ∷ []) rest (live + as_one x.layer.live) counted in
      let taken = if foreign then counted else joined in
      let moved = walk (lowered ++ x ∷ []) members rest live taken in
      if is_cut s.best live (length lowered)
      then counted
      else if length members == width
      then record counted { best = some (record_choice lowered members (x ∷ rest) live) }
      else if (x.layer.live || foreign)
          && ltb 0 taken.steps
          && leb (width - length members) (length rest)
          && is_clear members x.layer
      then moved
      else taken

-- The loop of `ChooseMergeGroup` over the starts.
unfoldable pub search_from : ℕ → List Placed → List Placed → Search → Search
search_from width below [] s = s
search_from width below (x ∷ rest) s =
    if leb width (length (x ∷ rest))
    then search_from width (below ++ x ∷ []) rest
        (walk width x.layer.turn below [] (x ∷ []) rest (as_one x.layer.live) s)
    else s

unfoldable pub choose_merge_group : List GroupMember → ℕ → Option GroupChoice
choose_merge_group stack width =
    if width == 0 || ltb (length stack) width
    then none
    else (search_from width [] (numbered 0 stack) (record { steps = most_steps; best = none })).best
