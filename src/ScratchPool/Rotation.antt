-- ===== src/ScratchPool/Rotation.antt =====
-- ScratchPool.cpp: which buffer is handed out, and with which fence.
use mathlib.Core.Path.{subst}
use android_hardware_nvidia.ScratchPool.{ScratchPool, create, next, presented, rewind}
use android_hardware_nvidia.Prelude.{
  Bool, List, Option, [], ap, arith, false, if◌then◌else◌, inl, inr, none, refl, some, sym, true, ℕ,
  ◌%◌, ◌+◌, ◌-◌, ◌<◌, ◌==◌, ◌∙◌, ◌∷◌, ◌≡◌, ◌≤◌, ◌⊎◌,
}
use native.Mathlib.Nat.{add-mod_right, mod_self, mod-lt, mod-eq_of_lt}

-- A frame takes the next buffer to draw into; either it is shown, with the fence on which it appears, or
-- it is lost, and the buffer is taken back.
pub data Frame (Fence : Type 0) : Type 0 where
  shown : Fence → Frame Fence
  lost : Frame Fence

lt-or-eq : (a n : ℕ) → a ≤ n → (a < n) ⊎ (a ≡ n)
lt-or-eq a n h = ground arith

one_back : (a : ℕ) → 0 + (a + 1) - 1 ≡ a
one_back a = omega arith

the_sum : (a n : ℕ) → a + 1 + n - 1 ≡ a + n
the_sum a n = omega arith

-- A slot on the next turn.
after_turn :
    (n a : ℕ) → a < n → ((a + 1) % n ≡ a + 1) × (a + 1 < n) ⊎ ((a + 1) % n ≡ 0) × (a + 1 ≡ n)
after_turn n a h = elim (lt-or-eq (a + 1) n (omega arith)) [
  | inl less ↦ inl (mod-eq_of_lt less, less)
  | inr same ↦ inr (subst (λ m. m % n ≡ 0) (sym same) (mod_self n), same)
]

turn_back : (n a : ℕ) → a < n → ((a + 1) % n + n - 1) % n ≡ a
turn_back n a h = elim (after_turn n a h) [
  | inl (e, less) ↦ rw e (ap (λ m. m % n) (the_sum a n) ∙ add-mod_right a n ∙ mod-eq_of_lt h)
  | inr (e, same) ↦ rw e (
      subst (λ m. (0 + m - 1) % m ≡ a) same
        (ap (λ m. m % (a + 1)) (one_back a) ∙ mod-eq_of_lt (omega arith)))
]

module _ {Fence : Type 0} where
  unfoldable pub frame : ScratchPool Fence → Frame Fence → ScratchPool Fence
  frame p (shown f) = presented f (next p).0
  frame p lost = rewind (next p).0

  unfoldable pub frames : ScratchPool Fence → List (Frame Fence) → ScratchPool Fence
  frames p [] = p
  frames p (f ∷ fs) = frames (frame p f) fs

  -- The frames that were shown, each with its slot and its fence, the latest first.
  abbrev pub shown_after :
      ScratchPool Fence → List (ℕ × Fence) → List (Frame Fence) → List (ℕ × Fence)
  shown_after p done [] = done
  shown_after p done (shown f ∷ fs) =
      shown_after (frame p (shown f)) (((next p).0.at_slot, f) ∷ done) fs
  shown_after p done (lost ∷ fs) = shown_after (frame p lost) done fs

  -- The fence of the frame that replaced the last one shown in a slot: `later` is that of the frame
  -- shown next after the list's.
  abbrev pub replaced_by : ℕ → Option Fence → List (ℕ × Fence) → Option Fence
  replaced_by slot later [] = none
  replaced_by slot later ((s, f) ∷ done) =
      if s == slot then later else replaced_by slot (some f) done

  abbrev pub on_screen : ℕ → List (ℕ × Fence) → Bool
  on_screen slot [] = false
  on_screen slot ((s, _) ∷ done) = s == slot

  abbrev Follows : ℕ → ScratchPool Fence → List (ℕ × Fence) → Type 0
  Follows n p done =
      (p.count ≡ n)
      × (p.at_slot < n)
      × ((i : ℕ) → p.freed_when i ≡ replaced_by i none done)
      × ((done ≡ []) × (p.anything_showing ≡ false)
          ⊎ (p.anything_showing ≡ true)
            × (p.showing ≡ p.at_slot)
            × (on_screen p.at_slot done ≡ true))

  abbrev turned : ScratchPool Fence → ScratchPool Fence
  turned p = record p { at_slot = (p.at_slot + 1) % p.count }

  next-turned :
      (p : ScratchPool Fence)
      → p.at_slot < p.count
      → next p
        ≡ (turned p, some ((p.at_slot + 1) % p.count, p.freed_when ((p.at_slot + 1) % p.count)))
  unfolding next
  next-turned p h = ground arith

  frame_lost : (p : ScratchPool Fence) → p.at_slot < p.count → frame p lost ≡ p
  unfolding frame rewind
  frame_lost p h = rw (next-turned p h) (ground (arith, turn_back p.count p.at_slot h))

  freed-replaced_by :
      (p : ScratchPool Fence) (done : List (ℕ × Fence)) (f : Fence) (i : ℕ)
      → Follows p.count p done
      → (presented f (turned p)).freed_when i
        ≡ replaced_by i none (((p.at_slot + 1) % p.count, f) ∷ done)
  unfolding presented
  freed-replaced_by p [] f i (c, l, e, o) = let same = e i in ground arith
  freed-replaced_by p ((s, g) ∷ done) f i (c, l, e, o) = let same = e i in ground arith

  frame-Follows :
      (p : ScratchPool Fence) (done : List (ℕ × Fence)) (f : Fence)
      → Follows p.count p done
      → Follows p.count (frame p (shown f)) (((next p).0.at_slot, f) ∷ done)
  unfolding frame presented
  frame-Follows p done f h =
      let turns = next-turned p h.1 in
      rw turns (
        refl,
        mod-lt (p.at_slot + 1) (omega arith),
        λ i. unfold presented in freed-replaced_by p done f i h,
        inr (refl, refl, ground arith),
      )

  frames-Follows :
      (n : ℕ) (p : ScratchPool Fence) (done : List (ℕ × Fence)) (fs : List (Frame Fence))
      → Follows n p done
      → Follows n (frames p fs) (shown_after p done fs)
  unfolding frames
  frames-Follows n p done [] h = h
  frames-Follows n p done (shown f ∷ fs) h =
      frames-Follows n (frame p (shown f)) (((next p).0.at_slot, f) ∷ done) fs (
        subst (λ m. Follows m (frame p (shown f)) (((next p).0.at_slot, f) ∷ done)) h.0
          (frame-Follows p done f (subst (λ m. Follows m p done) (sym h.0) h)))
  frames-Follows n p done (lost ∷ fs) h =
      frames-Follows n (frame p lost) done fs
        (subst (λ q. Follows n q done) (sym (frame_lost p (rw (h.0) (h.1)))) h)

  turned_off_screen :
      (p : ScratchPool Fence) (done : List (ℕ × Fence))
      → Follows p.count p done
      → 2 ≤ p.count
      → on_screen ((p.at_slot + 1) % p.count) done ≡ false
  turned_off_screen p [] h two = refl
  turned_off_screen p ((s, g) ∷ done) h two =
      let turns = after_turn p.count p.at_slot h.1 in ground arith

  next_given :
      (p : ScratchPool Fence) (done : List (ℕ × Fence))
      → Follows p.count p done
      → 2 ≤ p.count
      → ((next p).1 ≡ some ((next p).0.at_slot, replaced_by (next p).0.at_slot none done))
        × (on_screen (next p).0.at_slot done ≡ false)
        × ((next p).0.at_slot < p.count)
  next_given p done h two = rw (next-turned p h.1) (
    ap (λ f. some ((p.at_slot + 1) % p.count, f)) (h.2 ((p.at_slot + 1) % p.count)),
    turned_off_screen p done h two,
    mod-lt (p.at_slot + 1) (omega arith),
  )

  create-Follows : (n : ℕ) → 0 < n → Follows n (create n) []
  unfolding create
  create-Follows n h = (refl, h, λ i. refl, inl (refl, refl))

  -- In a pool of at least two buffers, after any frames, shown and lost: the buffer handed out next is
  -- not the one on the screen, and its fence is that of the frame which replaced the last one shown in
  -- it, none if it was never shown.
  pub next_is_free :
      (n : ℕ) (fs : List (Frame Fence))
      → 2 ≤ n
      → let done = shown_after (create n) [] fs in
        let (p, given) = next (frames (create n) fs) in
        (given ≡ some (p.at_slot, replaced_by p.at_slot none done))
        × (on_screen p.at_slot done ≡ false)
        × (p.at_slot < n)
  next_is_free n fs h =
      let follows = frames-Follows n (create n) [] fs (create-Follows n (omega arith)) in
      let p = frames (create n) fs in
      let done = shown_after (create n) [] fs in
      let (given, off, less) =
        next_given p done (subst (λ m. Follows m p done) (sym follows.0) follows)
          (rw (follows.0) h) in
      (given, off, subst (λ m. (next p).0.at_slot < m) follows.0 less)
