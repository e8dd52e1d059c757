-- ===== src/Governor/FenceWatch/Ownership.antt =====
-- FenceWatch.cpp: every descriptor handed over is closed once, and none is lost.
use mathlib.Core.Path.{subst}
use android_hardware_nvidia.Prelude.{
  Bool-cases, List, [], arith, if◌then◌else◌, inl, inr, ltb_ℤ, pos, refl, suc, sym, ℕ, ℤ, ◌++◌, ◌∷◌,
  ◌≡◌,
}
use mathlib.Core.List.{append-nil, append_assoc, Perm, perm_middle}
use mathlib.Core.List.Perm
use android_hardware_nvidia.Governor.FenceWatch.{
  FenceWatch, PollSlot, Watched, add, drop_all, fds_of, judge, judge_from, no_fences,
}

-- What the composer hands over or asks of the watch, in the order in which the governor's thread does
-- it.
pub data Act : Type 0 where
  adds : ℤ → ℕ → ℕ → Act
  judges : List PollSlot → ℕ → ℕ → ℕ → Act
  drops : Act

-- One act: the watch after it, and the descriptors that it closes.
act : FenceWatch → Act → FenceWatch × List ℤ
act w (adds fd seq now_ns) = (add w fd seq now_ns, [])
act w (judges fds first_slot now_ns patience_ns) =
    let j = judge w fds first_slot now_ns patience_ns in (j.watch, j.closed)
act w drops = drop_all w

-- The descriptor that an act hands over: none if it could not be copied.
given : Act → List ℤ
given (adds fd seq now_ns) = if ltb_ℤ fd (pos 0) then [] else fd ∷ []
given _ = []

pub acts : FenceWatch → List Act → FenceWatch × List ℤ
unfolding act
acts w [] = (w, [])
acts w (a ∷ as') =
    let (w', closed) = act w a in let (w'', rest) = acts w' as' in (w'', closed ++ rest)

pub all_given : List Act → List ℤ
unfolding given
all_given [] = []
all_given (a ∷ as') = given a ++ all_given as'

judge_from-perm :
    (fds : List PollSlot) (slot now_ns patience_ns : ℕ) (ws : List Watched)
    → let r = judge_from fds slot now_ns patience_ns ws in Perm (fds_of ws) (r.1 ++ fds_of r.0)
unfolding judge_from
judge_from-perm fds slot now_ns patience_ns [] = Perm.nil
judge_from-perm fds slot now_ns patience_ns (w ∷ ws) =
    let r = judge_from fds (suc slot) now_ns patience_ns ws in
    let rest = Perm.cons w.fd (judge_from-perm fds (suc slot) now_ns patience_ns ws) in
    ground (arith, rest, Perm.trans rest (Perm.symm (perm_middle r.1 (fds_of r.0))))

fds_of-append : (ws vs : List Watched) → fds_of (ws ++ vs) ≡ fds_of ws ++ fds_of vs
fds_of-append [] vs = refl
fds_of-append (w ∷ ws) vs = rw (fds_of-append ws vs)

perm_of_eq {ℓ} : {A : Type ℓ} {xs ys : List A} → xs ≡ ys → Perm xs ys
perm_of_eq {xs} e = subst (Perm xs) e (Perm.refl xs)

-- An act moves descriptors from the hands of the composer to the watch, or from the watch to the
-- closed ones.
act-perm :
    (w : FenceWatch) (a : Act)
    → Perm (fds_of w.watched ++ given a) ((act w a).1 ++ fds_of (act w a).0.watched)
unfolding act given add judge drop_all
act-perm w (adds fd seq now_ns) = elim (Bool-cases (ltb_ℤ fd (pos 0))) [
  | inl failed ↦ rw failed (perm_of_eq (append-nil _))
  | inr copied ↦ rw copied (perm_of_eq (sym (fds_of-append w.watched _)))
]
act-perm w (judges fds first_slot now_ns patience_ns) =
    rw (append-nil (fds_of w.watched)) (judge_from-perm fds first_slot now_ns patience_ns w.watched)
act-perm w drops = Perm.refl _

acts-perm :
    (w : FenceWatch) (as' : List Act)
    → Perm (fds_of w.watched ++ all_given as') ((acts w as').1 ++ fds_of (acts w as').0.watched)
unfolding acts all_given
acts-perm w [] = perm_of_eq (append-nil _)
acts-perm w (a ∷ as') =
    let (w', closed) = act w a in
    let (w'', rest) = acts w' as' in
    Perm.trans (perm_of_eq (sym (append_assoc (fds_of w.watched) (given a) (all_given as')))) (
      Perm.trans (Perm.append (act-perm w a) (Perm.refl (all_given as'))) (
        Perm.trans (perm_of_eq (append_assoc closed (fds_of w'.watched) (all_given as'))) (
          Perm.trans (Perm.append (Perm.refl closed) (acts-perm w' as'))
            (perm_of_eq (sym (append_assoc closed rest (fds_of w''.watched)))))))

all_given-drop : (as' : List Act) → all_given (as' ++ drops ∷ []) ≡ all_given as'
unfolding all_given
all_given-drop [] = refl
all_given-drop (a ∷ as') = rw (all_given-drop as')

acts-drop : (w : FenceWatch) (as' : List Act) → fds_of (acts w (as' ++ drops ∷ [])).0.watched ≡ []
unfolding acts drop_all
acts-drop w [] = refl
acts-drop w (a ∷ as') = acts-drop (act w a).0 as'

-- From a watch that holds none, whatever is added, judged and dropped: the descriptors handed over are,
-- each as often, those that were closed and those still watched. So none is lost and none is closed
-- twice, and after a drop all of them are closed.
pub fences_are_owned :
    (as' : List Act)
    → let r = acts no_fences as' in
      Perm (all_given as') (r.1 ++ fds_of r.0.watched)
      × Perm (all_given as') (acts no_fences (as' ++ drops ∷ [])).1
unfolding no_fences
fences_are_owned as' =
    let last = acts-perm (record { watched = []; latest_seq = 0 }) (as' ++ drops ∷ []) in
    (
      acts-perm (record { watched = []; latest_seq = 0 }) as',
      rw
          (
            all_given-drop as',
            acts-drop (record { watched = []; latest_seq = 0 }) as',
            append-nil (acts (record { watched = []; latest_seq = 0 }) (as' ++ drops ∷ [])).1,
          )
          at last,
    )
