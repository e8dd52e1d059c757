-- ===== src/HdcpController/Decides.antt =====
-- HdcpController.cpp: a request is decided by the thread alone.
use android_hardware_nvidia.HdcpController.Turns.{
  told, AllLate, IsDecided, IsDecidedNow, calm_told, frames, is_requested-decided, run_thread,
  run_thread_calm, run_thread_idle, step_idle, step_nears, steps_left,
}
use android_hardware_nvidia.Prelude.{
  Bool, List, Option, [], ap, arith, false, inl, inr, length, not, refl, suc, sym, true, ℕ, ◌||◌,
  ◌∙◌, ◌∷◌, ◌≡◌, ◌≢◌, ◌≤◌,
}
use android_hardware_nvidia.HdcpController.{
  ContentType, Controller, HdcpState, Thread, exited, is_requested, requested, thread_step,
}
use mathlib.Core.Path.{subst}

-- Whether the connector gives an answer in one of the rounds.
abbrev pub is_answered : Bool → List (ℕ × Bool) → Bool
is_answered cp [] = false
is_answered true (r ∷ rs) = r.1 || is_answered true rs
is_answered false (r ∷ rs) = not r.1 || is_answered false rs

abbrev pub IsSettled : Controller → List (ℕ × Bool) → Controller → Type 0
IsSettled c rs d =
    (cp : Bool) × ((is_answered cp rs ≡ true)
      × IsDecided c.was_retry cp (told c) (frames c) d.state d.notices d.retry_frames)

IsDecided-same :
    (again cp : Bool) (ns was is : List (Option ContentType)) (n m k : ℕ) (s s' : HdcpState)
    → s' ≡ s
    → is ≡ was
    → k ≡ m
    → IsDecided again cp ns n s was m
    → IsDecided again cp ns n s' is k
IsDecided-same again cp ns was is n m k s s' e e' e'' h = rw (e, e', e'') h

asked_same :
    (again again' cp : Bool) (ns was : List (Option ContentType)) (n m : ℕ) (s : HdcpState)
    (ns' : List (Option ContentType)) (n' : ℕ)
    → again' ≡ again
    → was ≡ ns
    → m ≡ n
    → IsDecided again' cp was m s ns' n'
    → IsDecided again cp ns n s ns' n'
asked_same again again' cp ns was n m s ns' n' e e' e'' h =
    subst (λ a. IsDecided a cp ns n s ns' n') e
      (subst (λ l. IsDecided again' cp l n s ns' n') e'
        (subst (λ k. IsDecided again' cp was k s ns' n') e'' h))

is_answered_now :
    (r : ℕ × Bool) (rs : List (ℕ × Bool)) (cp : Bool) → r.1 ≡ cp → is_answered cp (r ∷ rs) ≡ true
is_answered_now r rs true e = ground (arith, e)
is_answered_now r rs false e = ground (arith, e)

is_answered_later :
    (r : ℕ × Bool) (rs : List (ℕ × Bool)) (cp : Bool)
    → is_answered cp rs ≡ true
    → is_answered cp (r ∷ rs) ≡ true
is_answered_later r rs true e = ground (arith, e)
is_answered_later r rs false e = ground (arith, e)

steps_are_left : (t : Thread) → t ≢ exited → 1 ≤ steps_left t
steps_are_left t x = ground arith

settled_now :
    (c d : Controller) (cp : Bool) (rs : List (ℕ × Bool))
    → IsDecidedNow c cp d
    → 1 ≤ length rs
    → IsDecided c.was_retry cp
        (told c)
        (frames c)
        (run_thread d rs).state
        (run_thread d rs).notices
        (run_thread d rs).retry_frames
settled_now c d cp [] h l = absurd (omega arith)
settled_now c d cp (r ∷ rs) h l =
    let idle =
      is_requested-decided c.was_retry cp (told c) (told d) (frames c) (frames d) d.state h in
    let (s, (t, f)) = run_thread_idle d (r ∷ rs) idle in
    let (s', (_, (_, calm))) = step_idle d r.0 r.1 idle in
    let last = run_thread_calm (thread_step r.0 r.1 d) rs (ap is_requested s' ∙ idle) calm in
    let (t', f') = calm_told (run_thread d (r ∷ rs)) last in
    IsDecided-same c.was_retry cp (told c) (told d) _ (frames c) (frames d) _ d.state _ s
      (sym t' ∙ t) (sym f' ∙ f) h

decides_in :
    (c : Controller) (rs : List (ℕ × Bool))
    → c.state ≡ requested
    → c.thread ≢ exited
    → AllLate c.sleep_until rs
    → suc (steps_left c.thread) ≤ length rs
    → IsSettled c rs (run_thread c rs)
decides_in c [] s x l n = absurd (omega arith)
decides_in c (r ∷ rs) s x (l, ls) n = elim (step_nears c r.0 r.1 s x l) [
  | inl d ↦ (
    r.1,
    (
      is_answered_now r rs r.1 refl,
      settled_now c (thread_step r.0 r.1 c) r.1 rs d (omega (arith, n, steps_are_left c.thread x)),
    ),
  )
  | inr (s', (x', (e, (w, (t, (f, m)))))) ↦
      let next = thread_step r.0 r.1 c in
      let (cp, (answered, d)) =
        decides_in next rs s' x' (subst (λ u. AllLate u rs) (sym e) ls) (omega (arith, n, m)) in
      (
        cp,
        (
          is_answered_later r rs cp answered,
          asked_same c.was_retry next.was_retry cp (told c) (told next) (frames c) (frames next)
              (run_thread next rs).state (run_thread next rs).notices
              (run_thread next rs).retry_frames w t f d,
        ),
      )
]

-- The thread has not ended, and the client makes no call meanwhile. A request whose deadline has passed is
-- decided, and the client told, within five steps of the thread, wherever the thread stands, by an answer
-- that the connector gave in one of the steps. If it says that content is protected, protection is enabled and
-- the client is told of it, of the lesser type where the request was a second try; if not, a second try is
-- given up and the client is told so, and after a first one frame more is asked for, to try again. Besides
-- this only the callback that the thread was about to make is made, and later steps take nothing back.
pub deadline_decides :
    (c : Controller) (rs : List (ℕ × Bool))
    → c.state ≡ requested
    → c.thread ≢ exited
    → AllLate c.sleep_until rs
    → 5 ≤ length rs
    → IsSettled c rs (run_thread c rs)
deadline_decides c rs s x l n = decides_in c rs s x l (ground arith)
