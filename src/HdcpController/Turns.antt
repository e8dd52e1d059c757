-- ===== src/HdcpController/Turns.antt =====
-- HdcpController.cpp: turns of the thread with no call of the client between them.
use android_hardware_nvidia.Prelude.{
  Bool, List, Option, [], ap, arith, false, if◌then◌else◌, none, refl, some, suc, true, ℕ, ◌<◌, ◌∙◌,
  ◌∷◌, ◌≡◌, ◌≢◌, ◌≤◌, ◌⊎◌,
}
use android_hardware_nvidia.HdcpController.{
  ContentType, Controller, HdcpState, Thread, checks, checks_early, enabled, exited, is_requested,
  look, looks, notifies, requested, retry, set_content_protection_status, thread_step, triggers,
  type0, type1, undesired, waits, waits_until,
}

-- Rounds of the thread with no call of the client between them: what the clock reads and what the
-- connector answers.
abbrev pub run_thread : Controller → List (ℕ × Bool) → Controller
run_thread c [] = c
run_thread c (r ∷ rs) = run_thread (thread_step r.0 r.1 c) rs

abbrev pub AllLate : ℕ → List (ℕ × Bool) → Type 0
AllLate deadline [] = Unit {0}
AllLate deadline (r ∷ rs) = (deadline ≤ r.0) × AllLate deadline rs

-- The steps of the thread that are left before it decides, once the deadline has passed.
abbrev pub steps_left : Thread → ℕ
steps_left looks = 2
steps_left waits = 3
steps_left (waits_until _) = 4
steps_left checks_early = 3
steps_left checks = 1
steps_left (notifies _) = 3
steps_left triggers = 3
steps_left exited = 0

-- The notices and the frames asked for, with the callback that the thread is about to make.
abbrev pub told_by : Thread → List (Option ContentType) → List (Option ContentType)
told_by (notifies t) ns = t ∷ ns
told_by _ ns = ns

abbrev pub frames_by : Thread → ℕ → ℕ
frames_by triggers n = suc n
frames_by _ n = n

abbrev pub told : Controller → List (Option ContentType)
told c = told_by c.thread c.notices

abbrev pub frames : Controller → ℕ
frames c = frames_by c.thread c.retry_frames

-- How a request is decided, by whether it is tried again and by what the connector answers: what the client
-- is told, on top of `ns`, and the frames that were asked for, on top of `n`.
abbrev pub IsDecided :
    Bool → Bool → List (Option ContentType) → ℕ → HdcpState → List (Option ContentType) → ℕ → Type 0
IsDecided again true ns n s ns' n' =
    (s ≡ enabled) × ((ns' ≡ (if again then some type0 else some type1) ∷ ns) × (n' ≡ n))
IsDecided true false ns n s ns' n' = (s ≡ undesired) × ((ns' ≡ none ∷ ns) × (n' ≡ n))
IsDecided false false ns n s ns' n' = (s ≡ retry) × ((ns' ≡ ns) × (n' ≡ suc n))

-- A thread that calls nobody back at its next step.
abbrev pub is_calm : Thread → Bool
is_calm (notifies _) = false
is_calm triggers = false
is_calm _ = true

pub step_idle :
    (c : Controller) (now : ℕ) (cp : Bool)
    → is_requested c.state ≡ false
    → let d = thread_step now cp c in
      (d.state ≡ c.state)
      × ((told d ≡ told c) × ((frames d ≡ frames c) × (is_calm d.thread ≡ true)))
unfolding thread_step look set_content_protection_status
step_idle c now cp h = ground arith

-- What stays as it is while the thread comes to its decision.
abbrev pub IsAsking : Controller → Controller → Type 0
IsAsking c d =
    (d.state ≡ requested)
    × ((d.thread ≢ exited)
        × ((d.sleep_until ≡ c.sleep_until)
            × ((d.was_retry ≡ c.was_retry)
                × ((told d ≡ told c)
                    × ((frames d ≡ frames c) × (steps_left d.thread < steps_left c.thread))))))

abbrev pub IsDecidedNow : Controller → Bool → Controller → Type 0
IsDecidedNow c cp d = IsDecided c.was_retry cp (told c) (frames c) d.state (told d) (frames d)

pub step_nears :
    (c : Controller) (now : ℕ) (cp : Bool)
    → c.state ≡ requested
    → c.thread ≢ exited
    → c.sleep_until ≤ now
    → IsDecidedNow c cp (thread_step now cp c) ⊎ IsAsking c (thread_step now cp c)
unfolding thread_step look set_content_protection_status
step_nears c now cp s x l = ground arith

pub is_requested-decided :
    (again cp : Bool) (ns ns' : List (Option ContentType)) (n n' : ℕ) (s : HdcpState)
    → IsDecided again cp ns n s ns' n'
    → is_requested s ≡ false
is_requested-decided again true ns ns' n n' s h = ground arith
is_requested-decided true false ns ns' n n' s h = ground arith
is_requested-decided false false ns ns' n n' s h = ground arith

pub run_thread_idle :
    (c : Controller) (rs : List (ℕ × Bool))
    → is_requested c.state ≡ false
    → let d = run_thread c rs in (d.state ≡ c.state) × ((told d ≡ told c) × (frames d ≡ frames c))
run_thread_idle c [] h = (refl, (refl, refl))
run_thread_idle c (r ∷ rs) h =
    let (s, (t, (f, _))) = step_idle c r.0 r.1 h in
    let (s', (t', f')) = run_thread_idle (thread_step r.0 r.1 c) rs (ap is_requested s ∙ h) in
    (s' ∙ s, (t' ∙ t, f' ∙ f))

pub run_thread_calm :
    (c : Controller) (rs : List (ℕ × Bool))
    → is_requested c.state ≡ false
    → is_calm c.thread ≡ true
    → is_calm (run_thread c rs).thread ≡ true
run_thread_calm c [] h k = k
run_thread_calm c (r ∷ rs) h k =
    let (s, (_, (_, calm))) = step_idle c r.0 r.1 h in
    run_thread_calm (thread_step r.0 r.1 c) rs (ap is_requested s ∙ h) calm

pub calm_told :
    (c : Controller) → is_calm c.thread ≡ true → (told c ≡ c.notices) × (frames c ≡ c.retry_frames)
calm_told c h = ground arith
