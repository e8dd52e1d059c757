-- ===== src/Governor/Mailbox/Deliveries.antt =====
-- Mailbox.cpp: what the thread gets of what the composer leaves.
use android_hardware_nvidia.Governor.Mailbox.{
  Bell, Mailbox, Power, ask_stop, is_on, plan, plan_gpu, ring, set_power, submit, submit_gpu, take,
}
use android_hardware_nvidia.Prelude.{
  List, [], ap, arith, if_result, if◌then◌else◌, inl, inr, none, refl, sym, ◌++◌, ◌==◌, ◌∙◌, ◌∷◌,
  ◌≡◌,
}
use android_hardware_nvidia.Governor.Mailbox.Calls.{
  Call, IsRung, Post, call, calls, got_gpu_of, got_of, plans, plans_gpu, powers, reported_gpu_of,
  reported_of, rings, standing, standing_gpu, stops, submits, submits_gpu, takes,
}
use mathlib.Core.List.{append-nil, append_assoc}

module _ (bell : Bell) {Frame Member : Type 0} where
  open bell use {State}

  call-IsRung :
      (p : Post State Frame Member) (c : Call Frame Member)
      → IsRung bell p
      → IsRung bell (call bell p c).0
  call-IsRung p (plans frame members) h = inr (inr (omega arith))
  call-IsRung p (submits w) h = inr (inr (omega arith))
  call-IsRung p (plans_gpu q) h = inr (inr (omega arith))
  call-IsRung p (submits_gpu w) h = inr (inr (omega arith))
  call-IsRung p (powers mode) h = inr (inr (omega arith))
  call-IsRung p stops h = inr (inr (omega arith))
  call-IsRung p (takes rung) h = unfold take in inl (refl, (refl, refl, refl, refl))
  call-IsRung p rings h =
      if_result {A = Post State Frame Member} (IsRung bell) (p.rings_due == 0) h
        (unfold ring in inr (inl (bell.is_readable-ring p.box.event)))

  calls-IsRung :
      (m : Post State Frame Member) (cs : List (Call Frame Member))
      → IsRung bell m
      → IsRung bell (calls bell m cs).0
  unfolding calls
  calls-IsRung m [] h = h
  calls-IsRung m (c ∷ cs) h = calls-IsRung (call bell m c).0 cs (call-IsRung m c h)

  rings_keep :
      (p : Post State Frame Member)
      → let m = (call bell p rings).0.box in
        (m.submitted ≡ p.box.submitted)
        × (m.gpu_submitted ≡ p.box.gpu_submitted)
        × (m.pending ≡ p.box.pending)
        × (m.gpu_pending ≡ p.box.gpu_pending)
  rings_keep p =
      if_result {A = Post State Frame Member}
        (λ q.
          (q.box.submitted ≡ p.box.submitted)
          × (q.box.gpu_submitted ≡ p.box.gpu_submitted)
          × (q.box.pending ≡ p.box.pending)
          × (q.box.gpu_pending ≡ p.box.gpu_pending))
        (p.rings_due == 0) (refl, refl, refl, refl) (unfold ring in (refl, refl, refl, refl))

  set_power-submitted :
      (m : Mailbox State Frame Member) (mode : Power)
      → m.submitted ≡ (set_power bell mode m).submitted
  unfolding set_power
  set_power-submitted m mode = ground arith

  calls-submitted :
      (m : Post State Frame Member) (cs : List (Call Frame Member))
      → let (after, got) = calls bell m cs in
        m.box.submitted ++ reported_of cs ≡ got_of bell got ++ after.box.submitted
  unfolding calls plan submit plan_gpu submit_gpu ask_stop take
  calls-submitted m [] = append-nil m.box.submitted
  calls-submitted m (plans frame members ∷ cs) =
      calls-submitted (call bell m (plans frame members)).0 cs
  calls-submitted m (submits w ∷ cs) =
      sym (append_assoc m.box.submitted (w ∷ []) (reported_of cs))
      ∙ calls-submitted (call bell m (submits w)).0 cs
  calls-submitted m (plans_gpu p ∷ cs) = calls-submitted (call bell m (plans_gpu p)).0 cs
  calls-submitted m (submits_gpu w ∷ cs) = calls-submitted (call bell m (submits_gpu w)).0 cs
  calls-submitted m (powers mode ∷ cs) =
      ap (λ ws. ws ++ reported_of cs) (set_power-submitted m.box mode)
      ∙ calls-submitted (call bell m (powers mode)).0 cs
  calls-submitted m (stops ∷ cs) = calls-submitted (call bell m stops).0 cs
  calls-submitted m (rings ∷ cs) =
      ap (λ ws. ws ++ reported_of cs) (sym (rings_keep m).0)
      ∙ calls-submitted (call bell m rings).0 cs
  calls-submitted m (takes rung ∷ cs) =
      let rest = calls-submitted (call bell m (takes rung)).0 cs in
      ap (λ ws. m.box.submitted ++ ws) rest
      ∙ sym (
          append_assoc m.box.submitted (got_of bell (calls bell (call bell m (takes rung)).0 cs).1)
            (calls bell (call bell m (takes rung)).0 cs).0.box.submitted)

  set_power-gpu_submitted :
      (m : Mailbox State Frame Member) (mode : Power)
      → m.gpu_submitted ≡ (set_power bell mode m).gpu_submitted
  unfolding set_power
  set_power-gpu_submitted m mode = ground arith

  calls-gpu_submitted :
      (m : Post State Frame Member) (cs : List (Call Frame Member))
      → let (after, got) = calls bell m cs in
        m.box.gpu_submitted ++ reported_gpu_of cs ≡ got_gpu_of bell got ++ after.box.gpu_submitted
  unfolding calls plan submit plan_gpu submit_gpu ask_stop take
  calls-gpu_submitted m [] = append-nil m.box.gpu_submitted
  calls-gpu_submitted m (plans frame members ∷ cs) =
      calls-gpu_submitted (call bell m (plans frame members)).0 cs
  calls-gpu_submitted m (submits w ∷ cs) = calls-gpu_submitted (call bell m (submits w)).0 cs
  calls-gpu_submitted m (plans_gpu p ∷ cs) = calls-gpu_submitted (call bell m (plans_gpu p)).0 cs
  calls-gpu_submitted m (submits_gpu w ∷ cs) =
      sym (append_assoc m.box.gpu_submitted (w ∷ []) (reported_gpu_of cs))
      ∙ calls-gpu_submitted (call bell m (submits_gpu w)).0 cs
  calls-gpu_submitted m (powers mode ∷ cs) =
      ap (λ ws. ws ++ reported_gpu_of cs) (set_power-gpu_submitted m.box mode)
      ∙ calls-gpu_submitted (call bell m (powers mode)).0 cs
  calls-gpu_submitted m (stops ∷ cs) = calls-gpu_submitted (call bell m stops).0 cs
  calls-gpu_submitted m (rings ∷ cs) =
      ap (λ ws. ws ++ reported_gpu_of cs) (sym (rings_keep m).1)
      ∙ calls-gpu_submitted (call bell m rings).0 cs
  calls-gpu_submitted m (takes rung ∷ cs) =
      let rest = calls-gpu_submitted (call bell m (takes rung)).0 cs in
      ap (λ ws. m.box.gpu_submitted ++ ws) rest
      ∙ sym (
          append_assoc m.box.gpu_submitted
            (got_gpu_of bell (calls bell (call bell m (takes rung)).0 cs).1)
            (calls bell (call bell m (takes rung)).0 cs).0.box.gpu_submitted)

  set_power-pending :
      (m : Mailbox State Frame Member) (mode : Power)
      → (set_power bell mode m).pending ≡ (if is_on mode then m.pending else none)
  unfolding set_power
  set_power-pending m mode = ground arith

  calls-standing :
      (m : Post State Frame Member) (cs : List (Call Frame Member))
      → (calls bell m cs).0.box.pending ≡ standing m.box.pending cs
  unfolding calls plan submit plan_gpu submit_gpu ask_stop take
  calls-standing m [] = refl
  calls-standing m (plans frame members ∷ cs) =
      calls-standing (call bell m (plans frame members)).0 cs
  calls-standing m (submits w ∷ cs) = calls-standing (call bell m (submits w)).0 cs
  calls-standing m (plans_gpu p ∷ cs) = calls-standing (call bell m (plans_gpu p)).0 cs
  calls-standing m (submits_gpu w ∷ cs) = calls-standing (call bell m (submits_gpu w)).0 cs
  calls-standing m (powers mode ∷ cs) =
      calls-standing (call bell m (powers mode)).0 cs
      ∙ ap (λ p. standing p cs) (set_power-pending m.box mode)
  calls-standing m (stops ∷ cs) = calls-standing (call bell m stops).0 cs
  calls-standing m (takes rung ∷ cs) = calls-standing (call bell m (takes rung)).0 cs
  calls-standing m (rings ∷ cs) =
      calls-standing (call bell m rings).0 cs ∙ ap (λ p. standing p cs) (rings_keep m).2

  set_power-gpu_pending :
      (m : Mailbox State Frame Member) (mode : Power)
      → (set_power bell mode m).gpu_pending ≡ (if is_on mode then m.gpu_pending else none)
  unfolding set_power
  set_power-gpu_pending m mode = ground arith

  calls-standing_gpu :
      (m : Post State Frame Member) (cs : List (Call Frame Member))
      → (calls bell m cs).0.box.gpu_pending ≡ standing_gpu m.box.gpu_pending cs
  unfolding calls plan submit plan_gpu submit_gpu ask_stop take
  calls-standing_gpu m [] = refl
  calls-standing_gpu m (plans frame members ∷ cs) =
      calls-standing_gpu (call bell m (plans frame members)).0 cs
  calls-standing_gpu m (submits w ∷ cs) = calls-standing_gpu (call bell m (submits w)).0 cs
  calls-standing_gpu m (plans_gpu p ∷ cs) = calls-standing_gpu (call bell m (plans_gpu p)).0 cs
  calls-standing_gpu m (submits_gpu w ∷ cs) = calls-standing_gpu (call bell m (submits_gpu w)).0 cs
  calls-standing_gpu m (powers mode ∷ cs) =
      calls-standing_gpu (call bell m (powers mode)).0 cs
      ∙ ap (λ p. standing_gpu p cs) (set_power-gpu_pending m.box mode)
  calls-standing_gpu m (stops ∷ cs) = calls-standing_gpu (call bell m stops).0 cs
  calls-standing_gpu m (takes rung ∷ cs) = calls-standing_gpu (call bell m (takes rung)).0 cs
  calls-standing_gpu m (rings ∷ cs) =
      calls-standing_gpu (call bell m rings).0 cs ∙ ap (λ p. standing_gpu p cs) (rings_keep m).3

  -- At first the thread has taken in every call and nothing is left, or its descriptor reads as ready, or a
  -- call has still to ring. Then come any calls of the composer, the rings that they make once they have let go
  -- of the mutex, and the thread's takes, in any order. The work that is reported reaches the thread in order and
  -- without loss, up to what is still in the box; each of the two plans in the box is the last one, unless it
  -- was taken or the display went dark since; and where a call was made that the thread has not taken in, the
  -- descriptor reads as ready or a call that was made has still to ring, so that once every call has rung the
  -- descriptor is ready.
  pub mail_is_delivered :
      (m : Post State Frame Member) (cs : List (Call Frame Member))
      → IsRung bell m
      → let (after, got) = calls bell m cs in
        (m.box.submitted ++ reported_of cs ≡ got_of bell got ++ after.box.submitted)
        × (m.box.gpu_submitted ++ reported_gpu_of cs
            ≡ got_gpu_of bell got ++ after.box.gpu_submitted)
        × (after.box.pending ≡ standing m.box.pending cs)
        × (after.box.gpu_pending ≡ standing_gpu m.box.gpu_pending cs)
        × IsRung bell after
  mail_is_delivered m cs h = (
    calls-submitted m cs,
    calls-gpu_submitted m cs,
    calls-standing m cs,
    calls-standing_gpu m cs,
    calls-IsRung m cs h,
  )
