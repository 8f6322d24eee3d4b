-- ===== src/RetransmissionController/Tracking.antt =====
-- Which slots stay tracked, and which are asked for again (cpp/src/rtx-controller.cpp).
use ndnrtc.Base.{
  ℕ, ◌≡◌, ◌+◌, ◌≤◌, ◌↔◌, ◌⊎◌, refl, subst, true, Option, none, some, List, [], ◌∷◌, ◌++◌, arith,
  All, if◌then◌else◌, Bool-cases, inl, inr,
}
use ndnrtc.FrameBuffer.Names.{Order, Interest}
use ndnrtc.FrameBuffer.SampleMap.{find, IsSorted, find-below}
use ndnrtc.FrameBuffer.SlotState.{new, assembling, Slot}
use ndnrtc.RetransmissionController.{
  ActiveSlot, Controller, is_assembled_or_cleared, is_tracked, calls_for, check_loop,
  check_retransmissions,
}

module _ {K : Type 0} ⦃o : Order K⦄ (slots : ℕ → Slot K) (now drd : ℕ) where
  check_loop-above :
      (j : K) (m : List (K × ActiveSlot)) (required : List (List (Interest K)))
      → All (λ p. o.lt j p.0 ≡ true) m
      → All (λ p. o.lt j p.0 ≡ true) (check_loop slots now drd m required).0
  unfolding check_loop
  check_loop-above j [] required a = tt
  check_loop-above j ((k, e) ∷ m) required (l, a) =
      ground (arith, l, check_loop-above j m (calls_for slots now drd e ++ required) a)

  check_loop-IsSorted :
      (m : List (K × ActiveSlot)) (required : List (List (Interest K)))
      → IsSorted m
      → IsSorted (check_loop slots now drd m required).0
  unfolding check_loop
  check_loop-IsSorted [] required s = tt
  check_loop-IsSorted ((k, e) ∷ m) required (a, s) = ground (
    arith,
    check_loop-above k m (calls_for slots now drd e ++ required) a,
    check_loop-IsSorted m (calls_for slots now drd e ++ required) s,
  )

  -- What is left of an entry.
  abbrev pub if_tracked : Option ActiveSlot → Option ActiveSlot
  if_tracked none = none
  if_tracked (some e) = if is_tracked slots now drd e then some e else none

  check_loop-find :
      (k : K) (m : List (K × ActiveSlot)) (required : List (List (Interest K)))
      → IsSorted m
      → find k (check_loop slots now drd m required).0 ≡ if_tracked (find k m)
  unfolding check_loop find
  check_loop-find k [] required s = refl
  check_loop-find k ((j, e) ∷ m) required (a, s) =
      let calls = calls_for slots now drd e ++ required in
      ground (
        arith,
        o.eqb_iff j k,
        check_loop-find k m calls s,
        find-below j (check_loop slots now drd m calls).0 (check_loop-above j m calls a),
      )

  -- Playback is not closer than the delay, and the slot is being assembled.
  pub record IsAwaited (e : ActiveSlot) : Type 0 where
    pub early : now + drd ≤ e.deadline_timestamp
    pub incomplete : ((slots e.slot).state ≡ new) ⊎ ((slots e.slot).state ≡ assembling)

  tracked_is_due : (e : ActiveSlot) → is_tracked slots now drd e ≡ true → IsAwaited e
  unfolding is_assembled_or_cleared
  tracked_is_due e h = ground (arith, h)

  tracked_of_awaited : (e : ActiveSlot) → IsAwaited e → is_tracked slots now drd e ≡ true
  unfolding is_assembled_or_cleared
  tracked_of_awaited e h = ground (arith, h)

  left_of :
      (f : Option ActiveSlot) (e : ActiveSlot)
      → (if_tracked f ≡ some e) ↔ ((f ≡ some e) × IsAwaited e)
  left_of none e = (λ h. cc h, λ (h, a). h)
  left_of (some f) e = elim (Bool-cases (is_tracked slots now drd f)) [
    | inl h ↦ rw h (
      λ q. let same : f ≡ e = cc q in (q, subst IsAwaited same (tracked_is_due f h)),
      λ (q, a). q,
    )
    | inr h ↦ rw h (
      λ q. cc q,
      λ (q, a).
          let same : e ≡ f = cc q in
          let held = tracked_of_awaited f (subst IsAwaited same a) in cc (h, held),
    )
  ]

  -- A check of a controller whose entries are in the order of their names keeps an entry just when its
  -- playback is not closer than the delay and its slot is New or Assembling: the entries after it are
  -- those from before of which this holds, and no other.
  pub check_retransmissions-find :
      (c : Controller K) (k : K) (e : ActiveSlot)
      → IsSorted c.active_slots
      → (find k (check_retransmissions slots now drd c).active_slots ≡ some e)
        ↔ ((find k c.active_slots ≡ some e) × IsAwaited e)
  unfolding check_retransmissions
  check_retransmissions-find c k e s =
      rw (check_loop-find k c.active_slots c.required s) (left_of (find k c.active_slots) e)

  calls_for_tracked :
      (e : ActiveSlot) → is_tracked slots now drd e ≡ true → calls_for slots now drd e ≡ []
  unfolding calls_for
  calls_for_tracked e h = ground (arith, h)

  -- The entries that stay do so again, without a call.
  Stays : List (K × ActiveSlot) → Type 0
  Stays m = (more : List (List (Interest K))) → check_loop slots now drd m more ≡ (m, more)

  cons-Stays :
      (k : K) (e : ActiveSlot) (m : List (K × ActiveSlot))
      → is_tracked slots now drd e ≡ true
      → Stays m
      → Stays ((k, e) ∷ m)
  unfolding check_loop Stays
  cons-Stays k e m h s more = rw (check_loop, calls_for_tracked e h, s more, h) refl

  check_loop-Stays :
      (m : List (K × ActiveSlot)) (required : List (List (Interest K)))
      → Stays (check_loop slots now drd m required).0
  unfolding check_loop
  check_loop-Stays [] required = unfold Stays in λ more. refl
  check_loop-Stays ((k, e) ∷ m) required =
      let calls = calls_for slots now drd e ++ required in
      elim (Bool-cases (is_tracked slots now drd e)) [
        | inl h ↦
            rw (check_loop, h)
              (cons-Stays k e (check_loop slots now drd m calls).0 h (check_loop-Stays m calls))
        | inr h ↦ rw (check_loop, h) (check_loop-Stays m calls)
      ]

  -- A second check of the same slots at the same time changes nothing: what is due is asked for once.
  pub check_retransmissions_idem :
      (c : Controller K)
      → check_retransmissions slots now drd (check_retransmissions slots now drd c)
        ≡ check_retransmissions slots now drd c
  unfolding check_retransmissions Stays
  check_retransmissions_idem c =
      let done = check_loop slots now drd c.active_slots c.required in
      cc (check_loop-Stays c.active_slots c.required done.1)
