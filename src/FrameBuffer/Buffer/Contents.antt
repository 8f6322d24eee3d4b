-- ===== src/FrameBuffer/Buffer/Contents.antt =====
-- Which samples the buffer holds after an operation (Buffer in cpp/src/frame-buffer.cpp).
use ndnrtc.Base.{
  ℕ, ◌≡◌, refl, inl, inr, true, false, none, some, List, [], ◌∷◌, arith, if◌then◌else◌,
  Option-cases, All,
}
use ndnrtc.FrameBuffer.Names.{Order, WireSegment}
use ndnrtc.FrameBuffer.SampleMap.{find, IsSorted, find-put, find-erase}
use ndnrtc.FrameBuffer.Slot.{Attempt-cases, returns, segment_received, Slot, ready, locked, end_of}
use ndnrtc.FrameBuffer.Slot.Queries.{toggle_lock}
use ndnrtc.FrameBuffer.Buffer.{
  Receipt, received, store, newly_ready, Pool, Buffer, Counters, push, count_dropped, drop_below,
  invalidate_previous, move_to_reserved, reserve_slot, release_slot,
}
use ndnrtc.FrameBuffer.Buffer.Conservation.{IsWhole}

module _ {K : Type 0} ⦃o : Order K⦄ where
  absent_below :
      (i k j : K) (m : List (K × Slot K))
      → All (λ p. o.lt i p.0 ≡ true) m
      → o.lt i k ≡ false
      → o.lt j k ≡ true
      → find j m ≡ none
  unfolding find
  absent_below i k j [] a l h = refl
  absent_below i k j ((n, s) ∷ m) a l h =
      ground (arith, absent_below i k j m, o.eqb_iff n j, o.lt_trans i j k)

  drop_below-find :
      (k j : K) (p : Pool K) (c : Counters) (m : List (K × Slot K))
      → IsSorted m
      → let (q, d, n) = drop_below k p c m in find j n ≡ (if o.lt j k then none else find j m)
  unfolding drop_below find
  drop_below-find k j p c [] s = ground arith
  drop_below-find k j p c ((i, t) ∷ m) s = ground (
    arith,
    drop_below-find k j (push p t).0 (count_dropped t c) m,
    absent_below i k j m,
    o.eqb_iff i j,
  )

  -- In a buffer that lost no slot and has its maps sorted, `invalidatePrevious` takes exactly
  -- the samples before the given one out of the active slots.
  pub invalidate_previous-find :
      (b : Buffer K) (k j : K)
      → IsWhole b
      → find j ((invalidate_previous b k).active_slots)
        ≡ (if o.lt j k then none else find j b.active_slots)
  unfolding invalidate_previous
  invalidate_previous-find b k j v =
      drop_below-find k j b.pool b.counters b.active_slots v.sorted_active

  moved-find :
      (b : Buffer K) (k j : K) (t : Slot K)
      → IsWhole b
      → let c = move_to_reserved b k t in
        (find j c.active_slots ≡ (if o.eqb k j then none else find j b.active_slots))
        × (find j c.reserved_slots ≡ (if o.eqb k j then some t else find j b.reserved_slots))
  unfolding move_to_reserved
  moved-find b k j t v =
      (find-erase k j b.active_slots v.sorted_active, find-put k j t b.reserved_slots)

  -- In a buffer that lost no slot and has its maps sorted, reserving a Ready slot moves it,
  -- locked, from the active slots to the reserved ones; the other samples stay where they are.
  pub reserve_slot-find :
      (b : Buffer K) (k j : K) (s : Slot K)
      → IsWhole b
      → find k b.active_slots ≡ some s
      → s.state ≡ ready
      → let c = end_of (reserve_slot b k) in
        (find j c.active_slots ≡ (if o.eqb k j then none else find j b.active_slots))
        × (find j c.reserved_slots
            ≡ (if o.eqb k j then some (record s { state = locked }) else find j b.reserved_slots))
  unfolding reserve_slot toggle_lock
  reserve_slot-find b k j s v e r =
      ground (arith, e, r, moved-find b k j (record s { state = locked }) v)

  -- Releasing a slot takes it out of the reserved ones and touches no other.
  pub release_slot-find :
      (b : Buffer K) (k j : K)
      → IsWhole b
      → (find j ((release_slot b k).reserved_slots)
          ≡ (if o.eqb k j then none else find j b.reserved_slots))
        × ((release_slot b k).active_slots ≡ b.active_slots)
  unfolding release_slot
  release_slot-find b k j v = elim (Option-cases (find k b.reserved_slots)) [
    | inl e ↦ grind (arith, e, o.eqb_iff k j)
    | inr (s, e) ↦ ground (arith, e, find-erase k j b.reserved_slots v.sorted_reserved)
  ]

  -- What `received` did with the slot of the segment's sample.
  pub received-slot :
      (b c : Buffer K) (w : WireSegment K) (now : ℕ) (s : Slot K) (r : Receipt K)
      → find w.info.prefix b.active_slots ≡ some s
      → received b w now ≡ returns c r
      → (r.old_state ≡ s.state)
        × (segment_received s w now ≡ returns r.slot r.segment)
        × (find w.info.prefix c.active_slots ≡ some r.slot)
  unfolding received store newly_ready
  received-slot b c w now s r e h = elim (Attempt-cases (segment_received s w now)) [
    | inl (t, k, f) ↦
        let found = find-put w.info.prefix w.info.prefix t b.active_slots in
        ground (arith, e, h, f, found, o.eqb_iff w.info.prefix w.info.prefix)
    | inr (t, x, f) ↦ ground (arith, e, h, f)
  ]
