-- ===== src/FrameBuffer/Slot/Unseen.antt =====
-- A slot that only parity segments came into (BufferSlot in cpp/src/frame-buffer.cpp).
use ndnrtc.Base.{ℕ, ◌≡◌, refl, inl, inr, false, Option, some, arith, Option-cases}
use ndnrtc.FrameBuffer.Names.{
  Order, SegmentKey, parity, WireSegment, segment_key, lookup, lookup-insert, same_key_iff,
}
use ndnrtc.FrameBuffer.Slot.{
  Slot, new, returns, SlotSegment, contains, segment_received, receive_named, receive_key,
  is_locked, update_consistency_state, fetch, note_meta, note_first, note_weight, note_level,
  note_ready,
}
use ndnrtc.FrameBuffer.Slot.Delivery.{update-keeps}

module _ {K : Type 0} ⦃o : Order K⦄ where
  pub record IsUnseen (s : Slot K) : Type 0 where
    pub still_new : s.state ≡ new
    pub no_meta : s.segment_meta ≡ false

  update-IsUnseen :
      (s : Slot K) (w : WireSegment K) (now : ℕ)
      → w.info.segment_class ≡ parity
      → IsUnseen s
      → IsUnseen (update_consistency_state s w now)
  unfolding update_consistency_state note_meta note_first note_weight note_level note_ready
  update-IsUnseen s w now c v = ground (arith, c)

  receive_key-IsUnseen :
      (s t : Slot K) (k : SegmentKey) (w : WireSegment K) (r : Option SegmentKey) (now : ℕ)
      → w.info.segment_class ≡ parity
      → contains k s.fetched ≡ false
      → IsUnseen s
      → receive_key s k w now ≡ returns t r
      → IsUnseen t
        × (r ≡ some k)
        × ((g : SlotSegment K) × (lookup k t.requested ≡ some g) × (g.received ≡ some w))
  unfolding receive_key fetch
  receive_key-IsUnseen s t k w r now c f v e = elim (Option-cases (lookup k s.requested)) [
    | inl h ↦ ground (arith, e, h)
    | inr (g, h) ↦
        let got : SlotSegment K = record g { received = some w; arrival_time_usec = now } in
        let fetched = fetch s k g w now in
        let (_, kept, _) = update-keeps fetched w now in
        let unseen : IsUnseen fetched = record { still_new = v.still_new; no_meta = v.no_meta } in
        let after = update-IsUnseen fetched w now c unseen in
        let found : lookup k fetched.requested ≡ some got =
          ground (arith, lookup-insert k k got s.requested, same_key_iff k k) in
        (
          ground (arith, e, h, f, after),
          ground (arith, e, h, f),
          (got, ground (arith, e, h, f, kept, found), refl),
        )
  ]

  -- A fresh parity segment leaves such a slot as it was, and is its newest data.
  pub segment_received-IsUnseen :
      (s t : Slot K) (k : SegmentKey) (w : WireSegment K) (r : Option SegmentKey) (now : ℕ)
      → w.info.segment_class ≡ parity
      → segment_key w.info ≡ some k
      → contains k s.fetched ≡ false
      → IsUnseen s
      → segment_received s w now ≡ returns t r
      → IsUnseen t
        × (r ≡ some k)
        × ((g : SlotSegment K) × (lookup k t.requested ≡ some g) × (g.received ≡ some w))
  unfolding segment_received receive_named is_locked
  segment_received-IsUnseen s t k w r now c i f v e =
      receive_key-IsUnseen s t k w r now c f v (ground (arith, i, v.still_new, e))
