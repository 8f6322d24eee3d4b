-- ===== src/FrameBuffer/Slot/History.antt =====
-- What holds of a slot whatever was requested and received (BufferSlot in cpp/src/frame-buffer.cpp).
use ndnrtc.Base.{ℕ, ◌≡◌, inl, List, none, some}
use ndnrtc.FrameBuffer.Names.{Order, Interest, WireSegment, data_key}
use ndnrtc.FrameBuffer.Slot.{Slot, ready, end_of, clear, segments_requested, segment_received}
use ndnrtc.FrameBuffer.Slot.Queries.{get_header}
use ndnrtc.FrameBuffer.Slot.Assembly.{
  IsAssembled, clear-IsAssembled, segments_requested-IsAssembled, segment_received-IsAssembled,
}
use ndnrtc.FrameBuffer.Slot.Header.{
  IsNamed, IsDataNamed, received_at, clear-IsNamed, segments_requested-IsNamed,
  segment_received-IsNamed, header_of_segment_0,
}

module _ {K : Type 0} ⦃o : Order K⦄ where
  -- A slot since it was last cleared.
  pub data History : Slot K → Type 0 where
    cleared : (s : Slot K) → History (clear s)
    was_requested :
        {s : Slot K} (is : List (Interest K)) (now : ℕ)
        → History s
        → History (end_of (segments_requested s is now))
    was_received :
        {s : Slot K} (w : WireSegment K) (now : ℕ)
        → IsDataNamed w
        → History s
        → History (end_of (segment_received s w now))

  -- Whatever was requested of a slot and received since it was cleared, also by calls that
  -- threw, where data segments are not named as parity: its counter of the assembled weight is
  -- the weight of the fetched segments, and it is Ready or Locked only with the weight of all
  -- its data segments.
  pub History-IsAssembled : (s : Slot K) → History s → IsAssembled s
  History-IsAssembled s (cleared t) = clear-IsAssembled t
  History-IsAssembled s (was_requested {s = t} is now h) =
      segments_requested-IsAssembled t is now (History-IsAssembled t h)
  History-IsAssembled s (was_received {s = t} w now d h) =
      segment_received-IsAssembled t w now (History-IsAssembled t h)

  History-IsNamed : (s : Slot K) → History s → IsNamed s
  History-IsNamed s (cleared t) = clear-IsNamed t
  History-IsNamed s (was_requested {s = t} is now h) =
      segments_requested-IsNamed t is now (History-IsNamed t h)
  History-IsNamed s (was_received {s = t} w now d h) =
      segment_received-IsNamed t w now d (History-IsNamed t h)

  -- Whatever was requested of a slot and received since it was cleared, where data segments are
  -- not named as parity: the header of a Ready slot is that of its data segment 0, even when a
  -- parity segment came first. There is none if that segment was not received, which the weight
  -- of parity segments makes up for.
  pub History-header :
      (s : Slot K)
      → History s
      → s.state ≡ ready
      → get_header s ≡ elim (received_at s (data_key 0)) [ none ↦ none | some w ↦ some w.header ]
  History-header s h r = header_of_segment_0 s (History-IsNamed s h) (inl r)
