-- ===== src/BufferControl.antt =====
-- cpp/src/buffer-control.cpp: the segments that reach the buffer, with the playback queue as the
-- buffer's observer, and what BufferControl tells the DRD estimator and its own observers. Attaching
-- and detaching these, and the statistics, are left out.
pub mod Announcements
use ndnrtc.Base.{
  ℕ, Bool, true, false, not, ◌&&◌, Option, none, some, List, [], ◌∷◌, ◌++◌, ◌==◌, if◌then◌else◌,
}
use ndnrtc.FrameBuffer.Names.{
  Order, SampleClass, unknown_sample, key, delta, SegmentKey, WireSegment, lookup,
}
use ndnrtc.FrameBuffer.Slot.{
  State, new, Attempt, returns, raises, SlotSegment, Slot, round_trip_delay_usec,
}
use ndnrtc.FrameBuffer.Buffer.{Receipt, is_requested, received}
use ndnrtc.FrameBuffer.Queue.{PlaybackQueue, on_new_data}

-- `drd_value` has the round trip, whether the segment is original, and the generation delay: the DRD
-- of an original segment is the first less the last.
pub data Notice : Type 0 where
  drd_value : Option ℕ → Bool → ℕ → Notice
  target_rate_update : ℕ → Notice
  sample_arrived : ℕ → Notice

unfoldable pub is_media : SampleClass → Bool
is_media unknown_sample = false
is_media _ = true

is_new : State → Bool
is_new new = true
is_new _ = false

module _ {K : Type 0} where
  is_packet_header_segment : WireSegment K → Bool
  is_packet_header_segment w = not w.info.is_parity && w.info.seg_no == 0

  -- The SlotSegment of the receipt, with its data.
  receipt_segment : Receipt K → Option (SlotSegment K × WireSegment K)
  receipt_segment r = elim r.segment [
    | none ↦ none
    | some k ↦ elim (lookup k r.slot.requested) [
      | none ↦ none
      | some g ↦ elim g.received [ none ↦ none | some d ↦ some (g, d) ]
    ]
  ]

  -- `playback_no` is `getPlaybackNo`, which the kind of the stream decides.
  notices_of : (WireSegment K → ℕ) → Receipt K → WireSegment K → List Notice
  unfolding receipt_segment is_packet_header_segment is_new
  notices_of playback_no r w = elim (receipt_segment r) [
    | none ↦ []
    | some (g, d) ↦
        (drd_value (round_trip_delay_usec g) d.is_original d.generation_delay_ms ∷ [])
        ++ (if is_packet_header_segment w then target_rate_update d.header.sample_rate ∷ [] else [])
        ++ (if is_new r.old_state then sample_arrived (playback_no w) ∷ [] else [])
  ]

  module _ ⦃o : Order K⦄ where
    unfoldable pub segment_arrived :
        (WireSegment K → ℕ)
        → (Option K → Bool)
        → PlaybackQueue K
        → WireSegment K
        → ℕ
        → Attempt (PlaybackQueue K) (List Notice)
    unfolding is_media notices_of
    segment_arrived playback_no is_ours q w now =
        if is_media w.info.sample_class && is_requested q.buffer w
        then elim (received q.buffer w now) [
          | raises b e ↦ raises (record q { buffer = b }) e
          | returns b r ↦ elim (on_new_data is_ours (record q { buffer = b }) r) [
            | raises p e ↦ raises p e
            | returns p _ ↦ returns p (notices_of playback_no r w)
          ]
        ]
        else returns q []
