-- ===== src/BufferControl/Announcements.antt =====
-- How often the arrival of a sample is announced (cpp/src/buffer-control.cpp).
use ndnrtc.Base.{ℕ, suc, ◌≡◌, refl, inl, inr, Bool, true, false, Option, some, List, [], ◌∷◌, arith}
use ndnrtc.FrameBuffer.Names.{Order, SegmentKey, parity, WireSegment, segment_key}
use ndnrtc.FrameBuffer.SampleMap.{find}
use ndnrtc.FrameBuffer.Slot.{Slot, new, returns, Attempt-cases, contains}
use ndnrtc.FrameBuffer.Slot.Unseen.{IsUnseen, segment_received-IsUnseen}
use ndnrtc.FrameBuffer.Buffer.{Receipt, is_requested, received}
use ndnrtc.FrameBuffer.Buffer.Contents.{received-slot}
use ndnrtc.FrameBuffer.Queue.{PlaybackQueue, on_new_data}
use ndnrtc.BufferControl.{
  Notice, sample_arrived, segment_arrived, notices_of, receipt_segment, is_media, is_new,
}

abbrev pub announcements : List Notice → ℕ
announcements [] = 0
announcements (sample_arrived n ∷ ns) = suc (announcements ns)
announcements (_ ∷ ns) = announcements ns

module _ {K : Type 0} ⦃o : Order K⦄ where
  on_new_data-new :
      (is_ours : Option K → Bool) (q : PlaybackQueue K) (r : Receipt K)
      → r.slot.state ≡ new
      → on_new_data is_ours q r ≡ returns q tt
  unfolding on_new_data
  on_new_data-new is_ours q r e = rw (e, on_new_data) refl

  -- A fresh parity segment of a sample that no data segment came of yet is announced as the arrival
  -- of the sample, and leaves the slot as it was for the next segment: a sample is announced anew
  -- with each parity segment, until its first data segment.
  pub parity_announces_again :
      (playback_no : WireSegment K → ℕ) (is_ours : Option K → Bool) (q p : PlaybackQueue K)
      (w : WireSegment K) (now : ℕ) (s : Slot K) (k : SegmentKey) (ns : List Notice)
      → segment_arrived playback_no is_ours q w now ≡ returns p ns
      → find w.info.prefix q.buffer.active_slots ≡ some s
      → IsUnseen s
      → is_media w.info.sample_class ≡ true
      → w.info.segment_class ≡ parity
      → segment_key w.info ≡ some k
      → contains k s.fetched ≡ false
      → (announcements ns ≡ 1)
        × ((t : Slot K) × (find w.info.prefix p.buffer.active_slots ≡ some t) × IsUnseen t)
  unfolding segment_arrived is_requested notices_of receipt_segment is_new
  parity_announces_again playback_no is_ours q p w now s k ns e a u m c i f =
      elim (Attempt-cases (received q.buffer w now)) [
        | inr (b, x, h) ↦ ground (arith, e, a, m, h)
        | inl (b, r, h) ↦
            let (old, got, active) = received-slot q.buffer b w now s r a h in
            let (unseen, the_key, (g, held, payload)) =
              segment_received-IsUnseen s r.slot k w r.segment now c i f u got in
            let quiet = on_new_data-new is_ours (record q { buffer = b }) r unseen.still_new in
            (
              ground (arith, e, a, m, h, quiet, old, u.still_new, the_key, held, payload),
              (r.slot, ground (arith, e, a, m, h, quiet, active), unseen),
            )
      ]
