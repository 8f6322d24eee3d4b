-- ===== src/Tests/Announcing.antt =====
-- A sample whose parity segments come first (cpp/src/buffer-control.cpp).
use ndnrtc.Base.{ℕ, ◌≡◌, refl, true, false, some, List, [], ◌∷◌}
use ndnrtc.FrameBuffer.Names.{parity_key, segment_key, lookup, insert, segment_weight}
use ndnrtc.FrameBuffer.SampleMap.{find, put}
use ndnrtc.FrameBuffer.Slot.{
  Slot, new, Attempt, returns, end_of, blank_slot, slot_segment, segment_received, contains,
  round_trip_delay_usec,
}
use ndnrtc.FrameBuffer.Slot.Unseen.{IsUnseen}
use ndnrtc.FrameBuffer.Buffer.{create, is_requested, received}
use ndnrtc.FrameBuffer.Queue.{PlaybackQueue, on_new_data}
use ndnrtc.BufferControl.{is_media, Notice, drd_value, sample_arrived, segment_arrived}
use ndnrtc.BufferControl.Announcements.{announcements, parity_announces_again}
use ndnrtc.Tests.Samples.{numbers, info_of, interest_in, segment_of}

abbrev asked : Slot ℕ
asked = record (blank_slot 0) {
  name = some 7;
  state = new;
  requested = (parity_key 0, slot_segment (interest_in 7 (parity_key 0)) 10) ∷ [];
}

abbrev waiting : PlaybackQueue ℕ
waiting = record {
  buffer = record (create 3) { active_slots = (7, asked) ∷ [] };
  packet_rate = 0;
  queue = [];
}

abbrev arrived : Attempt (PlaybackQueue ℕ) (List Notice)
arrived = segment_arrived (λ w. 70) (λ n. true) waiting (segment_of 7 (parity_key 0)) 25

arrives : arrived ≡ returns (end_of arrived) (drd_value (some 15) true 5 ∷ sample_arrived 70 ∷ [])
unfolding segment_arrived is_requested received segment_received on_new_data find put lookup insert
    segment_key segment_weight blank_slot slot_segment round_trip_delay_usec
arrives = refl

asked-IsUnseen : IsUnseen asked
unfolding blank_slot
asked-IsUnseen = record { still_new = refl; no_meta = refl }

video_is_media : is_media ((info_of 7 (parity_key 0)).sample_class) ≡ true
unfolding is_media
video_is_media = refl

asked_found : find 7 waiting.buffer.active_slots ≡ some asked
unfolding find create
asked_found = refl

parity_0_key : segment_key (info_of 7 (parity_key 0)) ≡ some (parity_key 0)
unfolding segment_key
parity_0_key = refl

parity_0_fresh : contains (parity_key 0) asked.fetched ≡ false
unfolding blank_slot
parity_0_fresh = refl

parity_announces_again_example :
    (announcements (drd_value (some 15) true 5 ∷ sample_arrived 70 ∷ []) ≡ 1)
    × ((t : Slot ℕ) × (find 7 (end_of arrived).buffer.active_slots ≡ some t) × IsUnseen t)
parity_announces_again_example =
    parity_announces_again (λ w. 70) (λ n. true) waiting (end_of arrived)
      (segment_of 7 (parity_key 0)) 25 asked (parity_key 0)
      (drd_value (some 15) true 5 ∷ sample_arrived 70 ∷ []) arrives asked_found asked-IsUnseen
      video_is_media refl parity_0_key parity_0_fresh
