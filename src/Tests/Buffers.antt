-- ===== src/Tests/Buffers.antt =====
-- A buffer and its playback queue (cpp/src/frame-buffer.cpp) at work.
use ndnrtc.Base.{ℕ, ◌≡◌, refl, true, ◌||◌, none, some, List, [], ◌∷◌}
use ndnrtc.FrameBuffer.Names.{data_key, Interest, lookup, insert, segment_key, segment_weight}
use ndnrtc.FrameBuffer.SampleMap.{find, put}
use ndnrtc.FrameBuffer.Slot.{
  Slot, segments_requested, segment_received, ready, locked, Attempt, returns, raises, end_of,
  blank_slot,
}
use ndnrtc.FrameBuffer.Buffer.{
  Receipt, Buffer, create, requested, received, reserve_slot, release_slot, invalidate_previous,
}
use ndnrtc.FrameBuffer.Buffer.Conservation.{IsWhole}
use ndnrtc.FrameBuffer.Buffer.Lifetime.{
  Reach, here, next, Reach-create-IsWhole, was_requested, was_received, were_invalidated,
  was_reserved, was_released,
}
use ndnrtc.FrameBuffer.Queue.{PlaybackQueue, insert_sample, deliver}
use ndnrtc.FrameBuffer.Slot.Queries.{get_header, toggle_lock}
use ndnrtc.FrameBuffer.Queue.Arrivals.{has_time, enters, deliver-has_time}
use ndnrtc.Tests.Samples.{numbers, interest_in, segment_of}

-- Two samples are asked for.
abbrev wanted : List (Interest ℕ)
wanted = interest_in 7 (data_key 0) ∷ interest_in 8 (data_key 0) ∷ []

abbrev asked : Buffer ℕ
asked = end_of (requested (create 4) wanted 10)

abbrev taken : Buffer ℕ
taken = end_of (reserve_slot (end_of (received asked (segment_of 7 (data_key 0)) 20)) 7)

abbrev advanced : Buffer ℕ
advanced = invalidate_previous (release_slot taken 7) 8

unreserved : find 7 ((end_of (received asked (segment_of 7 (data_key 0)) 20)).reserved_slots) ≡ none
unfolding create requested received find put segments_requested segment_received segment_key lookup
    insert segment_weight
unreserved = refl

lifetime : Reach (create 4) advanced
lifetime =
    next
      (next
        (next
          (next (next here (was_requested wanted 10)) (was_received (segment_of 7 (data_key 0)) 20))
          (was_reserved 7 unreserved))
        (was_released 7))
      (were_invalidated 8)

Reach-create-IsWhole_example : IsWhole advanced
Reach-create-IsWhole_example = Reach-create-IsWhole 4 advanced lifetime

asked-IsWhole : IsWhole asked
asked-IsWhole = Reach-create-IsWhole 4 asked (next here (was_requested wanted 10))

-- Sample 7 has two data segments, of which the first was received.
abbrev half : Buffer ℕ
half = end_of (
    received
      (end_of
        (requested (create 4) (interest_in 7 (data_key 0) ∷ interest_in 7 (data_key 1) ∷ []) 10))
      (segment_of 7 (data_key 0)) 20)

abbrev waiting : PlaybackQueue ℕ
waiting = record { buffer = half; packet_rate = 30; queue = [] }

-- The second one makes it Ready.
abbrev completed : Attempt (PlaybackQueue ℕ) (Unit {0})
completed = deliver (λ n. true) waiting (segment_of 7 (data_key 1)) 40

abbrev last_receipt : Receipt ℕ
last_receipt = receipt_of (received half (segment_of 7 (data_key 1)) 40)
  where
    receipt_of : Attempt (Buffer ℕ) (Receipt ℕ) → Receipt ℕ
    receipt_of (returns b r) = r
    receipt_of (raises b e) = record { slot = blank_slot 0; old_state = ready; segment = none }

segment_7_received :
    received half (segment_of 7 (data_key 1)) 40
    ≡ returns (end_of (received half (segment_of 7 (data_key 1)) 40)) last_receipt
unfolding create requested received find put segments_requested segment_received segment_key lookup
    insert segment_weight blank_slot
segment_7_received = refl

segment_7_delivered : completed ≡ returns (end_of completed) tt
unfolding create requested received find put segments_requested segment_received segment_key lookup
    insert segment_weight deliver reserve_slot get_header toggle_lock insert_sample blank_slot
segment_7_delivered = refl

deliver-has_time_example :
    has_time 700 (end_of completed).queue
    ≡ (enters (λ n. true) last_receipt 700 || has_time 700 waiting.queue)
deliver-has_time_example =
    deliver-has_time (λ n. true) waiting (end_of completed) (segment_of 7 (data_key 1)) 40 700
      (end_of (received half (segment_of 7 (data_key 1)) 40)) last_receipt segment_7_received
      segment_7_delivered

-- It is in the queue.
sample_7_queued : has_time 700 (end_of completed).queue ≡ true
unfolding create requested received find put segments_requested segment_received segment_key lookup
    insert segment_weight deliver reserve_slot get_header toggle_lock insert_sample blank_slot
sample_7_queued = refl

-- Sample 7 is Ready, and reserved already in `twice`.
abbrev ready_0 : Slot ℕ
ready_0 = record (blank_slot 0) { state = ready }

abbrev twice : Buffer ℕ
twice = record asked {
  pool = record { capacity = 3; slots = blank_slot 2 ∷ [] };
  active_slots = (7, ready_0) ∷ [];
  reserved_slots = (7, record (blank_slot 1) { state = locked }) ∷ [];
}

twice-IsWhole : IsWhole twice
twice-IsWhole = record { conserved = refl; sorted_active = (tt, tt); sorted_reserved = (tt, tt) }

twice_active : find 7 twice.active_slots ≡ some ready_0
unfolding find
twice_active = refl
