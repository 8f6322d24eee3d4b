-- ===== src/Tests/Slots.antt =====
-- A slot and a buffer of cpp/src/frame-buffer.cpp at work.
use ndnrtc.Base.{◌+◌, ℕ, ◌≡◌, ◌≢◌, refl, false, none, some, List, [], ◌∷◌, arith}
use ndnrtc.FrameBuffer.Names.{
  data_key, parity_key, Interest, lookup, segment_key, insert, segment_weight,
}
use ndnrtc.Tests.Samples.{numbers, info_of, interest_in, segment_of}
use ndnrtc.FrameBuffer.Slot.{
  Slot, new, ready, locked, returns, end_of, blank_slot, clear, segments_requested,
  segment_received, contains, total_weight,
}
use ndnrtc.FrameBuffer.Slot.Queries.{get_header, get_missing_segments}
use ndnrtc.FrameBuffer.Slot.Assembly.{IsAssembled}
use ndnrtc.FrameBuffer.Slot.Delivery.{state_at, known_number, fresh_segment_state}
use ndnrtc.FrameBuffer.Slot.Header.{received_at}
use ndnrtc.FrameBuffer.Slot.History.{
  History, cleared, was_requested, was_received, History-IsAssembled, History-header,
}

abbrev wanted : List (Interest ℕ)
wanted =
    interest_in 7 (data_key 0)
    ∷ interest_in 7 (data_key 1)
    ∷ interest_in 7 (parity_key 0)
    ∷ interest_in 7 (parity_key 1)
    ∷ []

abbrev asked : Slot ℕ
asked = end_of (segments_requested (clear (blank_slot 0)) wanted 10)

abbrev one_parity : Slot ℕ
one_parity = end_of (segment_received asked (segment_of 7 (parity_key 0)) 20)

abbrev two_parity : Slot ℕ
two_parity = end_of (segment_received one_parity (segment_of 7 (parity_key 1)) 30)

abbrev without_first : Slot ℕ
without_first = end_of (segment_received two_parity (segment_of 7 (data_key 1)) 40)

-- Parity segments alone leave it New, and with one data segment it is Ready and has no header.
parity_is_new : two_parity.state ≡ new
unfolding clear segments_requested segment_received lookup insert segment_key segment_weight
parity_is_new = refl

without_first_ready : without_first.state ≡ ready
unfolding clear segments_requested segment_received lookup insert segment_key segment_weight
without_first_ready = refl

without_first_headless : get_header without_first ≡ none
unfolding clear segments_requested segment_received get_header lookup insert segment_key
    segment_weight
without_first_headless = refl

history : History without_first
history =
    was_received (segment_of 7 (data_key 1)) 40 (λ h. refl)
      (was_received (segment_of 7 (parity_key 1)) 30 (λ h. ground arith)
        (was_received (segment_of 7 (parity_key 0)) 20 (λ h. ground arith)
          (was_requested wanted 10 (cleared (blank_slot 0)))))

History-IsAssembled_example : IsAssembled without_first
History-IsAssembled_example = History-IsAssembled without_first history

History-header_example :
    get_header without_first
    ≡ elim (received_at without_first (data_key 0)) [ none ↦ none | some w ↦ some w.header ]
History-header_example = History-header without_first history without_first_ready

data_1_key : segment_key (info_of 7 (data_key 1)) ≡ some (data_key 1)
unfolding segment_key
data_1_key = refl

unlocked : (s : Slot ℕ) → s.state ≡ new → s.state ≢ locked
unlocked s e h = ground (arith, e, h)

-- Only data segment 1 was asked for, and it came.
abbrev asked_one : Slot ℕ
asked_one = end_of (segments_requested (clear (blank_slot 0)) (interest_in 7 (data_key 1) ∷ []) 10)

abbrev got_one : Slot ℕ
got_one = end_of (segment_received asked_one (segment_of 7 (data_key 1)) 20)

one_missing : get_missing_segments got_one ≡ data_key 0 ∷ []
unfolding clear segments_requested segment_received get_missing_segments lookup insert segment_key
    segment_weight
one_missing = refl

got_one_returns :
    segment_received asked_one (segment_of 7 (data_key 1)) 20 ≡ returns got_one (some (data_key 1))
unfolding clear segments_requested segment_received lookup insert segment_key segment_weight
got_one_returns = refl

asked_one_fresh : (contains (data_key 1) asked_one.fetched ≡ false) × (asked_one.state ≡ new)
unfolding clear segments_requested lookup insert segment_key
asked_one_fresh = (refl, refl)

asked_one-History : History asked_one
asked_one-History = was_requested (interest_in 7 (data_key 1) ∷ []) 10 (cleared (blank_slot 0))

fresh_segment_state_example :
    got_one.state
    ≡ state_at asked_one.state
        (known_number asked_one (segment_of 7 (data_key 1)))
        (total_weight asked_one.fetched asked_one.requested + 2)
fresh_segment_state_example =
    fresh_segment_state asked_one got_one (segment_of 7 (data_key 1)) (data_key 1)
      (some (data_key 1)) 20 got_one_returns (unlocked asked_one asked_one_fresh.1) data_1_key
      asked_one_fresh.0 (History-IsAssembled asked_one asked_one-History)
