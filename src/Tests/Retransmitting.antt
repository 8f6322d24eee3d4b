-- ===== src/Tests/Retransmitting.antt =====
-- Concrete runs of the retransmission controller, and the theorems about it at concrete inputs.
use ndnrtc.Base.{ℕ, ◌≡◌, ◌↔◌, refl, true, false, some, none, [], ◌∷◌}
use ndnrtc.FrameBuffer.Names.{delta, data_key}
use ndnrtc.FrameBuffer.SampleMap.{find}
use ndnrtc.FrameBuffer.Slot.{new, Slot, blank_slot, slot_segment}
use ndnrtc.FrameBuffer.Slot.Queries.{get_pending_interests}
use ndnrtc.RetransmissionController.{
  ActiveSlot, Controller, set_enabled, is_assembled_or_cleared, calls_for, check_loop,
  check_retransmissions, on_new_request,
}
use ndnrtc.RetransmissionController.Tracking.{
  IsAwaited, check_retransmissions-find, check_retransmissions_idem,
}
use ndnrtc.Tests.Samples.{numbers, interest_in}

-- Slot object 1 was reused: it was requested for sample 7, cleared, and holds sample 8 now.
abbrev slots : ℕ → Slot ℕ
slots id = record (blank_slot id) {
  state = new;
  requested = (data_key 0, slot_segment (interest_in 8 (data_key 0)) 0) ∷ [];
}

abbrev entry : ℕ → ActiveSlot
entry deadline = record { slot = 1; deadline_timestamp = deadline }

abbrev both : Controller ℕ
both = record { enabled = true; active_slots = (7, entry 300) ∷ (8, entry 400) ∷ []; required = [] }

-- The Interest for sample 8 is required again at the deadline of sample 7, and at its own.
required_twice :
    (check_retransmissions slots 350 60 (check_retransmissions slots 250 60 both)).required
    ≡ (interest_in 8 (data_key 0) ∷ []) ∷ (interest_in 8 (data_key 0) ∷ []) ∷ []
unfolding check_retransmissions check_loop calls_for is_assembled_or_cleared get_pending_interests
    blank_slot slot_segment
required_twice = refl

-- An entry outlives `setEnabled(false)`: the sample is requested again after playout restarts, and the
-- exception is thrown.
tracked_already :
    on_new_request slots 500 60 8 delta 1 100 990 (set_enabled true (set_enabled false both)) ≡ none
unfolding on_new_request find
tracked_already = refl

check_retransmissions-find_example :
    (find 8 (check_retransmissions slots 250 60 both).active_slots ≡ some (entry 400))
    ↔ ((find 8 both.active_slots ≡ some (entry 400)) × IsAwaited slots 250 60 (entry 400))
check_retransmissions-find_example =
    check_retransmissions-find slots 250 60 both 8 (entry 400) ((refl, tt), (tt, tt))

check_retransmissions_idem_example :
    check_retransmissions slots 250 60 (check_retransmissions slots 250 60 both)
    ≡ check_retransmissions slots 250 60 both
check_retransmissions_idem_example = check_retransmissions_idem slots 250 60 both
