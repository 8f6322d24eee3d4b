-- ===== src/RetransmissionController.antt =====
-- RetransmissionController: it watches requested slots and asks for their missing data again, before
-- their playback (cpp/src/rtx-controller.cpp).
pub mod Tracking
use ndnrtc.Base.{
  ℕ, ◌+◌, Bool, true, false, not, ◌&&◌, ◌||◌, Option, none, some, List, [], ◌∷◌, ◌++◌, ltb, leb,
  ◌==◌, if◌then◌else◌,
}
use ndnrtc.FrameBuffer.Names.{Order, SampleClass, key, Info, Interest}
use ndnrtc.FrameBuffer.SampleMap.{find, put}
use ndnrtc.FrameBuffer.SlotState.{State, state_bit, Slot}
use ndnrtc.FrameBuffer.Slot.Queries.{get_pending_interests}

-- ActiveSlotListEntry. Slots are shared with the buffer, which changes and reuses them: an entry has
-- the number of the slot object, and each operation is given the objects as they are then.
pub record ActiveSlot : Type 0 where
  pub slot : ℕ
  pub deadline_timestamp : ℕ

-- RetransmissionController. `required` are the calls of onRetransmissionRequired, latest first, each of
-- which every observer gets.
pub record Controller (K : Type 0) : Type 0 where
  pub enabled : Bool
  pub active_slots : List (K × ActiveSlot)
  pub required : List (List (Interest K))

-- RetransmissionController::RetransmissionController
abbrev pub create : {K : Type 0} → Controller K
create = record { enabled = false; active_slots = []; required = [] }

-- RetransmissionController::setEnabled
abbrev pub set_enabled : {K : Type 0} → Bool → Controller K → Controller K
set_enabled enable c = record c { enabled = enable }

-- RetransmissionController::onReset
abbrev pub on_reset : {K : Type 0} → Controller K → Controller K
on_reset c = record c { active_slots = [] }

-- `assembledOrCleared`
unfoldable pub is_assembled_or_cleared : State → Bool
is_assembled_or_cleared s = leb 8 (state_bit s) || state_bit s == 1

module _ {K : Type 0} ⦃o : Order K⦄ (slots : ℕ → Slot K) (now drd : ℕ) where
  -- `needRtx`. `drd` is the smaller of the estimations of the delay, rounded up; the difference of two
  -- integers is below the delay just when it is below that.
  abbrev pub need_rtx : ActiveSlot → Bool
  need_rtx e = ltb e.deadline_timestamp (now + drd)

  -- The entry stays.
  abbrev pub is_tracked : ActiveSlot → Bool
  is_tracked e = not (need_rtx e || is_assembled_or_cleared (slots e.slot).state)

  -- The Interests that are required again for an entry, as a list of one call or none.
  unfoldable pub calls_for : ActiveSlot → List (List (Interest K))
  unfolding is_assembled_or_cleared
  calls_for e =
      let s = slots e.slot in
      let pending = get_pending_interests s.fetched s.requested in
      if need_rtx e && not (is_assembled_or_cleared s.state)
      then elim pending [ [] ↦ [] | i ∷ is ↦ (i ∷ is) ∷ [] ]
      else []

  -- The loop of checkRetransmissions: the entries that stay, and the calls.
  unfoldable pub check_loop :
      List (K × ActiveSlot)
      → List (List (Interest K))
      → List (K × ActiveSlot) × List (List (Interest K))
  unfolding is_assembled_or_cleared calls_for
  check_loop [] required = ([], required)
  check_loop ((k, e) ∷ m) required =
      let (kept, calls) = check_loop m (calls_for e ++ required) in
      (if is_tracked e then (k, e) ∷ kept else kept, calls)

  -- RetransmissionController::checkRetransmissions
  unfoldable pub check_retransmissions : Controller K → Controller K
  unfolding check_loop
  check_retransmissions c =
      let (kept, calls) = check_loop c.active_slots c.required in
      record c { active_slots = kept; required = calls }

  -- RetransmissionController::onNewData
  unfoldable pub on_new_data : Controller K → Controller K
  unfolding check_retransmissions
  on_new_data c = if c.enabled then check_retransmissions c else c

  -- RetransmissionController::onNewRequest of the slot with number `slot` under the prefix `k`. The
  -- length of the playback queue is `queue_size`, and `gop_ms` is 30 times the sample period. `none` is
  -- the exception.
  unfoldable pub on_new_request : K → SampleClass → ℕ → ℕ → ℕ → Controller K → Option (Controller K)
  unfolding check_retransmissions
  on_new_request k c slot queue_size gop_ms r =
      let delay : ℕ = elim c [ key ↦ gop_ms | _ ↦ queue_size ] in
      let entry : ActiveSlot = record { slot = slot; deadline_timestamp = now + delay } in
      let added : Controller K = record r { active_slots = put k entry r.active_slots } in
      if not r.enabled then some r else elim (find k r.active_slots) [
        | some _ ↦ none
        | none ↦ some (check_retransmissions added)
      ]
