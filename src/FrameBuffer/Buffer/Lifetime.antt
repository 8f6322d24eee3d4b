-- ===== src/FrameBuffer/Buffer/Lifetime.antt =====
-- A buffer from its start on (SlotPool and Buffer in cpp/src/frame-buffer.cpp).
use ndnrtc.Base.{ℕ, zero, suc, ◌≡◌, refl, inl, inr, none, some, List, arith, length, Option-cases}
use ndnrtc.FrameBuffer.Names.{Order, Interest, WireSegment}
use ndnrtc.FrameBuffer.SampleMap.{find}
use ndnrtc.FrameBuffer.Slot.{end_of}
use ndnrtc.FrameBuffer.Slot.Queries.{toggle_lock}
use ndnrtc.FrameBuffer.Buffer.{
  Buffer, create, make_slots, reset, requested, received, invalidate, invalidate_previous,
  reserve_slot, release_slot,
}
use ndnrtc.FrameBuffer.Buffer.Conservation.{
  IsWhole, reset-IsWhole, requested-IsWhole, received-IsWhole, invalidate-IsWhole,
  invalidate_previous-IsWhole, release_slot-IsWhole, move-slots,
}

make_slots-length : (K : Type 0) (n : ℕ) → length (make_slots {K = K} n) ≡ n
unfolding make_slots
make_slots-length K zero = refl
make_slots-length K (suc n) = ground (arith, make_slots-length K n)

module _ {K : Type 0} ⦃o : Order K⦄ where
  create-IsWhole : (n : ℕ) → IsWhole (create {K = K} n)
  unfolding create
  create-IsWhole n = ground (arith, make_slots-length K n)

  -- What can be done to a buffer, whether it returns or throws, but for reserving a sample whose
  -- name is reserved already.
  pub data Step : Buffer K → Buffer K → Type 0 where
    was_reset : {b : Buffer K} → Step b (reset b)
    was_requested :
        {b : Buffer K} (is : List (Interest K)) (now : ℕ) → Step b (end_of (requested b is now))
    was_received : {b : Buffer K} (w : WireSegment K) (now : ℕ) → Step b (end_of (received b w now))
    was_invalidated : {b c : Buffer K} (k : K) → invalidate b k ≡ some c → Step b c
    were_invalidated : {b : Buffer K} (k : K) → Step b (invalidate_previous b k)
    was_reserved :
        {b : Buffer K} (k : K) → find k b.reserved_slots ≡ none → Step b (end_of (reserve_slot b k))
    was_released : {b : Buffer K} (k : K) → Step b (release_slot b k)

  pub data Reach (b : Buffer K) : Buffer K → Type 0 where
    here : Reach b b
    next : {c d : Buffer K} → Reach b c → Step c d → Reach b d

  reserve_slot-IsWhole :
      (b : Buffer K) (k : K)
      → find k b.reserved_slots ≡ none
      → IsWhole b
      → IsWhole (end_of (reserve_slot b k))
  unfolding reserve_slot
  reserve_slot-IsWhole b k f v = elim (Option-cases (find k b.active_slots)) [
    | inl e ↦ ground (arith, e)
    | inr (s, e) ↦ ground (arith, f, e, move-slots b k s (end_of (toggle_lock s)) v e)
  ]

  Step-IsWhole : (b c : Buffer K) → Step b c → IsWhole b → IsWhole c
  Step-IsWhole b c was_reset v = reset-IsWhole b v
  Step-IsWhole b c (was_requested is now) v = requested-IsWhole b is now v
  Step-IsWhole b c (was_received w now) v = received-IsWhole b w now v
  Step-IsWhole b c (was_invalidated k e) v = invalidate-IsWhole b c k e v
  Step-IsWhole b c (were_invalidated k) v = invalidate_previous-IsWhole b k v
  Step-IsWhole b c (was_reserved k f) v = reserve_slot-IsWhole b k f v
  Step-IsWhole b c (was_released k) v = release_slot-IsWhole b k v

  -- From a new buffer on, whatever is done to it, throwing calls included, every slot stays in the
  -- pool, active or reserved, as long as no sample is reserved whose name is reserved already.
  pub Reach-create-IsWhole : (capacity : ℕ) (b : Buffer K) → Reach (create capacity) b → IsWhole b
  Reach-create-IsWhole n b here = create-IsWhole n
  Reach-create-IsWhole n b (next {c} r s) = Step-IsWhole c b s (Reach-create-IsWhole n c r)
