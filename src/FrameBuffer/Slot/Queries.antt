-- ===== src/FrameBuffer/Slot/Queries.antt =====
-- What is asked of a slot, and the lock (BufferSlot in cpp/src/frame-buffer.cpp).
use ndnrtc.Base.{ℕ, zero, suc, Option, none, some, List, [], ◌∷◌, ◌++◌, if◌then◌else◌}
use ndnrtc.FrameBuffer.Names.{
  Order, SegmentKey, data_key, parity_key, segment_key, Interest, CommonHeader, lookup,
}
use ndnrtc.FrameBuffer.Slot.{
  ready, locked, not_ready, Attempt, returns, raises, SlotSegment, Slot, contains,
}

module _ {K : Type 0} ⦃o : Order K⦄ where
  unfoldable pub toggle_lock : Slot K → Attempt (Slot K) (Unit {0})
  toggle_lock s = elim s.state [
    | locked ↦ returns (record s { state = ready }) tt
    | ready ↦ returns (record s { state = locked }) tt
    | _ ↦ raises s not_ready
  ]

  -- `!consistency_&HeaderMeta` is 0 for every value of `consistency_`, so the check never throws;
  -- `none` is the exception of `at`.
  unfoldable pub get_header : Slot K → Option CommonHeader
  get_header s = elim s.name_info [
    | none ↦ none
    | some i ↦ elim (segment_key i) [
      | none ↦ none
      | some k ↦
          if contains k s.fetched
          then elim (lookup k s.requested) [
            | none ↦ none
            | some g ↦ elim g.received [ none ↦ none | some w ↦ some w.header ]
          ]
          else none
    ]
  ]

  -- The Interests that have no data yet.
  unfoldable pub get_pending_interests :
      List SegmentKey → List (SegmentKey × SlotSegment K) → List (Interest K)
  get_pending_interests ks [] = []
  get_pending_interests ks ((k, g) ∷ m) =
      let rest = get_pending_interests ks m in if contains k ks then rest else g.interest ∷ rest

  -- The keys of one class, from `n` numbers on, that were never requested.
  unfoldable pub missing_from :
      (ℕ → SegmentKey) → ℕ → ℕ → List (SegmentKey × SlotSegment K) → List SegmentKey
  missing_from key_of n zero m = []
  missing_from key_of n (suc left) m =
      let rest = missing_from key_of (suc n) left m in
      elim (lookup (key_of n) m) [ none ↦ key_of n ∷ rest | some g ↦ rest ]

  -- `getMissingSegments`, as keys: the code puts the slot's prefix in front.
  unfoldable pub get_missing_segments : Slot K → List SegmentKey
  unfolding missing_from
  get_missing_segments s = elim s.fetched [
    | [] ↦ []
    | k ∷ ks ↦
        missing_from data_key 0 s.n_data_segments s.requested
        ++ missing_from parity_key 0 s.n_parity_segments s.requested
  ]
