-- ===== src/FrameBuffer/Slot/Header.antt =====
-- Which segment the header of a slot is read from (BufferSlot::getHeader in
-- cpp/src/frame-buffer.cpp).
use ndnrtc.Base.{
  ℕ, ◌≡◌, ◌≢◌, ◌⊎◌, inl, inr, false, Option, none, some, List, [], ◌∷◌, arith, if◌then◌else◌,
  Option-cases,
}
use ndnrtc.FrameBuffer.Names.{
  Order, SegmentKey, data_key, data_segment, Info, segment_key, Interest, WireSegment, lookup,
}
use ndnrtc.FrameBuffer.Slot.{
  free, new, ready, locked, end_of, SlotSegment, Slot, contains, become_new, clear, slot_segment,
  add_request, take_name, fetch, receive_key, receive_named, segments_requested, request_one,
  request_key, request_all, update_consistency_state, segment_received, note_meta, note_first,
  note_weight, note_level, note_ready,
}
use ndnrtc.FrameBuffer.Slot.Queries.{get_header}
use ndnrtc.FrameBuffer.Slot.Assembly.{after_one}

module _ {K : Type 0} ⦃o : Order K⦄ where
  -- The data that was received under a key.
  abbrev pub received_at : Slot K → SegmentKey → Option (WireSegment K)
  received_at s k =
      if contains k s.fetched
      then elim (lookup k s.requested) [ none ↦ none | some g ↦ g.received ]
      else none

  abbrev header_key : Slot K → Option SegmentKey
  header_key s = elim s.name_info [ none ↦ none | some i ↦ segment_key i ]

  -- A slot that assembles has the name info of a data segment, with the segment number 0.
  pub record IsNamed (s : Slot K) : Type 0 where
    pub unnamed : s.name ≡ none → s.state ≡ free
    pub empty : s.state ≡ free → s.requested ≡ []
    pub bare : (s.state ≡ free) ⊎ (s.state ≡ new) → s.segment_meta ≡ false
    pub of_data : s.state ≢ free → s.state ≢ new → header_key s ≡ some (data_key 0)

  -- A data segment has the name of one.
  abbrev pub IsDataNamed : WireSegment K → Type 0
  IsDataNamed w = w.info.segment_class ≡ data_segment → w.info.is_parity ≡ false

  pub clear-IsNamed : (s : Slot K) → IsNamed (clear s)
  unfolding clear
  clear-IsNamed s = ground arith

  add_request-IsNamed :
      (s : Slot K) (i : Info K) (k : SegmentKey) (g : SlotSegment K) (now : ℕ)
      → IsNamed s
      → IsNamed (add_request (take_name s i now) k g)
  unfolding add_request take_name become_new
  add_request-IsNamed s i k g now v = ground arith

  request_one-IsNamed :
      (s : Slot K) (i : Interest K) (now : ℕ) → IsNamed s → IsNamed (end_of (request_one s i now))
  unfolding request_one request_key
  request_one-IsNamed s i now v = elim (Option-cases i.info) [
    | inl e ↦ ground (arith, e)
    | inr (info, e) ↦ elim (Option-cases (segment_key info)) [
      | inl f ↦ ground (arith, e, f)
      | inr (k, f) ↦ ground (arith, e, f, add_request-IsNamed s info k (slot_segment i now) now v)
    ]
  ]

  nonempty :
      (s : Slot K) (k : SegmentKey) (g : SlotSegment K)
      → lookup k s.requested ≡ some g
      → IsNamed s
      → s.state ≢ free
  unfolding lookup
  nonempty s k g e v = ground (arith, e, v.empty)

  fetch-IsNamed :
      (s : Slot K) (k : SegmentKey) (g : SlotSegment K) (w : WireSegment K) (now : ℕ)
      → s.state ≢ free
      → IsNamed s
      → IsNamed (fetch s k g w now)
  unfolding fetch
  fetch-IsNamed s k g w now busy v = ground arith

  update-IsNamed :
      (s : Slot K) (w : WireSegment K) (now : ℕ)
      → segment_key w.info ≢ none
      → IsDataNamed w
      → s.state ≢ free
      → IsNamed s
      → IsNamed (update_consistency_state s w now)
  unfolding segment_key update_consistency_state note_meta note_first note_weight note_level
      note_ready
  update-IsNamed s w now e d busy v = ground arith

  receive_key-IsNamed :
      (s : Slot K) (k : SegmentKey) (w : WireSegment K) (now : ℕ)
      → segment_key w.info ≢ none
      → IsDataNamed w
      → IsNamed s
      → IsNamed (end_of (receive_key s k w now))
  unfolding receive_key
  receive_key-IsNamed s k w now e d v = elim (Option-cases (lookup k s.requested)) [
    | inl f ↦ ground (arith, f)
    | inr (g, f) ↦
        let busy = nonempty s k g f v in
        let fetched = fetch s k g w now in
        ground (arith, f, update-IsNamed fetched w now e d busy (fetch-IsNamed s k g w now busy v))
  ]

  request_all-IsNamed :
      (s : Slot K) (is : List (Interest K)) (now : ℕ)
      → IsNamed s
      → IsNamed (end_of (request_all s is now))
  unfolding request_all
  request_all-IsNamed s [] now v = v
  request_all-IsNamed s (i ∷ is) now v =
      after_one IsNamed (request_one s i now) is now (λ t u. request_all-IsNamed t is now u)
        (request_one-IsNamed s i now v)

  pub segments_requested-IsNamed :
      (s : Slot K) (is : List (Interest K)) (now : ℕ)
      → IsNamed s
      → IsNamed (end_of (segments_requested s is now))
  unfolding segments_requested
  segments_requested-IsNamed s is now v = ground (arith, request_all-IsNamed s is now v)

  -- Segments that are named as their class says keep a slot sound too.
  pub segment_received-IsNamed :
      (s : Slot K) (w : WireSegment K) (now : ℕ)
      → IsDataNamed w
      → IsNamed s
      → IsNamed (end_of (segment_received s w now))
  unfolding segment_received receive_named
  segment_received-IsNamed s w now d v = elim (Option-cases (segment_key w.info)) [
    | inl e ↦ ground (arith, e)
    | inr (k, e) ↦ ground (arith, e, receive_key-IsNamed s k w now (ground (arith, e)) d v)
  ]

  -- The header of a slot that is Ready or Locked is that of its data segment 0: there is none
  -- exactly as long as that segment was not received, which parity may well make up for.
  pub header_of_segment_0 :
      (s : Slot K)
      → IsNamed s
      → (s.state ≡ ready) ⊎ (s.state ≡ locked)
      → get_header s ≡ elim (received_at s (data_key 0)) [ none ↦ none | some w ↦ some w.header ]
  unfolding get_header
  header_of_segment_0 s v r = elim (Option-cases s.name_info) [
    | inl e ↦ ground (arith, e, v.of_data)
    | inr (i, e) ↦ ground (arith, e, v.of_data)
  ]
