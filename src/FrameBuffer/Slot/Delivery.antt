-- ===== src/FrameBuffer/Slot/Delivery.antt =====
-- What a slot promises of the segments it receives and of those it misses (BufferSlot in
-- cpp/src/frame-buffer.cpp).
use ndnrtc.Base.{
  Bool, ap, ◌∙◌, if◌then◌else◌, ℕ, zero, suc, ◌+◌, ◌*◌, ◌≤◌, ◌<◌, ◌≡◌, refl, ◌≢◌, ◌↔◌, inl, inr,
  true, false, ◌||◌, Option, none, some, List, [], ◌∷◌, ◌++◌, arith, leb, ◌==◌, Option-cases,
}
use ndnrtc.FrameBuffer.Names.{
  Order, SegmentKey, data_key, parity_key, same_key, same_key_iff, segment_key, WireSegment,
  segment_weight, data_segment, lookup, lookup-insert,
}
use ndnrtc.FrameBuffer.Slot.{
  State, assembling, ready, locked, total_weight, returns, end_of, SlotSegment, Slot, contains,
  fetch, receive_key, receive_named, is_locked, name_matches, update_consistency_state,
  segment_received, note_meta, note_first, note_weight, note_level, note_ready,
}
use ndnrtc.FrameBuffer.Slot.Assembly.{IsAssembled}
use ndnrtc.Media.{is_same_segment}
use ndnrtc.FrameBuffer.Slot.Queries.{get_missing_segments, missing_from}

contains-++ :
    (k : SegmentKey) (xs ys : List SegmentKey)
    → contains k (xs ++ ys) ≡ (contains k xs || contains k ys)
contains-++ k [] ys = refl
contains-++ k (x ∷ xs) ys = ground (arith, contains-++ k xs ys)

-- The state of a slot that knows that number and has fetched segments of a weight, in halves.
abbrev pub state_at : State → Option ℕ → ℕ → State
state_at s none weight = s
state_at s (some n) weight = if leb (2 * n) weight then ready else assembling

module _ {K : Type 0} ⦃o : Order K⦄ where
  pub update-keeps :
      (s : Slot K) (w : WireSegment K) (now : ℕ)
      → let t = update_consistency_state s w now in
        (t.fetched ≡ s.fetched) × (t.requested ≡ s.requested) × (t.name ≡ s.name)
  unfolding update_consistency_state note_meta note_first note_weight note_level note_ready
  update-keeps s w now = ground arith

  receive_key-knows :
      (s t : Slot K) (k : SegmentKey) (w : WireSegment K) (r : Option SegmentKey) (now : ℕ)
      → receive_key s k w now ≡ returns t r
      → (contains k t.fetched ≡ true) × (lookup k t.requested ≢ none) × (t.name ≡ s.name)
  unfolding receive_key fetch
  receive_key-knows s t k w r now e = elim (Option-cases (lookup k s.requested)) [
    | inl f ↦ ground (arith, e, f)
    | inr (g, f) ↦
        let new = record g { received = some w; arrival_time_usec = now } in
        ground (
          arith,
          e,
          f,
          same_key_iff k k,
          lookup-insert k k new s.requested,
          update-keeps (fetch s k g w now) w now,
        )
  ]

  receive_key-again :
      (s : Slot K) (k : SegmentKey) (w : WireSegment K) (now : ℕ)
      → contains k s.fetched ≡ true
      → end_of (receive_key s k w now) ≡ s
  unfolding receive_key
  receive_key-again s k w now c = ground (arith, c)

  -- A segment that was received and comes again changes nothing, whatever it holds.
  pub receive_twice :
      (s t : Slot K) (w v : WireSegment K) (r : Option SegmentKey) (now later : ℕ)
      → segment_received s w now ≡ returns t r
      → v.info ≡ w.info
      → end_of (segment_received t v later) ≡ t
  unfolding segment_received receive_named is_locked name_matches
  receive_twice s t w v r now later e i = elim (Option-cases (segment_key w.info)) [
    | inl f ↦ ground (arith, e, i, f)
    | inr (k, f) ↦
        ground (arith, e, i, f, receive_key-knows s t k w r now, receive_key-again t k v later)
  ]

  missing_from-exact :
      (key_of : ℕ → SegmentKey)
      → ((i j : ℕ) → same_key (key_of i) (key_of j) ≡ (i == j))
      → (n left : ℕ) (m : List (SegmentKey × SlotSegment K)) (j : ℕ)
      → (contains (key_of j) (missing_from key_of n left m) ≡ true)
        ↔ ((n ≤ j) × (j < n + left) × (lookup (key_of j) m ≡ none))
  unfolding missing_from
  missing_from-exact key_of same n zero m j = (ground arith, ground arith)
  missing_from-exact key_of same n (suc left) m j =
      let rest = missing_from-exact key_of same (suc n) left m j in
      let this = same n j in (ground (arith, rest, this), ground (arith, rest, this))

  missing_from-other :
      (key_of : ℕ → SegmentKey) (k : SegmentKey)
      → ((i : ℕ) → same_key (key_of i) k ≡ false)
      → (n left : ℕ) (m : List (SegmentKey × SlotSegment K))
      → contains k (missing_from key_of n left m) ≡ false
  unfolding missing_from
  missing_from-other key_of k other n zero m = refl
  missing_from-other key_of k other n (suc left) m =
      ground (arith, other n, missing_from-other key_of k other (suc n) left m)

  -- Once a segment arrived, the missing segments are those that were never requested, among as
  -- many data and parity segments as the slot then knows of.
  pub get_missing_segments-exact :
      (s : Slot K) (j : ℕ)
      → s.fetched ≢ []
      → ((contains (data_key j) (get_missing_segments s) ≡ true)
          ↔ ((j < s.n_data_segments) × (lookup (data_key j) s.requested ≡ none)))
        × ((contains (parity_key j) (get_missing_segments s) ≡ true)
            ↔ ((j < s.n_parity_segments) × (lookup (parity_key j) s.requested ≡ none)))
  unfolding get_missing_segments
  get_missing_segments-exact s j h =
      let media = missing_from data_key 0 s.n_data_segments s.requested in
      let fec = missing_from parity_key 0 s.n_parity_segments s.requested in
      ground (
        arith,
        missing_from-exact data_key (λ a b. refl) 0 s.n_data_segments s.requested j,
        missing_from-exact parity_key (λ a b. refl) 0 s.n_parity_segments s.requested j,
        missing_from-other data_key (parity_key j) (λ i. refl) 0 s.n_data_segments s.requested,
        missing_from-other parity_key (data_key j) (λ i. refl) 0 s.n_parity_segments s.requested,
        contains-++ (data_key j) media fec,
        contains-++ (parity_key j) media fec,
      )

  -- The number of data segments that a slot knows of after a segment, if it knows it.
  abbrev pub is_data : WireSegment K → Bool
  is_data w = is_same_segment w.info.segment_class data_segment

  abbrev pub known_number : Slot K → WireSegment K → Option ℕ
  known_number s w =
      if is_data w
      then some w.slices_num
      else if s.segment_meta
      then some s.n_data_segments
      else none

  update-state :
      (s : Slot K) (w : WireSegment K) (now : ℕ)
      → (update_consistency_state s w now).state
        ≡ state_at s.state (known_number s w) (s.assembled + (if w.info.is_parity then 1 else 2))
  unfolding update_consistency_state note_meta note_first note_weight note_level note_ready
      segment_weight
  update-state s w now = ground arith

  receive_key-state :
      (s t : Slot K) (w : WireSegment K) (k : SegmentKey) (r : Option SegmentKey) (now : ℕ)
      → receive_key s k w now ≡ returns t r
      → contains k s.fetched ≡ false
      → t.state
        ≡ state_at s.state (known_number s w) (s.assembled + (if w.info.is_parity then 1 else 2))
  unfolding receive_key fetch
  receive_key-state s t w k r now e f = elim (Option-cases (lookup k s.requested)) [
    | inl g ↦ ground (arith, e, f, g)
    | inr (g, h) ↦ ground (arith, e, f, h, update-state (fetch s k g w now) w now)
  ]

  -- A segment that was not fetched before, received without an exception in a slot that is not Locked
  -- and has the weight of what it fetched, makes the slot Ready exactly when the weight of the segments
  -- fetched before and its own reach that of all data segments, and else Assembling. Their number is
  -- what a data segment that comes says, and for another segment what the slot knew of it; where it
  -- knew none, the state stays. A parity segment weighs a half.
  pub fresh_segment_state :
      (s t : Slot K) (w : WireSegment K) (k : SegmentKey) (r : Option SegmentKey) (now : ℕ)
      → segment_received s w now ≡ returns t r
      → s.state ≢ locked
      → segment_key w.info ≡ some k
      → contains k s.fetched ≡ false
      → IsAssembled s
      → t.state
        ≡ state_at s.state
            (known_number s w)
            (total_weight s.fetched s.requested + (if w.info.is_parity then 1 else 2))
  unfolding segment_received receive_named is_locked
  fresh_segment_state s t w k r now e l i f v =
      let weight : ℕ = if w.info.is_parity then 1 else 2 in
      receive_key-state s t w k r now (ground (arith, e, l, i)) f
      ∙ ap (λ n. state_at s.state (known_number s w) (n + weight)) v.weighed
