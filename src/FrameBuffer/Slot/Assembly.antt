-- ===== src/FrameBuffer/Slot/Assembly.antt =====
-- How a slot assembles a sample (BufferSlot in cpp/src/frame-buffer.cpp).
use ndnrtc.Base.{
  ℕ, ◌+◌, ◌*◌, ◌≤◌, ◌≡◌, refl, ◌≢◌, ◌⊎◌, inl, inr, true, false, Option, some, List, [], ◌∷◌, arith,
  Bool-cases, if_case, Option-cases,
}
use ndnrtc.FrameBuffer.Names.{
  Order, SegmentKey, same_key_iff, Info, segment_key, Interest, WireSegment, segment_weight, lookup,
  insert, lookup-insert,
}
use ndnrtc.FrameBuffer.Slot.{
  ready, locked, not_requested, Attempt, returns, raises, end_of, is_blocked, SlotSegment, Slot,
  contains, clear, slot_segment, add_request, take_name, fetch, request_one, request_all,
  receive_key, segments_requested, weight_of, total_weight, update_consistency_state,
  segment_received, name_matches, names_differ, rightmost_interest, incorrect_name, request_key,
  receive_named, is_locked,
}

module _ {K : Type 0} ⦃o : Order K⦄ where
  total_weight-insert :
      (k : SegmentKey) (v : SlotSegment K) (ks : List SegmentKey)
      (m : List (SegmentKey × SlotSegment K))
      → weight_of (some v) ≡ weight_of (lookup k m)
      → total_weight ks (insert k v m) ≡ total_weight ks m
  total_weight-insert k v [] m h = refl
  total_weight-insert k v (j ∷ ks) m h =
      grind (arith, same_key_iff k j, lookup-insert k j v m, total_weight-insert k v ks m)

  total_weight-insert_new :
      (k : SegmentKey) (v : SlotSegment K) (ks : List SegmentKey)
      (m : List (SegmentKey × SlotSegment K))
      → contains k ks ≡ false
      → total_weight ks (insert k v m) ≡ total_weight ks m
  total_weight-insert_new k v [] m h = refl
  total_weight-insert_new k v (j ∷ ks) m h =
      ground (arith, lookup-insert k j v m, total_weight-insert_new k v ks m)

  -- The counter of assembled weight is the weight of the fetched segments, and a slot is Ready
  -- or Locked only with the weight of all its data segments, that it then knows the number of.
  pub record IsAssembled (s : Slot K) : Type 0 where
    pub weighed : s.assembled ≡ total_weight s.fetched s.requested
    pub complete :
        (s.state ≡ ready) ⊎ (s.state ≡ locked)
        → (s.segment_meta ≡ true) × (2 * s.n_data_segments ≤ s.assembled)

  pub clear-IsAssembled : (s : Slot K) → IsAssembled (clear s)
  unfolding clear
  clear-IsAssembled s = ground arith

  add_request-IsAssembled :
      (s : Slot K) (k : SegmentKey) (i : Interest K) (now : ℕ)
      → IsAssembled s
      → IsAssembled (add_request s k (slot_segment i now))
  unfolding add_request slot_segment
  add_request-IsAssembled s k i now v = elim (Option-cases (lookup k s.requested)) [
    | inl e ↦
        rw (e, add_request)
          (ground (arith, total_weight-insert k (slot_segment i now) s.fetched s.requested))
    | inr (g, e) ↦
        rw (e, add_request)
          (ground (
            arith,
            total_weight-insert k (record g { request_no = g.request_no + 1 }) s.fetched
                s.requested,
          ))
  ]

  take_name-IsAssembled :
      (s : Slot K) (i : Info K) (now : ℕ) → IsAssembled s → IsAssembled (take_name s i now)
  unfolding take_name
  take_name-IsAssembled s i now v = ground arith

  -- What is kept is kept on exceptions too.
  abbrev Keeps : {A : Type 0} → Attempt (Slot K) A → Type 0
  Keeps a = IsAssembled (end_of a)

  request_key-IsAssembled :
      (s : Slot K) (info : Info K) (k : SegmentKey) (i : Interest K) (now : ℕ)
      → IsAssembled s
      → Keeps (request_key s info k i now)
  unfolding request_key
  request_key-IsAssembled s info k i now v =
      let t = take_name s info now in
      if_case (Keeps {A = Unit {0}}) (name_matches s.name info.prefix)
        {x = returns (add_request t k (slot_segment i now)) tt} {y = raises s names_differ}
        (add_request-IsAssembled t k i now (take_name-IsAssembled s info now v)) v

  request_one-IsAssembled :
      (s : Slot K) (i : Interest K) (now : ℕ) → IsAssembled s → Keeps (request_one s i now)
  unfolding request_one
  request_one-IsAssembled s i now v = elim (Option-cases i.info) [
    | inl e ↦ rw (e, request_one) v
    | inr (info, e) ↦ elim (Option-cases (segment_key info)) [
      | inl f ↦ rw (e, request_one) (rw (f, request_one) v)
      | inr (k, f) ↦
          rw (e, request_one)
            (rw (f, request_one)
              (if_case (Keeps {A = Unit {0}}) info.has_seq_no {x = request_key s info k i now}
                {y = raises s rightmost_interest} (request_key-IsAssembled s info k i now v) v))
    ]
  ]

  pub after_one :
      (P : Slot K → Type 0) (a : Attempt (Slot K) (Unit {0})) (is : List (Interest K)) (now : ℕ)
      → ((t : Slot K) → P t → P (end_of (request_all t is now)))
      → P (end_of a)
      → P (end_of (elim a [ returns t _ ↦ request_all t is now | raises t e ↦ raises t e ]))
  after_one P (returns t _) is now rest v = rest t v
  after_one P (raises t e) is now rest v = v

  request_all-IsAssembled :
      (s : Slot K) (is : List (Interest K)) (now : ℕ) → IsAssembled s → Keeps (request_all s is now)
  unfolding request_all
  request_all-IsAssembled s [] now v = v
  request_all-IsAssembled s (i ∷ is) now v =
      after_one IsAssembled (request_one s i now) is now (λ t u. request_all-IsAssembled t is now u)
        (request_one-IsAssembled s i now v)

  weigh_fetched :
      (s : Slot K) (k : SegmentKey) (g : SlotSegment K) (w : WireSegment K) (now : ℕ)
      → contains k s.fetched ≡ false
      → let t = fetch s k g w now in
        total_weight t.fetched t.requested ≡ segment_weight w + total_weight s.fetched s.requested
  unfolding fetch
  weigh_fetched s k g w now h =
      let g' = record g { received = some w; arrival_time_usec = now } in
      ground (
        arith,
        same_key_iff k k,
        lookup-insert k k g' s.requested,
        total_weight-insert_new k g' s.fetched s.requested h,
      )

  update-IsAssembled :
      (s : Slot K) (w : WireSegment K) (now : ℕ)
      → s.state ≢ locked
      → s.assembled + segment_weight w ≡ total_weight s.fetched s.requested
      → (s.state ≡ ready → s.segment_meta ≡ true)
      → IsAssembled (update_consistency_state s w now)
  unfolding update_consistency_state
  update-IsAssembled s w now l e m = ground (arith, m)

  receive_key-IsAssembled :
      (s : Slot K) (k : SegmentKey) (w : WireSegment K) (now : ℕ)
      → s.state ≢ locked
      → IsAssembled s
      → Keeps (receive_key s k w now)
  unfolding receive_key fetch
  receive_key-IsAssembled s k w now l v = elim (Option-cases (lookup k s.requested)) [
    | inl e ↦ rw (e, receive_key) v
    | inr (g, e) ↦ elim (Bool-cases (contains k s.fetched)) [
      | inl old ↦ rw (e, receive_key) (rw (old, receive_key) v)
      | inr fresh ↦
          rw (e, receive_key)
            (rw (fresh, receive_key)
              (update-IsAssembled (fetch s k g w now) w now l
                (ground (arith, weigh_fetched s k g w now fresh)) (λ r. (v.complete (inl r)).0)))
    ]
  ]

  receive_named-IsAssembled :
      (s : Slot K) (w : WireSegment K) (now : ℕ)
      → s.state ≢ locked
      → IsAssembled s
      → Keeps (receive_named s w now)
  unfolding receive_named
  receive_named-IsAssembled s w now l v = elim (Option-cases (segment_key w.info)) [
    | inl e ↦
        rw (e, receive_named)
          (if_case (Keeps {A = Option SegmentKey}) w.info.has_seq_no {x = raises s not_requested}
            {y = raises s not_requested} v v)
    | inr (k, e) ↦
        rw (e, receive_named)
          (if_case (Keeps {A = Option SegmentKey}) w.info.has_seq_no {x = receive_key s k w now}
            {y = raises s not_requested} (receive_key-IsAssembled s k w now l v) v)
  ]

  -- `segmentsRequested` keeps a slot sound, whether it returns or throws half way.
  pub segments_requested-IsAssembled :
      (s : Slot K) (is : List (Interest K)) (now : ℕ)
      → IsAssembled s
      → IsAssembled (end_of (segments_requested s is now))
  unfolding segments_requested
  segments_requested-IsAssembled s is now v =
      if_case Keeps (is_blocked s.state) v (request_all-IsAssembled s is now v)

  -- So does `segmentReceived`.
  pub segment_received-IsAssembled :
      (s : Slot K) (w : WireSegment K) (now : ℕ)
      → IsAssembled s
      → IsAssembled (end_of (segment_received s w now))
  unfolding segment_received is_locked
  segment_received-IsAssembled s w now v = elim (Bool-cases (is_locked s.state)) [
    | inl l ↦ rw (l, segment_received) v
    | inr l ↦
        rw (l, segment_received)
          (if_case (Keeps {A = Option SegmentKey}) (name_matches s.name w.info.prefix)
            {x = receive_named s w now} {y = raises s incorrect_name}
            (receive_named-IsAssembled s w now (ground (arith, l)) v) v)
  ]
