-- ===== src/FrameBuffer/Buffer/Conservation.antt =====
-- The buffer loses no slot (SlotPool and Buffer in cpp/src/frame-buffer.cpp).
use ndnrtc.Base.{
  ℕ, suc, ◌+◌, ◌≤◌, ◌≡◌, inl, inr, Bool, true, false, none, some, List, [], ◌∷◌, arith, length,
  Option-cases,
}
use ndnrtc.FrameBuffer.Names.{Order, Interest, WireSegment}
use ndnrtc.FrameBuffer.SampleMap.{
  find, put, IsSorted, find-put, length-put, length-put_again, length-erase, put-IsSorted,
  erase-IsSorted,
}
use ndnrtc.FrameBuffer.Slot.{
  Slot, Attempt, returns, raises, end_of, segments_requested, segment_received,
}
use ndnrtc.FrameBuffer.Slot.Queries.{toggle_lock}
use ndnrtc.FrameBuffer.Buffer.{
  Pool, Buffer, Counters, pop, push, push_all, reset, claim, store, request_sample, request_samples,
  requested, received, newly_ready, count_dropped, by_sample, invalidate, drop_below,
  invalidate_previous, move_to_reserved, reserve_slot, release_slot,
}

module _ {K : Type 0} ⦃o : Order K⦄ where
  abbrev pub slots_of : Buffer K → ℕ
  slots_of b = length b.pool.slots + length b.active_slots + length b.reserved_slots

  -- Every slot is in the pool, active or reserved, and the maps are sorted.
  pub record IsWhole (b : Buffer K) : Type 0 where
    pub conserved : slots_of b ≡ b.pool.capacity
    pub sorted_active : IsSorted b.active_slots
    pub sorted_reserved : IsSorted b.reserved_slots

  push_all-length :
      (p : Pool K) (m : List (K × Slot K))
      → length p.slots + length m ≤ p.capacity
      → let q = push_all p m in
        (length q.slots ≡ length p.slots + length m) × (q.capacity ≡ p.capacity)
  unfolding push_all push
  push_all-length p [] h = ground arith
  push_all-length p ((k, s) ∷ m) h = ground (arith, push_all-length (push p s).0 m)

  -- `reset` takes all active slots back.
  pub reset-IsWhole : (b : Buffer K) → IsWhole b → IsWhole (reset b)
  unfolding reset
  reset-IsWhole b v = ground (arith, push_all-length b.pool b.active_slots)

  store-IsWhole :
      (b : Buffer K) (k : K) (s t : Slot K)
      → find k b.active_slots ≡ some s
      → IsWhole b
      → IsWhole (store b k t)
  unfolding store
  store-IsWhole b k s t e v = ground (
    arith,
    length-put_again k t s b.active_slots v.sorted_active e,
    put-IsSorted k t b.active_slots v.sorted_active,
  )

  pop-length :
      (p q : Pool K) (s : Slot K)
      → pop p ≡ some (s, q)
      → (suc (length q.slots) ≡ length p.slots) × (q.capacity ≡ p.capacity)
  unfolding pop
  pop-length p q s e = ground arith

  grow-IsWhole :
      (b : Buffer K) (k : K) (s t : Slot K) (p : Pool K)
      → find k b.active_slots ≡ none
      → pop b.pool ≡ some (s, p)
      → IsWhole b
      → IsWhole (store (record b { pool = p; active_slots = put k s b.active_slots }) k t)
  unfolding store
  grow-IsWhole b k s t p f g v =
      let once = put k s b.active_slots in
      let sorted = put-IsSorted k s b.active_slots v.sorted_active in
      let found : find k once ≡ some s =
        ground (arith, find-put k k s b.active_slots, o.eqb_iff k k) in
      ground (
        arith,
        pop-length b.pool p s g,
        length-put k s b.active_slots f,
        length-put_again k t s once sorted found,
        put-IsSorted k t once sorted,
      )

  claim-IsWhole :
      (b c : Buffer K) (k : K) (s t : Slot K)
      → claim b k ≡ some (s, c)
      → IsWhole b
      → IsWhole (store c k t)
  unfolding claim pop store
  claim-IsWhole b c k s t e v = elim (Option-cases (find k b.active_slots)) [
    | inr (u, f) ↦ ground (arith, e, f, store-IsWhole b k u t f v)
    | inl f ↦ elim (Option-cases (pop b.pool)) [
      | inl g ↦ ground (arith, e, f, g)
      | inr ((u, p), g) ↦ ground (arith, e, f, g, grow-IsWhole b k u t p f g v)
    ]
  ]

  request_sample-IsWhole :
      (b : Buffer K) (k : K) (is : List (Interest K)) (now : ℕ)
      → IsWhole b
      → IsWhole (end_of (request_sample b k is now))
  unfolding request_sample
  request_sample-IsWhole b k is now v = elim (Option-cases (claim b k)) [
    | inl e ↦ ground (arith, e)
    | inr ((s, c), e) ↦
        ground (arith, e, claim-IsWhole b c k s (end_of (segments_requested s is now)) e v)
  ]

  after_sample :
      (a : Attempt (Buffer K) Bool) (m : List (K × List (Interest K))) (now : ℕ)
      → ((c : Buffer K) → IsWhole c → IsWhole (end_of (request_samples c m now)))
      → IsWhole (end_of a)
      → IsWhole (
          end_of (elim a [
            | returns c true ↦ request_samples c m now
            | returns c false ↦ returns c false
            | raises c e ↦ raises c e
          ]))
  after_sample (returns c true) m now rest v = rest c v
  after_sample (returns c false) m now rest v = v
  after_sample (raises c e) m now rest v = v

  request_samples-IsWhole :
      (b : Buffer K) (m : List (K × List (Interest K))) (now : ℕ)
      → IsWhole b
      → IsWhole (end_of (request_samples b m now))
  unfolding request_samples
  request_samples-IsWhole b [] now v = v
  request_samples-IsWhole b ((k, is) ∷ m) now v =
      after_sample (request_sample b k is now) m now (λ c u. request_samples-IsWhole c m now u)
        (request_sample-IsWhole b k is now v)

  -- `requested`, also when it finds no free slot or throws.
  pub requested-IsWhole :
      (b : Buffer K) (is : List (Interest K)) (now : ℕ)
      → IsWhole b
      → IsWhole (end_of (requested b is now))
  unfolding requested
  requested-IsWhole b is now v = elim (Option-cases (by_sample is [])) [
    | inl e ↦ ground (arith, e)
    | inr (m, e) ↦ ground (arith, e, request_samples-IsWhole b m now v)
  ]

  -- `received`, also when it throws.
  pub received-IsWhole :
      (b : Buffer K) (w : WireSegment K) (now : ℕ) → IsWhole b → IsWhole (end_of (received b w now))
  unfolding received newly_ready
  received-IsWhole b w now v = elim (Option-cases (find w.info.prefix b.active_slots)) [
    | inl e ↦ ground (arith, e)
    | inr (s, e) ↦
        ground (arith, e, store-IsWhole b w.info.prefix s (end_of (segment_received s w now)) e v)
  ]

  pub invalidate-IsWhole :
      (b c : Buffer K) (k : K) → invalidate b k ≡ some c → IsWhole b → IsWhole c
  unfolding invalidate push
  invalidate-IsWhole b c k e v = elim (Option-cases (find k b.active_slots)) [
    | inl f ↦ ground (arith, e, f)
    | inr (s, f) ↦ ground (
      arith,
      e,
      f,
      length-erase k s b.active_slots f,
      erase-IsSorted k b.active_slots v.sorted_active,
    )
  ]

  drop_below-length :
      (k : K) (p : Pool K) (c : Counters) (m : List (K × Slot K))
      → length p.slots + length m ≤ p.capacity
      → IsSorted m
      → let (q, d, n) = drop_below k p c m in
        (length q.slots + length n ≡ length p.slots + length m)
        × (q.capacity ≡ p.capacity)
        × IsSorted n
  unfolding drop_below push
  drop_below-length k p c [] h s = ground arith
  drop_below-length k p c ((j, s) ∷ m) h v =
      ground (arith, drop_below-length k (push p s).0 (count_dropped s c) m)

  pub invalidate_previous-IsWhole :
      (b : Buffer K) (k : K) → IsWhole b → IsWhole (invalidate_previous b k)
  unfolding invalidate_previous
  invalidate_previous-IsWhole b k v =
      ground (arith, drop_below-length k b.pool b.counters b.active_slots)

  pub release_slot-IsWhole : (b : Buffer K) (k : K) → IsWhole b → IsWhole (release_slot b k)
  unfolding release_slot push
  release_slot-IsWhole b k v = elim (Option-cases (find k b.reserved_slots)) [
    | inl f ↦ ground (arith, f)
    | inr (s, f) ↦ ground (
      arith,
      f,
      length-erase k s b.reserved_slots f,
      erase-IsSorted k b.reserved_slots v.sorted_reserved,
    )
  ]

  pub move-slots :
      (b : Buffer K) (k : K) (s t : Slot K)
      → IsWhole b
      → find k b.active_slots ≡ some s
      → let c = move_to_reserved b k t in
        IsSorted c.active_slots
        × IsSorted c.reserved_slots
        × (slots_of c + elim (find k b.reserved_slots) [ none ↦ 0 | some t ↦ 1 ] ≡ c.pool.capacity)
  unfolding move_to_reserved
  move-slots b k s t v e = elim (Option-cases (find k b.reserved_slots)) [
    | inl f ↦ ground (
      arith,
      f,
      length-erase k s b.active_slots e,
      length-put k t b.reserved_slots f,
      put-IsSorted k t b.reserved_slots,
      erase-IsSorted k b.active_slots,
    )
    | inr (u, f) ↦ ground (
      arith,
      f,
      length-erase k s b.active_slots e,
      length-put_again k t u b.reserved_slots v.sorted_reserved f,
      put-IsSorted k t b.reserved_slots,
      erase-IsSorted k b.active_slots,
    )
  ]

  -- In a buffer that lost no slot and has its maps sorted, reserving an active sample, also when
  -- it throws, keeps the maps sorted and loses no slot, unless the sample's name is reserved
  -- already: then the older slot is lost.
  pub reserve_slot-slots :
      (b : Buffer K) (k : K) (s : Slot K)
      → IsWhole b
      → find k b.active_slots ≡ some s
      → let c = end_of (reserve_slot b k) in
        IsSorted c.active_slots
        × IsSorted c.reserved_slots
        × (slots_of c + elim (find k b.reserved_slots) [ none ↦ 0 | some t ↦ 1 ] ≡ c.pool.capacity)
  unfolding reserve_slot
  reserve_slot-slots b k s v e = ground (arith, e, move-slots b k s (end_of (toggle_lock s)) v e)
