-- ===== src/FrameBuffer/Queue/Playback.antt =====
-- The playback queue plays samples in the order of their timestamps (PlaybackQueue in
-- cpp/src/frame-buffer.cpp).
use ndnrtc.Base.{
  ℕ, zero, suc, ◌<◌, ◌≡◌, ◌⊎◌, refl, inl, inr, Bool, true, false, Option, none, some, List, [], ◌∷◌,
  map, ◌&&◌, arith, if◌then◌else◌, length, if_case, Option-cases, All,
}
use ndnrtc.FrameBuffer.Names.{Order, WireSegment}
use ndnrtc.FrameBuffer.Slot.{Slot, Attempt, returns, raises, end_of}
use ndnrtc.FrameBuffer.Slot.Queries.{get_header}
use ndnrtc.FrameBuffer.Buffer.{Buffer, Receipt, received}
use ndnrtc.FrameBuffer.Buffer.Conservation.{
  IsWhole, invalidate_previous-IsWhole, release_slot-IsWhole,
}
use ndnrtc.FrameBuffer.Queue.{
  Sample, PlaybackQueue, until_next, sample_period, insert_sample, on_new_data, deliver, enqueue,
  reserve, release, pop_sample, drop_previous, count_acquired, count_acquired_key, is_delta_sample,
  play_time, is_ready,
}

module _ {ℓ} {A : Type ℓ} where
  list_cases : (xs : List A) → (xs ≡ []) ⊎ ((x : A) × (ys : List A) × (xs ≡ x ∷ ys))
  list_cases [] = inl refl
  list_cases (x ∷ xs) = inr (x, xs, refl)

module _ {K : Type 0} where
  abbrev pub IsOrdered : List (Sample K) → Type 0
  IsOrdered [] = Unit
  IsOrdered (x ∷ xs) = All (λ y. x.timestamp < y.timestamp) xs × IsOrdered xs

  All-insert :
      (t : ℕ) (x : Sample K) (ys : List (Sample K))
      → t < x.timestamp
      → All (λ y. t < y.timestamp) ys
      → All (λ y. t < y.timestamp) (insert_sample x ys)
  unfolding insert_sample
  All-insert t x [] l a = (l, tt)
  All-insert t x (y ∷ ys) l a = ground (arith, All-insert t x ys l)

  All-later :
      (t u : ℕ) (ys : List (Sample K))
      → t < u
      → All (λ y. u < y.timestamp) ys
      → All (λ y. t < y.timestamp) ys
  All-later t u [] l a = tt
  All-later t u (y ∷ ys) l a = (omega (arith, l, a.0), All-later t u ys l a.1)

  insert_sample-IsOrdered :
      (x : Sample K) (ys : List (Sample K)) → IsOrdered ys → IsOrdered (insert_sample x ys)
  unfolding insert_sample
  insert_sample-IsOrdered x [] h = (tt, tt)
  insert_sample-IsOrdered x (y ∷ ys) h = ground (
    arith,
    insert_sample-IsOrdered x ys h.1,
    All-insert y.timestamp x ys,
    All-later x.timestamp y.timestamp ys,
  )

module _ {K : Type 0} ⦃o : Order K⦄ where
  abbrev KeepsOrder : Attempt (PlaybackQueue K) (Unit {0}) → Type 0
  KeepsOrder a = IsOrdered ((end_of a).queue)

  enqueue-IsOrdered :
      (q : PlaybackQueue K) (s : Slot K) → IsOrdered q.queue → KeepsOrder (enqueue q s)
  unfolding enqueue
  enqueue-IsOrdered q s h = elim (Option-cases (get_header s)) [
    | inl e ↦ rw (e, enqueue) h
    | inr (c, e) ↦
        let x : Sample K = record { timestamp = c.publish_timestamp_ms; slot = s } in
        rw (e, enqueue) (insert_sample-IsOrdered x q.queue h)
  ]

  after_reserve :
      (q : PlaybackQueue K) (s : Slot K) (a : Attempt (Buffer K) (Unit {0}))
      → IsOrdered q.queue
      → KeepsOrder (elim a [
        | returns b _ ↦ enqueue (record q { buffer = b }) s
        | raises b e ↦ raises (record q { buffer = b }) e
      ])
  after_reserve q s (returns b _) h = enqueue-IsOrdered (record q { buffer = b }) s h
  after_reserve q s (raises b e) h = h

  on_new_data-IsOrdered :
      (is_ours : Option K → Bool) (q : PlaybackQueue K) (r : Receipt K)
      → IsOrdered q.queue
      → KeepsOrder (on_new_data is_ours q r)
  unfolding on_new_data
  on_new_data-IsOrdered is_ours q r h =
      if_case KeepsOrder (is_ready r.slot.state && is_ours r.slot.name) {y = returns q tt}
        (after_reserve q r.slot (reserve q.buffer r.slot.name) h) h

  after_received :
      (is_ours : Option K → Bool) (q : PlaybackQueue K) (a : Attempt (Buffer K) (Receipt K))
      → IsOrdered q.queue
      → KeepsOrder (elim a [
        | returns b r ↦ on_new_data is_ours (record q { buffer = b }) r
        | raises b e ↦ raises (record q { buffer = b }) e
      ])
  after_received is_ours q (returns b r) h =
      on_new_data-IsOrdered is_ours (record q { buffer = b }) r h
  after_received is_ours q (raises b e) h = h

  pub deliver-IsOrdered :
      (is_ours : Option K → Bool) (q : PlaybackQueue K) (w : WireSegment K) (now : ℕ)
      → IsOrdered q.queue
      → IsOrdered ((end_of (deliver is_ours q w now)).queue)
  unfolding deliver
  deliver-IsOrdered is_ours q w now h = after_received is_ours q (received q.buffer w now) h

  -- From an ordered queue that is not empty `pop` plays the oldest sample, for the time until
  -- the next one where there is one and for a sample period else, and keeps the others, which
  -- are younger, in order.
  pub pop_oldest :
      (q : PlaybackQueue K) (x : Sample K) (xs : List (Sample K))
      → q.queue ≡ x ∷ xs
      → IsOrdered q.queue
      → ((pop_sample q).0.queue ≡ xs)
        × IsOrdered xs
        × All (λ y. x.timestamp < y.timestamp) xs
        × ((pop_sample q).1
            ≡ some (
              x.slot,
              elim xs [ [] ↦ sample_period | y ∷ ys ↦ until_next x.timestamp y.timestamp ],
            ))
  unfolding pop_sample play_time
  pop_oldest q x [] e h = ground (arith, e, h)
  pop_oldest q x (y ∷ ys) e h = ground (arith, e, h)

  -- All that `pop` plays, until the queue is empty.
  pub drain : ℕ → PlaybackQueue K → List (Slot K)
  unfolding pop_sample
  drain zero q = []
  drain (suc fuel) q =
      let rest = drain fuel (pop_sample q).0 in
      elim (pop_sample q).1 [ none ↦ [] | some (s, p) ↦ s ∷ rest ]

  -- Popping as often as the queue has samples plays all of them, in the order of the queue.
  pub drain-all :
      (q : PlaybackQueue K) (xs : List (Sample K))
      → q.queue ≡ xs
      → drain (length xs) q ≡ map (λ x. x.slot) xs
  unfolding drain pop_sample
  drain-all q [] e = refl
  drain-all q (x ∷ xs) e = ground (arith, e, drain-all (pop_sample q).0 xs)

  drop_previous-IsWhole : (b : Buffer K) (k : Option K) → IsWhole b → IsWhole (drop_previous b k)
  unfolding drop_previous
  drop_previous-IsWhole b none v = v
  drop_previous-IsWhole b (some k) v = invalidate_previous-IsWhole b k v

  release-IsWhole : (b : Buffer K) (k : Option K) → IsWhole b → IsWhole (release b k)
  unfolding release
  release-IsWhole b none v = v
  release-IsWhole b (some k) v = release_slot-IsWhole b k v

  played-IsWhole :
      (b : Buffer K) (s : Slot K) (d : Bool)
      → IsWhole b
      → IsWhole (
          release
            (if d
              then drop_previous (count_acquired b) s.name
              else count_acquired_key (count_acquired b))
            s.name)
  unfolding count_acquired count_acquired_key
  played-IsWhole b s true v =
      release-IsWhole (drop_previous (count_acquired b) s.name) s.name
        (drop_previous-IsWhole (count_acquired b) s.name (ground (arith, v)))
  played-IsWhole b s false v =
      release-IsWhole (count_acquired_key (count_acquired b)) s.name (ground (arith, v))

  -- `pop` loses no slot of a buffer that lost none, and keeps its maps sorted.
  pub pop_sample-IsWhole :
      (q : PlaybackQueue K) → IsWhole q.buffer → IsWhole ((pop_sample q).0.buffer)
  unfolding pop_sample
  pop_sample-IsWhole q v = elim (list_cases q.queue) [
    | inl e ↦ rw (e, pop_sample) v
    | inr (x, xs, e) ↦
        rw (e, pop_sample) (played-IsWhole q.buffer x.slot (is_delta_sample x.slot) v)
  ]
