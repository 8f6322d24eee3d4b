-- ===== src/FrameBuffer/Queue/Arrivals.antt =====
-- Which samples the playback queue holds (PlaybackQueue in cpp/src/frame-buffer.cpp).
use ndnrtc.Base.{
  ℕ, ◌≡◌, refl, ap, sym, inl, inr, Bool, true, false, Option, none, some, List, [], ◌∷◌, ◌&&◌, ◌||◌,
  ◌==◌, arith, ◌∙◌, Option-cases, All,
}
use ndnrtc.FrameBuffer.Names.{Order, CommonHeader, WireSegment}
use ndnrtc.FrameBuffer.Slot.{State, ready, Slot, Attempt, returns, raises, end_of}
use ndnrtc.FrameBuffer.Slot.Queries.{get_header}
use ndnrtc.FrameBuffer.Buffer.{Buffer, Receipt, received}
use ndnrtc.FrameBuffer.Queue.{
  Sample, PlaybackQueue, insert_sample, on_new_data, deliver, enqueue, reserve, is_ready,
}
use ndnrtc.FrameBuffer.Queue.Playback.{IsOrdered}

module _ {K : Type 0} where
  -- Some sample has the timestamp.
  abbrev pub has_time : ℕ → List (Sample K) → Bool
  has_time t [] = false
  has_time t (x ∷ xs) = x.timestamp == t || has_time t xs

  insert_sample-has_time :
      (t : ℕ) (x : Sample K) (ys : List (Sample K))
      → has_time t (insert_sample x ys) ≡ (x.timestamp == t || has_time t ys)
  unfolding insert_sample
  insert_sample-has_time t x [] = refl
  insert_sample-has_time t x (y ∷ ys) = ground (arith, insert_sample-has_time t x ys)

module _ {K : Type 0} ⦃o : Order K⦄ (is_ours : Option K → Bool) where
  -- A Ready sample of the stream, filed by the time at which it was published.
  pub record IsPlayable (x : Sample K) : Type 0 where
    pub header : CommonHeader
    pub is_complete : x.slot.state ≡ ready
    pub is_of_stream : is_ours x.slot.name ≡ true
    pub has_header : get_header x.slot ≡ some header
    pub timed : x.timestamp ≡ header.publish_timestamp_ms

  -- The queue is in the order of distinct times, and all in it can be played.
  pub record IsPlayQueue (q : PlaybackQueue K) : Type 0 where
    pub ordered : IsOrdered q.queue
    pub playable : All IsPlayable q.queue

  abbrev KeepsPlayable : Attempt (PlaybackQueue K) (Unit {0}) → Type 0
  KeepsPlayable a = All IsPlayable ((end_of a).queue)

  -- A sample enters that is Ready, of the stream, and was published at the time.
  abbrev pub is_complete_state : State → Bool
  is_complete_state ready = true
  is_complete_state _ = false

  abbrev pub is_published_at : ℕ → Option CommonHeader → Bool
  is_published_at t none = false
  is_published_at t (some h) = h.publish_timestamp_ms == t

  abbrev pub enters : Receipt K → ℕ → Bool
  enters r t =
      is_complete_state r.slot.state && is_ours r.slot.name && is_published_at t (get_header r.slot)

  enqueue-has_time :
      (q p : PlaybackQueue K) (s : Slot K) (t : ℕ)
      → enqueue q s ≡ returns p tt
      → has_time t p.queue ≡ (is_published_at t (get_header s) || has_time t q.queue)
  unfolding enqueue
  enqueue-has_time q p s t h = elim (Option-cases (get_header s)) [
    | inl e ↦ ground (arith, h, e)
    | inr (c, e) ↦
        let x : Sample K = record { timestamp = c.publish_timestamp_ms; slot = s } in
        ground (arith, h, e, insert_sample-has_time t x q.queue)
  ]

  after_reserve-has_time :
      (q p : PlaybackQueue K) (s : Slot K) (a : Attempt (Buffer K) (Unit {0})) (t : ℕ)
      → (elim a [
        | returns b _ ↦ enqueue (record q { buffer = b }) s
        | raises b e ↦ raises (record q { buffer = b }) e
      ])
        ≡ returns p tt
      → has_time t p.queue ≡ (is_published_at t (get_header s) || has_time t q.queue)
  after_reserve-has_time q p s (returns b _) t h =
      enqueue-has_time (record q { buffer = b }) p s t h
  after_reserve-has_time q p s (raises b e) t h = ground (arith, h)

  on_new_data-has_time :
      (q p : PlaybackQueue K) (r : Receipt K) (t : ℕ)
      → on_new_data is_ours q r ≡ returns p tt
      → has_time t p.queue ≡ (enters r t || has_time t q.queue)
  unfolding on_new_data is_ready
  on_new_data-has_time q p r t h =
      ground (arith, h, after_reserve-has_time q p r.slot (reserve q.buffer r.slot.name) t)

  -- When a segment is delivered without an exception, the times of the samples in the queue are those from before and,
  -- just when the slot that received it is now Ready and of the stream, the time at which its sample was published.
  pub deliver-has_time :
      (q p : PlaybackQueue K) (w : WireSegment K) (now t : ℕ) (b : Buffer K) (r : Receipt K)
      → received q.buffer w now ≡ returns b r
      → deliver is_ours q w now ≡ returns p tt
      → has_time t p.queue ≡ (enters r t || has_time t q.queue)
  unfolding deliver
  deliver-has_time q p w now t b r e h =
      let after : Attempt (Buffer K) (Receipt K) → Attempt (PlaybackQueue K) (Unit {0}) = λ a.
        elim a [
          | returns c u ↦ on_new_data is_ours (record q { buffer = c }) u
          | raises c x ↦ raises (record q { buffer = c }) x
        ] in
      on_new_data-has_time (record q { buffer = b }) p r t (ap after (sym e) ∙ h)
