-- ===== src/FrameBuffer/Queue.antt =====
-- PlaybackQueue (cpp/src/frame-buffer.cpp) with the buffer that it observes. Its own observers, its
-- `pendingSize` and the sizes in the statistics are left out.
pub mod Playback
pub mod Arrivals
use ndnrtc.Base.{
  ℕ, ◌+◌, ◌-◌, Bool, true, false, ◌&&◌, Option, none, some, List, [], ◌∷◌, ltb, if◌then◌else◌, ◌==◌,
}
use ndnrtc.FrameBuffer.Names.{Order, Info, WireSegment}
use ndnrtc.FrameBuffer.Slot.{State, ready, Error, no_header, Attempt, returns, raises, Slot}
use ndnrtc.FrameBuffer.Slot.Queries.{get_header}
use ndnrtc.FrameBuffer.Buffer.{
  Buffer, Receipt, received, invalidate_previous, reserve_slot, release_slot,
}

-- PlaybackQueue::Sample; the slot is locked in the buffer, so it does not change any more.
pub record Sample (K : Type 0) : Type 0 where
  pub timestamp : ℕ
  pub slot : Slot K

pub record PlaybackQueue (K : Type 0) : Type 0 where
  pub buffer : Buffer K
  pub packet_rate : ℕ
  pub queue : List (Sample K)

-- How long a sample is shown: until the next one, or for `samplePeriod()`.
pub data PlayTime : Type 0 where
  until_next : ℕ → ℕ → PlayTime
  sample_period : PlayTime

is_ready : State → Bool
is_ready ready = true
is_ready _ = false

module _ {K : Type 0} where
  -- A std::set ordered by the timestamps keeps the older of two samples with one timestamp.
  unfoldable pub insert_sample : Sample K → List (Sample K) → List (Sample K)
  insert_sample x [] = x ∷ []
  insert_sample x (y ∷ ys) =
      let rest = insert_sample x ys in
      if ltb x.timestamp y.timestamp
      then x ∷ y ∷ ys
      else if x.timestamp == y.timestamp
      then y ∷ ys
      else y ∷ rest

  last_timestamp : Sample K → List (Sample K) → ℕ
  last_timestamp x [] = x.timestamp
  last_timestamp x (y ∷ ys) = last_timestamp y ys

  -- `size()`: how long the queue lasts beside one sample period; `none` is 0.
  unfoldable pub size : List (Sample K) → Option ℕ
  unfolding last_timestamp
  size [] = none
  size (x ∷ xs) = some (last_timestamp x xs - x.timestamp)

  is_delta_sample : Slot K → Bool
  is_delta_sample s = elim s.name_info [ none ↦ false | some i ↦ i.is_delta ]

  play_time : Sample K → List (Sample K) → PlayTime
  play_time x [] = sample_period
  play_time x (y ∷ ys) = until_next x.timestamp y.timestamp

  module _ ⦃o : Order K⦄ where
    reserve : Buffer K → Option K → Attempt (Buffer K) (Unit {0})
    reserve b none = returns b tt
    reserve b (some k) = reserve_slot b k

    release : Buffer K → Option K → Buffer K
    release b none = b
    release b (some k) = release_slot b k

    enqueue : PlaybackQueue K → Slot K → Attempt (PlaybackQueue K) (Unit {0})
    enqueue q s = elim (get_header s) [
      | none ↦ raises q no_header
      | some h ↦
          returns
            (record q {
              packet_rate = h.sample_rate;
              queue =
                  insert_sample (record { timestamp = h.publish_timestamp_ms; slot = s }) q.queue;
            })
            tt
    ]

    -- `onNewData`; `is_ours` tells whether the prefix of the stream matches a name.
    unfoldable pub on_new_data :
        (Option K → Bool) → PlaybackQueue K → Receipt K → Attempt (PlaybackQueue K) (Unit {0})
    unfolding is_ready reserve enqueue
    on_new_data is_ours q r =
        if is_ready r.slot.state && is_ours r.slot.name
        then elim (reserve q.buffer r.slot.name) [
          | returns b _ ↦ enqueue (record q { buffer = b }) r.slot
          | raises b e ↦ raises (record q { buffer = b }) e
        ]
        else returns q tt

    -- `Buffer::received` with the queue as its observer.
    unfoldable pub deliver :
        (Option K → Bool)
        → PlaybackQueue K
        → WireSegment K
        → ℕ
        → Attempt (PlaybackQueue K) (Unit {0})
    unfolding on_new_data
    deliver is_ours q w now = elim (received q.buffer w now) [
      | returns b r ↦ on_new_data is_ours (record q { buffer = b }) r
      | raises b e ↦ raises (record q { buffer = b }) e
    ]

    count_acquired : Buffer K → Buffer K
    count_acquired b =
        let c = b.counters in record b { counters = record c { acquired_num = c.acquired_num + 1 } }

    count_acquired_key : Buffer K → Buffer K
    count_acquired_key b =
        let c = b.counters in
        record b { counters = record c { acquired_key_num = c.acquired_key_num + 1 } }

    drop_previous : Buffer K → Option K → Buffer K
    drop_previous b none = b
    drop_previous b (some k) = invalidate_previous b k

    -- `pop`, with what is given to `extract`; nothing happens when the queue is empty.
    unfoldable pub pop_sample : PlaybackQueue K → PlaybackQueue K × Option (Slot K × PlayTime)
    unfolding play_time is_delta_sample count_acquired count_acquired_key drop_previous release
    pop_sample q = elim q.queue [
      | [] ↦ (q, none)
      | x ∷ xs ↦
          let b = count_acquired q.buffer in
          let c =
            if is_delta_sample x.slot then drop_previous b x.slot.name else count_acquired_key b in
          (record q { buffer = release c x.slot.name; queue = xs }, some (x.slot, play_time x xs))
    ]
