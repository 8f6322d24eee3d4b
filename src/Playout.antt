-- ===== src/Playout.antt =====
-- Playout: the loop that takes a sample from the playback queue, plays it and waits
-- (cpp/src/playout-impl.cpp), and the timing of the waits (cpp/src/jitter-timing.cpp).
pub mod Pace
pub mod Video
pub mod Decoding
use ndnrtc.Base.{
  ℕ, ◌+◌, ◌-◌, ◌*◌, ◌/◌, ◌≤◌, Bool, true, false, not, ◌&&◌, Option, none, some, ltb, leb, ◌==◌,
  if◌then◌else◌, ◌>>=◌, ℤ, pos, negsuc, ◌+ℤ◌, ◌-ℤ◌, ltb_ℤ, abs,
}

-- JitterTimingImpl. Its `int`s count times and are not negative.
pub record Timing : Type 0 where
  pub frame_playout_time_ms : ℕ
  pub processing_time_usec : ℕ
  pub playout_timestamp_usec : ℕ

-- JitterTimingImpl::resetData
abbrev pub reset_data : Timing
reset_data = record {
  frame_playout_time_ms = 0;
  processing_time_usec = 0;
  playout_timestamp_usec = 0;
}

-- JitterTimingImpl::startFramePlayout at `now`. `none` is the failed assertion, when the timer was too
-- early. The time of the last iteration is `now - t.playout_timestamp_usec`.
unfoldable pub start_frame_playout : ℕ → Timing → Option Timing
start_frame_playout now t =
    let waited = t.frame_playout_time_ms * 1000 in
    let late = now - t.playout_timestamp_usec - waited in
    if t.playout_timestamp_usec == 0
    then some (record t { playout_timestamp_usec = now })
    else if leb (t.playout_timestamp_usec + waited) now
    then some (record t {
      processing_time_usec = t.processing_time_usec + late;
      playout_timestamp_usec = now;
    })
    else none

-- JitterTimingImpl::updatePlayoutTime
unfoldable pub update_playout_time : ℕ → Timing → Timing
update_playout_time ms t =
    let usec = ms * 1000 in
    let whole = t.processing_time_usec / 1000 * 1000 in
    let absorbed = if ltb usec whole then usec else whole in
    if leb 1000 t.processing_time_usec
    then record t {
      processing_time_usec = t.processing_time_usec - absorbed;
      frame_playout_time_ms = (usec - absorbed) / 1000;
    }
    else record t { frame_playout_time_ms = usec / 1000 }

-- PlayoutImpl, with the notices of an empty queue counted.
pub record Playout : Type 0 where
  pub is_running : Bool
  pub timing : Timing
  pub last_timestamp : ℤ
  pub last_delay : ℤ
  pub delay_adjustment : ℤ
  pub queue_empty_notices : ℕ

-- PlayoutImpl::PlayoutImpl
abbrev pub create : Playout
create = record {
  is_running = false;
  timing = reset_data;
  last_timestamp = negsuc 0;
  last_delay = negsuc 0;
  delay_adjustment = pos 0;
  queue_empty_notices = 0;
}

-- PlayoutImpl::start, up to its call of extractSample; `none` is the exception.
unfoldable pub start : ℕ → Playout → Option Playout
unfolding ◌-ℤ◌
start fast_forward_ms p =
    if p.is_running
    then none
    else some (record p {
      timing = reset_data;
      last_timestamp = negsuc 0;
      last_delay = negsuc 0;
      delay_adjustment = pos 0 -ℤ pos fast_forward_ms;
      is_running = true;
    })

-- PlayoutImpl::stop
unfoldable pub stop : Playout → Playout
stop p = if p.is_running then record p { is_running = false; timing = reset_data } else p

-- PlayoutImpl::addAdjustment
abbrev pub add_adjustment : ℤ → Playout → Playout
add_adjustment ms p = record p { delay_adjustment = p.delay_adjustment +ℤ ms }

-- PlayoutImpl::correctAdjustment
unfoldable pub correct_adjustment : ℤ → Playout → Playout
correct_adjustment timestamp p =
    let offset = timestamp -ℤ p.last_timestamp -ℤ p.last_delay in
    if ltb_ℤ p.last_delay (pos 0)
    then p
    else record p { delay_adjustment = p.delay_adjustment +ℤ offset }

-- PlayoutImpl::adjustDelay: the delay that is waited, and the adjustment that is left.
unfoldable pub adjust_delay : ℕ → Playout → ℤ × Playout
adjust_delay delay p =
    let rest : Playout = record p { delay_adjustment = p.delay_adjustment +ℤ pos delay } in
    let none_left : Playout = record p { delay_adjustment = pos 0 } in
    if ltb_ℤ p.delay_adjustment (pos 0) && ltb delay (abs p.delay_adjustment)
    then (pos 0, rest)
    else (pos delay +ℤ p.delay_adjustment, none_left)

-- PlayoutImpl::extractSample at `now`. `popped` is the timestamp of the sample that is taken from the
-- queue, with its play time, and `period` is `samplePeriod()`, rounded. `none` is a failed assertion of
-- the timing, which takes no negative delay.
unfoldable pub extract_sample : ℕ → Option (ℤ × ℕ) → ℕ → Playout → Option Playout
unfolding start_frame_playout update_playout_time correct_adjustment adjust_delay
extract_sample now popped period p = if not p.is_running then some p else do
  timing ← start_frame_playout now p.timing
  let taken : Playout × ℕ = elim popped [
    | none ↦ (
      record p {
        last_timestamp = p.last_timestamp +ℤ pos period;
        queue_empty_notices = p.queue_empty_notices + 1;
      },
      period,
    )
    | some (timestamp, play_time) ↦
        (record (correct_adjustment timestamp p) { last_timestamp = timestamp }, play_time)
  ]
  let (actual, q) = adjust_delay taken.1 (record taken.0 { last_delay = pos taken.1 })
  elim actual [
    | pos ms ↦ some (record q { timing = update_playout_time ms timing })
    | negsuc _ ↦ none
  ]
