-- ===== src/PlayoutControl.antt =====
-- PlayoutControl: when playout starts and stops, and the size of the playback queue that it aims at
-- (cpp/src/playout-control.cpp).
pub mod Threshold
use ndnrtc.Base.{
  ℕ, ◌+◌, ◌-◌, Bool, true, false, not, ◌&&◌, List, [], ◌∷◌, max, ltb, leb, ◌==◌, if◌then◌else◌, u32,
  sub32, ℤ, pos, ◌-ℤ◌,
}

-- PlayoutControl::MinimalPlayableLevel and QUEUE_CHECK_INTERVAL, in milliseconds.
abbrev pub minimal_playable_level : ℕ
minimal_playable_level = 150

abbrev pub queue_check_interval : ℕ
queue_check_interval = 300

-- Calls of the playout and of the retransmission controller.
pub data Call : Type 0 where
  playout_start : ℕ → Call
  playout_stop : Call
  rtx_enabled : Bool → Call
  add_adjustment : ℤ → Call

-- What the code computes with doubles: whether the queue is more than 1.5 samples away from the
-- target, by `d` milliseconds; `d` cut to the length of 1.5 samples; whether the target differs from
-- the round-trip delay `t` by a tenth of it.
pub record Doubles : Type 0 where
  pub is_far : ℕ → Bool
  pub capped : ℕ → ℕ
  pub differs : ℕ → ℕ → Bool

-- PlayoutControl, with the state of the playout and of the retransmission controller that it sets.
-- `ffwd_ms` is the word of an `int`, and the thresholds are words.
pub record Control : Type 0 where
  pub is_running : Bool
  pub is_rtx_enabled : Bool
  pub playout_allowed : Bool
  pub ffwd_ms : ℕ
  pub queue_check_ms : ℕ
  pub user_threshold_ms : ℕ
  pub threshold_ms : ℕ
  pub calls : List Call

-- PlayoutControl::PlayoutControl
unfoldable pub create : ℕ → Control
create minimal = record {
  is_running = false;
  is_rtx_enabled = false;
  playout_allowed = false;
  ffwd_ms = 0;
  queue_check_ms = 0;
  user_threshold_ms = minimal;
  threshold_ms = max minimal minimal_playable_level;
  calls = [];
}

-- The two branches of checkPlayout. `size` is `queue_->size()`, and `now` the time.
unfoldable pub start_playout : ℕ → ℕ → Control → Control
start_playout size now c =
    if leb (u32 (c.threshold_ms + c.ffwd_ms)) size
    then record c {
      is_running = true;
      is_rtx_enabled = true;
      queue_check_ms = now + queue_check_interval;
      calls = rtx_enabled true ∷ playout_start (sub32 size c.threshold_ms) ∷ c.calls;
    }
    else c

unfoldable pub stop_playout : Control → Control
stop_playout c = record c {
  is_running = false;
  is_rtx_enabled = false;
  calls = rtx_enabled false ∷ playout_stop ∷ c.calls;
}

-- PlayoutControl::checkPlayout
unfoldable pub check_playout : ℕ → ℕ → Control → Control
unfolding start_playout stop_playout
check_playout size now c =
    if c.is_running
    then (if c.playout_allowed then c else stop_playout c)
    else (if c.playout_allowed then start_playout size now c else c)

-- PlayoutControl::allowPlayout
unfoldable pub allow_playout : ℕ → ℕ → Bool → ℕ → Control → Control
unfolding check_playout
allow_playout size now allow ffwd c =
    check_playout size now (record c { playout_allowed = allow; ffwd_ms = ffwd })

-- PlayoutControl::setThreshold
unfoldable pub set_threshold : ℕ → Control → Control
set_threshold t c = record c {
  user_threshold_ms = t;
  threshold_ms = if ltb t c.threshold_ms then max t minimal_playable_level else t;
}

module _ (D : Doubles) where
  -- PlayoutControl::checkPlaybackQueueSize. The distance is negative when the queue is too long.
  unfoldable pub check_playback_queue_size : ℕ → ℕ → Control → Control
  unfolding ◌-ℤ◌
  check_playback_queue_size size now c =
      let d = if ltb c.threshold_ms size then size - c.threshold_ms else c.threshold_ms - size in
      let ms = D.capped d in
      let adjustment = if ltb c.threshold_ms size then pos 0 -ℤ pos ms else pos ms in
      if leb (c.queue_check_ms + queue_check_interval) now
      then record c {
        queue_check_ms = now;
        calls = if D.is_far d then add_adjustment adjustment ∷ c.calls else c.calls;
      }
      else c

  -- PlayoutControl::onNewSampleReady
  unfoldable pub on_new_sample_ready : ℕ → ℕ → Control → Control
  unfolding check_playout check_playback_queue_size
  on_new_sample_ready size now c =
      let checked = check_playout size now c in
      if checked.is_running then check_playback_queue_size size now checked else checked

  -- PlayoutControl::onOriginalDrdUpdate, for the target `drd + ALPHA*dev`.
  unfoldable pub on_original_drd_update : ℕ → Control → Control
  on_original_drd_update target c =
      if D.differs c.threshold_ms target
        && leb minimal_playable_level target
        && not (c.threshold_ms == c.user_threshold_ms)
      then record c { threshold_ms = target }
      else c
