-- ===== src/Playout/Pace.antt =====
-- Playout keeps the pace of the samples: no time is lost (cpp/src/playout-impl.cpp,
-- cpp/src/jitter-timing.cpp).
use ndnrtc.Base.{
  ℕ, ◌+◌, ◌*◌, ◌≤◌, ◌<◌, ◌≡◌, ◌⊎◌, Option, some, arith, ◌>>=◌, pos, ◌+ℤ◌, ◌≤ℤ◌, Option-cases, inl,
  inr,
}
use ndnrtc.Playout.{
  Timing, reset_data, start_frame_playout, update_playout_time, Playout, adjust_delay,
}

-- One iteration: it begins at `now`, and then waits for a sample's time, in milliseconds.
abbrev pub iterate : ℕ → ℕ → Timing → Option Timing
iterate now ms t = start_frame_playout now t >>= λ u. some (update_playout_time ms u)

-- Iterations after a flush, of which the first began at `first`; `total` sums up the times of the
-- samples.
pub data Run (first : ℕ) : ℕ → Timing → Type 0 where
  begun : (ms : ℕ) {t : Timing} → 0 < first → iterate first ms reset_data ≡ some t → Run first ms t
  again :
      (now ms total : ℕ) (t : Timing) {u : Timing}
      → Run first total t
      → iterate now ms t ≡ some u
      → Run first (total + ms) u

-- The next sample is due when the samples before it have lasted their times, but for the time of
-- processing that could not be taken from the waits yet.
abbrev pub IsOnPace : ℕ → ℕ → Timing → Type 0
IsOnPace first total t =
    (t.playout_timestamp_usec + 1000 * t.frame_playout_time_ms
      ≡ first + 1000 * total + t.processing_time_usec)
    × (0 < t.playout_timestamp_usec)
    × ((t.processing_time_usec < 1000) ⊎ (t.frame_playout_time_ms ≡ 0))

update_playout_time_lem :
    (ms : ℕ) (t : Timing)
    → let u = update_playout_time ms t in
      (1000 * u.frame_playout_time_ms + t.processing_time_usec ≡ 1000 * ms + u.processing_time_usec)
      × (u.playout_timestamp_usec ≡ t.playout_timestamp_usec)
      × ((u.processing_time_usec < 1000) ⊎ (u.frame_playout_time_ms ≡ 0))
unfolding update_playout_time
update_playout_time_lem ms t = ground arith

start_frame_playout_begun :
    (now : ℕ) (u : Timing)
    → start_frame_playout now reset_data ≡ some u
    → u ≡ record reset_data { playout_timestamp_usec = now }
unfolding start_frame_playout
start_frame_playout_begun now u h = cc h

start_frame_playout_again :
    (now : ℕ) (t u : Timing)
    → start_frame_playout now t ≡ some u
    → 0 < t.playout_timestamp_usec
    → (now + t.processing_time_usec
        ≡ t.playout_timestamp_usec + 1000 * t.frame_playout_time_ms + u.processing_time_usec)
      × (u.playout_timestamp_usec ≡ now)
      × (t.playout_timestamp_usec ≤ now)
unfolding start_frame_playout
start_frame_playout_again now t u h p = ground arith

iterate-IsOnPace :
    (first total now ms : ℕ) (t u : Timing)
    → IsOnPace first total t
    → iterate now ms t ≡ some u
    → IsOnPace first (total + ms) u
iterate-IsOnPace first total now ms t u (pace, p, rest) h =
    elim (Option-cases (start_frame_playout now t)) [
      | inl e ↦ absurd (cc (e, h))
      | inr (v, e) ↦
          let w : update_playout_time ms v ≡ u = cc (e, h) in
          ground (arith, w, start_frame_playout_again now t v e p, update_playout_time_lem ms v)
    ]

-- After any iterations since a flush, each begun when its timer fired or later, the time at which the
-- next sample is due is the start plus the times of the samples, plus what is left of the time of
-- processing; that is below a millisecond, unless the next sample is due at once. So playout does not
-- drift from the times that the producer gave.
pub Run-IsOnPace : (first total : ℕ) (t : Timing) → Run first total t → IsOnPace first total t
Run-IsOnPace first total t (begun ms p h) =
    let started : Timing = record reset_data { playout_timestamp_usec = first } in
    elim (Option-cases (start_frame_playout first reset_data)) [
      | inl e ↦ absurd (cc (e, h))
      | inr (v, e) ↦
          let begins : v ≡ started = start_frame_playout_begun first v e in
          let w : update_playout_time ms v ≡ t = cc (e, h) in
          ground (arith, w, begins, p, update_playout_time_lem ms v)
    ]
Run-IsOnPace first total t (again now ms before v r h) =
    iterate-IsOnPace first before now ms v t (Run-IsOnPace first before v r) h

-- The delay that is waited and the adjustment that is left make up the delay of the sample and the
-- adjustment there was, and the wait is never negative, however large a fast-forward is pending.
pub adjust_delay_keeps :
    (delay : ℕ) (p : Playout)
    → ((adjust_delay delay p).0 +ℤ (adjust_delay delay p).1.delay_adjustment
        ≡ pos delay +ℤ p.delay_adjustment)
      × (pos 0 ≤ℤ (adjust_delay delay p).0)
unfolding adjust_delay ◌+ℤ◌
adjust_delay_keeps delay p = ground arith
