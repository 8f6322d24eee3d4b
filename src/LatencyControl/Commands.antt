-- ===== src/LatencyControl/Commands.antt =====
-- How often LatencyControl commands a change (cpp/src/latency-control.cpp).
use ndnrtc.Base.{ℕ, ◌+◌, ◌≤◌, ◌<◌, ◌≡◌, ◌≢◌, Bool, true, List, [], ◌∷◌, arith, All, subst, sym}
use ndnrtc.PipelineControl.Types.{
  PipelineAdjust, increase_pipeline, decrease_pipeline, keep_pipeline,
}
use ndnrtc.LatencyControl.{
  Averages, LatencyControl, has_change, flush_drd_change, on_drd_update, target_rate_update,
  pipeline_changed, decide, start_clock, sample_arrived,
}

module _ (R : Averages) where
  open R use {F, Average}

  -- What happens to the latency control between two resets; the observer agrees to commands or not.
  pub data Happening : Type 0 where
    sampled : (PipelineAdjust → Bool) → ℕ → Happening
    drd_updated : Average → Happening
    rate_updated : F → Happening

  abbrev pub happen : LatencyControl R → Happening → LatencyControl R
  happen l (sampled agrees now) = sample_arrived R agrees l now
  happen l (drd_updated a) = on_drd_update R l a
  happen l (rate_updated r) = target_rate_update R l r

  -- The commands that the samples bring.
  abbrev pub commands : LatencyControl R → List Happening → List PipelineAdjust
  commands l [] = []
  commands l (sampled agrees now ∷ hs) =
      let m = sample_arrived R agrees l now in m.current_command ∷ commands m hs
  commands l (drd_updated a ∷ hs) = commands (on_drd_update R l a) hs
  commands l (rate_updated r ∷ hs) = commands (target_rate_update R l r) hs

  -- A sample comes at a time from `first` to `last`.
  abbrev pub IsWithin : ℕ → ℕ → Happening → Type 0
  IsWithin first last (sampled agrees now) = (first ≤ now) × (now ≤ last)
  IsWithin first last _ = Unit

  sample-later :
      (agrees : PipelineAdjust → Bool) (l : LatencyControl R) (t now : ℕ)
      → 0 < t
      → t ≤ l.timestamp
      → t ≤ now
      → let m = sample_arrived R agrees l now in
        (t ≤ m.timestamp)
        × (m.timeout_window_ms ≡ l.timeout_window_ms)
        × (now ≤ t + l.timeout_window_ms → m.current_command ≢ increase_pipeline)
  unfolding sample_arrived decide start_clock pipeline_changed
  sample-later agrees l t now p q r = ground arith

  no_increase :
      (l : LatencyControl R) (t : ℕ) (hs : List Happening)
      → 0 < t
      → t ≤ l.timestamp
      → All (IsWithin t (t + l.timeout_window_ms)) hs
      → All (λ c. c ≢ increase_pipeline) (commands l hs)
  unfolding on_drd_update target_rate_update
  no_increase l t [] p q w = tt
  no_increase l t (sampled agrees now ∷ hs) p q w =
      let m = sample_arrived R agrees l now in
      let (later, same, quiet) = sample-later agrees l t now p q w.0.0 in
      (
        quiet w.0.1,
        no_increase m t hs p later (subst (λ n. All (IsWithin t (t + n)) hs) (sym same) w.1),
      )
  no_increase l t (drd_updated a ∷ hs) p q w = no_increase (on_drd_update R l a) t hs p q w.1
  no_increase l t (rate_updated r ∷ hs) p q w = no_increase (target_rate_update R l r) t hs p q w.1

  increase-now :
      (agrees : PipelineAdjust → Bool) (l : LatencyControl R) (now : ℕ)
      → (sample_arrived R agrees l now).current_command ≡ increase_pipeline
      → (sample_arrived R agrees l now).timestamp ≡ now
  unfolding sample_arrived decide start_clock pipeline_changed
  increase-now agrees l now e = ground (arith, e)

  -- After a sample, at a time other than 0, that brought the command to increase, whether the
  -- observer agreed or not, no sample brings that command before more than the window has
  -- passed.
  pub increases_are_spaced :
      (agrees : PipelineAdjust → Bool) (l : LatencyControl R) (now : ℕ) (hs : List Happening)
      → 0 < now
      → (sample_arrived R agrees l now).current_command ≡ increase_pipeline
      → All (IsWithin now (now + (sample_arrived R agrees l now).timeout_window_ms)) hs
      → All (λ c. c ≢ increase_pipeline) (commands (sample_arrived R agrees l now) hs)
  increases_are_spaced agrees l now hs p e w =
      let m = sample_arrived R agrees l now in
      no_increase m now hs p (omega (arith, increase-now agrees l now e)) w

  -- The control waits for a change of the DRD, and there was none since it last looked.
  record IsWaiting (l : LatencyControl R) : Type 0 where
    waits : l.wait_for_change ≡ true
    unchanged : l.drd_change.n_changes ≤ l.drd_change.last_checked_change_number
    started : 0 < l.timestamp

  sample_in_time :
      (agrees : PipelineAdjust → Bool) (l : LatencyControl R) (now : ℕ)
      → IsWaiting l
      → now ≤ l.timestamp + l.timeout_window_ms
      → let m = sample_arrived R agrees l now in
        IsWaiting m
        × (m.current_command ≡ keep_pipeline)
        × (m.timestamp + m.timeout_window_ms ≡ l.timestamp + l.timeout_window_ms)
  unfolding sample_arrived decide start_clock pipeline_changed has_change flush_drd_change
  sample_in_time agrees l now v q = ground arith

  -- A sample comes by `last`; no DRD is measured.
  abbrev pub IsUnmeasured : ℕ → Happening → Type 0
  IsUnmeasured last (sampled agrees now) = now ≤ last
  IsUnmeasured last (drd_updated a) = ⊥
  IsUnmeasured last (rate_updated r) = Unit

  commands_in_time :
      (l : LatencyControl R) (hs : List Happening)
      → IsWaiting l
      → All (IsUnmeasured (l.timestamp + l.timeout_window_ms)) hs
      → All (λ c. c ≡ keep_pipeline) (commands l hs)
  unfolding target_rate_update
  commands_in_time l [] v w = tt
  commands_in_time l (sampled agrees now ∷ hs) v w =
      let m = sample_arrived R agrees l now in
      let (still, keep, same) = sample_in_time agrees l now v w.0 in
      (keep, commands_in_time m hs still (subst (λ n. All (IsUnmeasured n) hs) (sym same) w.1))
  commands_in_time l (drd_updated a ∷ hs) v w = elim w.0 [ ]
  commands_in_time l (rate_updated r ∷ hs) v w =
      commands_in_time (target_rate_update R l r) hs
        (record { waits = v.waits; unchanged = v.unchanged; started = v.started }) w.1

  decrease-IsWaiting :
      (agrees : PipelineAdjust → Bool) (l : LatencyControl R) (now : ℕ)
      → 0 < now
      → (sample_arrived R agrees l now).current_command ≡ decrease_pipeline
      → agrees decrease_pipeline ≡ true
      → IsWaiting (sample_arrived R agrees l now)
        × ((sample_arrived R agrees l now).timestamp ≡ now)
  unfolding sample_arrived decide start_clock pipeline_changed has_change flush_drd_change
  decrease-IsWaiting agrees l now p e a = ground (arith, e, a)

  -- After a sample, at a time other than 0, that brought a command to decrease which the
  -- observer agreed to, every sample that comes within the window brings the command to keep the
  -- pipeline, as long as no DRD is measured.
  pub decrease_is_awaited :
      (agrees : PipelineAdjust → Bool) (l : LatencyControl R) (now : ℕ) (hs : List Happening)
      → 0 < now
      → (sample_arrived R agrees l now).current_command ≡ decrease_pipeline
      → agrees decrease_pipeline ≡ true
      → All (IsUnmeasured (now + (sample_arrived R agrees l now).timeout_window_ms)) hs
      → All (λ c. c ≡ keep_pipeline) (commands (sample_arrived R agrees l now) hs)
  decrease_is_awaited agrees l now hs p e a w =
      let m = sample_arrived R agrees l now in
      let (waiting, at_now) = decrease-IsWaiting agrees l now p e a in
      commands_in_time m hs waiting
        (subst (λ n. All (IsUnmeasured (n + m.timeout_window_ms)) hs) (sym at_now) w)
