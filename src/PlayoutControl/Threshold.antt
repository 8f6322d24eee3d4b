-- ===== src/PlayoutControl/Threshold.antt =====
-- What PlayoutControl keeps true (cpp/src/playout-control.cpp).
use ndnrtc.Base.{ℕ, ◌≤◌, ◌≡◌, refl, Bool, true, arith, if_case}
use ndnrtc.PlayoutControl.{
  Doubles, Control, minimal_playable_level, create, start_playout, stop_playout, check_playout,
  allow_playout, set_threshold, check_playback_queue_size, on_new_sample_ready,
  on_original_drd_update,
}

-- The states that calls of the methods lead to.
pub data Reach (D : Doubles) : Control → Type 0 where
  created : (minimal : ℕ) → Reach D (create minimal)
  allowed :
      {c : Control} (size now : ℕ) (allow : Bool) (ffwd : ℕ)
      → Reach D c
      → Reach D (allow_playout size now allow ffwd c)
  sample_ready :
      {c : Control} (size now : ℕ) → Reach D c → Reach D (on_new_sample_ready D size now c)
  threshold_set : {c : Control} (t : ℕ) → Reach D c → Reach D (set_threshold t c)
  drd_updated : {c : Control} (target : ℕ) → Reach D c → Reach D (on_original_drd_update D target c)

pub record IsSynced (c : Control) : Type 0 where
  pub only_allowed : c.is_running ≡ true → c.playout_allowed ≡ true
  pub with_rtx : c.is_rtx_enabled ≡ c.is_running
  pub playable : minimal_playable_level ≤ c.threshold_ms

-- checkPlayout establishes what a change of `playoutAllowed_` broke.
check_playout-IsSynced :
    (size now : ℕ) (c : Control)
    → c.is_rtx_enabled ≡ c.is_running
    → minimal_playable_level ≤ c.threshold_ms
    → IsSynced (check_playout size now c)
unfolding check_playout start_playout stop_playout
check_playout-IsSynced size now c r t = record {
  only_allowed = ground arith;
  with_rtx = ground arith;
  playable = ground arith;
}

check_playback_queue_size-IsSynced :
    (D : Doubles) (size now : ℕ) (c : Control)
    → IsSynced c
    → IsSynced (check_playback_queue_size D size now c)
unfolding check_playback_queue_size
check_playback_queue_size-IsSynced D size now c i = record {
  only_allowed = ground (arith, i.only_allowed);
  with_rtx = ground (arith, i.with_rtx);
  playable = ground (arith, i.playable);
}

set_threshold-IsSynced : (t : ℕ) (c : Control) → IsSynced c → IsSynced (set_threshold t c)
unfolding set_threshold
set_threshold-IsSynced t c i = record {
  only_allowed = i.only_allowed;
  with_rtx = i.with_rtx;
  playable = ground (arith, i.playable);
}

on_original_drd_update-IsSynced :
    (D : Doubles) (t : ℕ) (c : Control) → IsSynced c → IsSynced (on_original_drd_update D t c)
unfolding on_original_drd_update
on_original_drd_update-IsSynced D t c i = record {
  only_allowed = ground (arith, i.only_allowed);
  with_rtx = ground (arith, i.with_rtx);
  playable = ground (arith, i.playable);
}

on_new_sample_ready-IsSynced :
    (D : Doubles) (size now : ℕ) (c : Control)
    → IsSynced c
    → IsSynced (on_new_sample_ready D size now c)
on_new_sample_ready-IsSynced D size now c i =
    let checked = check_playout-IsSynced size now c i.with_rtx i.playable in
    unfold on_new_sample_ready in
    if_case IsSynced (check_playout size now c).is_running
      (check_playback_queue_size-IsSynced D size now (check_playout size now c) checked) checked

allow_playout-IsSynced :
    (size now : ℕ) (allow : Bool) (ffwd : ℕ) (c : Control)
    → IsSynced c
    → IsSynced (allow_playout size now allow ffwd c)
unfolding allow_playout
allow_playout-IsSynced size now allow ffwd c i =
    check_playout-IsSynced size now (record c { playout_allowed = allow; ffwd_ms = ffwd })
      i.with_rtx i.playable

-- After any calls of its methods, playout runs only while it is allowed, retransmissions are enabled
-- just when it runs, and the target size of the queue is not below the minimal playable level.
pub Reach-IsSynced : (D : Doubles) (c : Control) → Reach D c → IsSynced c
Reach-IsSynced D c (created minimal) =
    unfold create in
    record { only_allowed = λ e. absurd (cc e); with_rtx = refl; playable = omega arith }
Reach-IsSynced D c (allowed {c = b} size now allow ffwd r) =
    allow_playout-IsSynced size now allow ffwd b (Reach-IsSynced D b r)
Reach-IsSynced D c (sample_ready {c = b} size now r) =
    on_new_sample_ready-IsSynced D size now b (Reach-IsSynced D b r)
Reach-IsSynced D c (threshold_set {c = b} t r) = set_threshold-IsSynced t b (Reach-IsSynced D b r)
Reach-IsSynced D c (drd_updated {c = b} t r) =
    on_original_drd_update-IsSynced D t b (Reach-IsSynced D b r)
