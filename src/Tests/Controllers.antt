-- ===== src/Tests/Controllers.antt =====
-- A segment controller (cpp/src/segment-controller.cpp) that starves.
use ndnrtc.Base.{
  ℕ, ◌+◌, ◌≤◌, ◌≡◌, refl, true, false, some, List, [], ◌∷◌, leb, if◌then◌else◌, arith,
}
use ndnrtc.SegmentController.{
  Data, create, set_is_active, setup_invocation, cancel_invocation, periodic_invocation, fire,
  on_data,
}
use ndnrtc.SegmentController.Starvation.{
  Happening, activated, fired, arrived, run, starvations, IsTimely, starvation_is_punctual,
  starvation_is_announced_once,
}

abbrev ten_bytes : Data ℕ
ten_bytes = record {
  is_app_nack = false;
  segment = some 3;
  is_valid = true;
  content_size = 10;
  wire_size = 40;
}

-- Data arrives at 300, and none for the 500 ms after.
abbrev fed : List (Happening ℕ ℕ × ℕ)
fed = (activated true, 100) ∷ (arrived ten_bytes, 300) ∷ (fired, 600) ∷ []

abbrev starved : List (Happening ℕ ℕ × ℕ)
starved =
    (fired, 800)
    ∷ (fired, 1300)
    ∷ (activated false, 1400)
    ∷ (activated true, 1500)
    ∷ (fired, 2000)
    ∷ []

fed-IsTimely : IsTimely 0 fed
fed-IsTimely = (omega arith, (omega arith, (omega arith, tt)))

due_at_800 : ((run (create 500) fed).0).due ≡ 800
unfolding create set_is_active setup_invocation on_data fire periodic_invocation
due_at_800 = refl

fed_state :
    (((run (create 500) fed).0).is_running ≡ true)
    × (((run (create 500) fed).0).starvation_fired ≡ false)
unfolding create set_is_active setup_invocation on_data fire periodic_invocation
fed_state = (refl, refl)

starvation_is_punctual_example :
    let c = (run (create 500) fed).0 in
    let limit = c.last_data_timestamp_ms + c.max_idle_time_ms in
    (c.due ≤ limit)
    × (starvations ((fire {S = ℕ} {I = ℕ} c 800).1) ≡ (if leb limit 800 then 1 else 0))
starvation_is_punctual_example =
    starvation_is_punctual 500 fed 800 fed-IsTimely fed_state.0 fed_state.1

once : starvations ((run ((run (create 500) fed).0) starved).1) ≡ 1
unfolding create set_is_active setup_invocation cancel_invocation on_data fire periodic_invocation
once = refl

starvation_is_announced_once_example :
    let c = (run (create 500) fed).0 in
    starvations ((run c starved).1) ≤ (if c.starvation_fired then 0 else 1)
starvation_is_announced_once_example =
    starvation_is_announced_once ((run (create 500) fed).0) starved
      (refl, (refl, (refl, (refl, (refl, tt)))))
