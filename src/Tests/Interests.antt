-- ===== src/Tests/Interests.antt =====
-- Concrete windows of cpp/src/interest-control.cpp.
use ndnrtc.Base.{ℕ, ◌+◌, ◌*◌, ◌/◌, ◌≡◌, refl, true, false, arith, ltb}
use ndnrtc.InterestControl.Defs.{
  Double, Strategy, InterestControl, strategy_default, initialize, reset, increment, room, burst,
  withhold, burst_default, withhold_default, target_rate_update,
}
use ndnrtc.InterestControl.Limits.{IsWindow}
use ndnrtc.InterestControl.Window.{
  withholds, withholds_reach_lower, Reach, here, next, initialized_to, rate_updated, incremented,
  Inv, Reach-reset-Inv,
}

-- Doubles that hold whole numbers only.
abbrev whole : Double
whole = record {
  F = ℕ;
  of_nat = λ n. n;
  half = 0;
  add = λ a b. a + b;
  mul = λ a b. a * b;
  div = λ a b. a / b;
  lt = ltb;
  ceil_int = λ n. n + 1;
}

-- Limits 4 and 30, at 20 with 5 samples outstanding.
abbrev twenty : InterestControl ℕ
twenty = record {
  initialized = true;
  limit_set = false;
  lower_limit = 4;
  limit = 20;
  upper_limit = 30;
  pipeline = 5;
  target_rate = 25;
  stat_dw = 20;
  stat_w = 5;
}

twenty-IsWindow : IsWindow twenty
twenty-IsWindow = omega arith

withheld_limit : (withhold (strategy_default whole) twenty).0.limit ≡ 12
unfolding withhold withhold_default
withheld_limit = refl

burst_limit : (burst (strategy_default whole) twenty).0.limit ≡ 30
unfolding burst burst_default
burst_limit = refl

fifteen_left : room twenty ≡ 15
unfolding room
fifteen_left = refl

-- A lower limit that was marked above the upper one.
abbrev inverted : InterestControl ℕ
inverted = record twenty { limit_set = true; lower_limit = 18; upper_limit = 15 }

withholds_reach_lower_example :
    ((withholds whole 5 twenty).limit ≡ 4) × ((withholds whole 5 twenty).lower_limit ≡ 4)
withholds_reach_lower_example =
    withholds_reach_lower whole 5 twenty twenty-IsWindow refl (omega arith)

-- A strategy whose answer is always 6 and 24.
abbrev fixed_limits : Strategy ℕ
fixed_limits = record {
  get_limits = λ r v d. (6, 24);
  burst_by = burst_default;
  withhold_by = withhold_default;
}

history :
    Reach fixed_limits
      (reset twenty)
      (increment (target_rate_update fixed_limits (initialize (reset twenty) 10) 25 0 0)).0
unfolding reset initialize
history =
    next
      (next (next here (initialized_to (reset twenty) 10))
        (rate_updated (initialize (reset twenty) 10) 25 0 0))
      (incremented (target_rate_update fixed_limits (initialize (reset twenty) 10) 25 0 0))

Reach-reset-Inv_example :
    Inv fixed_limits
      (increment (target_rate_update fixed_limits (initialize (reset twenty) 10) 25 0 0)).0
Reach-reset-Inv_example = Reach-reset-Inv fixed_limits twenty _ history

-- The upper limit is 24 already.
abbrev low : InterestControl ℕ
low = record twenty { lower_limit = 3; limit = 5; upper_limit = 24 }
