-- ===== src/InterestControl/Limits.antt =====
-- The default strategy and the limits of the window (cpp/src/interest-control.cpp).
use ndnrtc.Base.{ℕ, ◌+◌, ◌-◌, ◌*◌, ◌/◌, ◌≤◌, ◌<◌, min, ◌≡◌, true, arith, int_mod, ltb}
use ndnrtc.InterestControl.Defs.{
  Double, InterestControl, min_pipeline_size, max_pipeline_size_ms, calculate_demand,
  limits_of_demand, get_limits_default, burst_default, withhold_default, strategy_default, burst,
  withhold,
}

limits_of_demand_bounds :
    (D : Double) (demand max_demand : ℕ)
    → demand < 268435456
    → max_demand < int_mod
    → let (lower, upper) = limits_of_demand D demand max_demand in
      (lower ≤ upper)
      × (upper ≤ max_demand)
      × (min min_pipeline_size max_demand ≤ lower)
      × (upper ≤ 8 * lower)
unfolding limits_of_demand
limits_of_demand_bounds D demand max_demand p q = ground arith

-- The default strategy answers with a window: the lower limit is at most the upper one, the upper
-- one is at most the demand at `max_pipeline_size_ms` of delay and at most 8 times the lower one,
-- and the lower one is at least `min_pipeline_size` unless the demand at that delay is smaller.
-- The two demands must be small enough that `* 8` does not overflow an `int`.
pub get_limits_default_window :
    (D : Double) (rate drd_value drd_deviation : D.F)
    → calculate_demand D rate drd_value drd_deviation < 268435456
    → calculate_demand D rate (D.of_nat max_pipeline_size_ms) (D.of_nat 0) < int_mod
    → let max_demand = calculate_demand D rate (D.of_nat max_pipeline_size_ms) (D.of_nat 0) in
      let (lower, upper) = get_limits_default D rate drd_value drd_deviation in
      (lower ≤ upper)
      × (upper ≤ max_demand)
      × (min min_pipeline_size max_demand ≤ lower)
      × (upper ≤ 8 * lower)
unfolding get_limits_default
get_limits_default_window D rate drd_value drd_deviation p q = limits_of_demand_bounds D _ _ p q

-- The window that the class means to keep.
pub record IsWindow {F : Type 0} (s : InterestControl F) : Type 0 where
  pub lower_le_limit : s.lower_limit ≤ s.limit
  pub limit_le_upper : s.limit ≤ s.upper_limit
  pub upper_small : s.upper_limit < int_mod

module _ (D : Double) where
  open D use {F}

  -- In a window `withhold` of the default strategy halves the distance to the lower limit, and
  -- answers whether the limit was above the lower one. The limits stay a window.
  pub withhold_halves :
      (s : InterestControl F)
      → IsWindow s
      → s.initialized ≡ true
      → let (t, changed) = withhold (strategy_default D) s in
        (t.limit ≡ s.lower_limit + (s.limit - s.lower_limit) / 2)
        × (changed ≡ ltb s.lower_limit s.limit)
        × (t.lower_limit ≡ s.lower_limit)
        × (t.upper_limit ≡ s.upper_limit)
        × (t.initialized ≡ true)
        × (t.pipeline ≡ s.pipeline)
  unfolding withhold withhold_default
  withhold_halves s w i = ground arith

  -- In a window `burst` of the default strategy adds half of the limit, rounded up, and stops at
  -- the upper limit. Nothing else changes.
  pub burst_grows :
      (s : InterestControl F)
      → IsWindow s
      → s.initialized ≡ true
      → let (t, changed) = burst (strategy_default D) s in
        (t.limit ≡ min s.upper_limit (s.limit + (s.limit + 1) / 2))
        × (changed ≡ true)
        × (t.lower_limit ≡ s.lower_limit)
        × (t.upper_limit ≡ s.upper_limit)
        × (t.pipeline ≡ s.pipeline)
  unfolding burst burst_default
  burst_grows s w i = ground arith

  -- A lower limit above the upper one, which `markLowerLimit` allows, turns `burst` round: the
  -- limit falls below the lower limit, to the upper one.
  pub burst_shrinks :
      (s : InterestControl F)
      → s.initialized ≡ true
      → s.upper_limit < s.lower_limit
      → s.lower_limit ≤ s.limit
      → s.limit < int_mod
      → let (t, changed) = burst (strategy_default D) s in
        (t.limit ≡ s.upper_limit) × (t.limit < s.limit) × (changed ≡ true)
  unfolding burst burst_default
  burst_shrinks s i inverted above small = ground arith
