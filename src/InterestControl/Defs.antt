-- ===== src/InterestControl/Defs.antt =====
-- The operations of InterestControl and of its default strategy (cpp/src/interest-control.cpp).
use ndnrtc.Base.{
  ℕ, ◌+◌, ◌-◌, ◌*◌, ◌/◌, Bool, true, false, not, ◌||◌, Option, none, some, ltb, ◌==◌, if◌then◌else◌,
  u32, int_lt, int_le, int_max, int_neg, sub32,
}

-- The arithmetic of doubles, which the model does not define. `ceil_int` is `(int)ceil(x)`, as a
-- word.
pub record Double : Type 1 where
  pub F : Type 0
  pub of_nat : ℕ → F
  pub half : F
  pub add : F → F → F
  pub mul : F → F → F
  pub div : F → F → F
  pub lt : F → F → Bool
  pub ceil_int : F → ℕ

-- InterestControl::MinPipelineSize
abbrev pub min_pipeline_size : ℕ
min_pipeline_size = 3

-- MAX_PIPELINE_SIZE_MS
abbrev pub max_pipeline_size_ms : ℕ
max_pipeline_size_ms = 1000

-- IInterestControlStrategy: `get_limits rate value deviation` reads the original DRD average; the
-- results of `burst` and `withhold` are `int`s.
pub record Strategy (F : Type 0) : Type 0 where
  pub get_limits : F → F → F → ℕ × ℕ
  pub burst_by : ℕ → ℕ → ℕ → ℕ
  pub withhold_by : ℕ → ℕ → ℕ → ℕ

module _ (D : Double) where
  open D use {F, of_nat, half, add, mul, div, lt, ceil_int}

  unfoldable pub calculate_demand : F → F → F → ℕ
  calculate_demand rate drd_avg_value drd_deviation =
      if lt (of_nat 0) drd_avg_value
      then ceil_int (add (div d target_sample_period) half)
      else min_pipeline_size
    where
      d : F
      d = add drd_avg_value (mul (of_nat 1) drd_deviation)

      target_sample_period : F
      target_sample_period = if lt (of_nat 0) rate then div (of_nat 1000) rate else of_nat 30

  -- The comparison with `MinPipelineSize` is one of unsigned numbers, the others are of `int`s.
  unfoldable pub limits_of_demand : ℕ → ℕ → ℕ × ℕ
  limits_of_demand demand max_demand_size = (limited, upper)
    where
      raised : ℕ
      raised = if ltb demand min_pipeline_size then min_pipeline_size else demand

      limited : ℕ
      limited = if int_lt max_demand_size raised then max_demand_size else raised

      upper : ℕ
      upper =
          if int_lt (u32 (limited * 8)) max_demand_size then u32 (limited * 8) else max_demand_size

  unfoldable pub get_limits_default : F → F → F → ℕ × ℕ
  unfolding limits_of_demand
  get_limits_default rate drd_value drd_deviation =
      limits_of_demand (calculate_demand rate drd_value drd_deviation)
        (calculate_demand rate (of_nat max_pipeline_size_ms) (of_nat 0))

-- ceil(currentLimit / 2.)
unfoldable pub burst_default : ℕ → ℕ → ℕ → ℕ
burst_default current_limit lower_limit upper_limit = (current_limit + 1) / 2

-- -round((currentLimit - lowerLimit) / 2.), a half rounded away from 0
unfoldable pub withhold_default : ℕ → ℕ → ℕ → ℕ
withhold_default current_limit lower_limit upper_limit =
    int_neg ((sub32 current_limit lower_limit + 1) / 2)

abbrev pub strategy_default : (D : Double) → Strategy D.F
strategy_default D = record {
  get_limits = get_limits_default D;
  burst_by = burst_default;
  withhold_by = withhold_default;
}

-- The members, with the two indicators DW and W that the class writes.
pub record InterestControl (F : Type 0) : Type 0 where
  pub initialized : Bool
  pub limit_set : Bool
  pub lower_limit : ℕ
  pub limit : ℕ
  pub upper_limit : ℕ
  pub pipeline : ℕ
  pub target_rate : F
  pub stat_dw : ℕ
  pub stat_w : ℕ

module _ {F : Type 0} where
  -- The constructor leaves `limitSet_` and the indicators as they are.
  unfoldable pub create : F → Bool → ℕ → ℕ → InterestControl F
  create zero_rate limit_set dw w = record {
    initialized = false;
    limit_set = limit_set;
    lower_limit = min_pipeline_size;
    limit = min_pipeline_size;
    upper_limit = 10 * min_pipeline_size;
    pipeline = 0;
    target_rate = zero_rate;
    stat_dw = dw;
    stat_w = w;
  }

  unfoldable pub change_limit_to : InterestControl F → ℕ → InterestControl F
  change_limit_to s new_limit = record s { limit = l; stat_dw = l }
    where
      l : ℕ
      l =
          if ltb new_limit s.lower_limit
          then s.lower_limit
          else if ltb s.upper_limit new_limit
          then s.upper_limit
          else new_limit

  unfoldable pub initialize : InterestControl F → ℕ → InterestControl F
  unfolding change_limit_to
  initialize s pipeline_limit =
      change_limit_to
        (record s {
          lower_limit = min_pipeline_size;
          upper_limit = int_max s.upper_limit pipeline_limit;
        })
        pipeline_limit

  unfoldable pub reset : InterestControl F → InterestControl F
  reset s = record s {
    initialized = false;
    limit_set = false;
    pipeline = 0;
    lower_limit = min_pipeline_size;
    limit = min_pipeline_size;
    upper_limit = 30;
    stat_dw = min_pipeline_size;
    stat_w = 0;
  }

  -- `none` is the failed assertion.
  unfoldable pub decrement : InterestControl F → Option (InterestControl F)
  decrement s =
      if s.pipeline == 0
      then none
      else some (record s { pipeline = s.pipeline - 1; stat_w = s.pipeline - 1 })

  unfoldable pub increment : InterestControl F → InterestControl F × Bool
  increment s =
      if int_le s.limit s.pipeline
      then (s, false)
      else (record s { pipeline = s.pipeline + 1; stat_w = s.pipeline + 1 }, true)

  -- `limit_ - pipeline_`, as the word of an `int`.
  unfoldable pub room : InterestControl F → ℕ
  room s = sub32 s.limit s.pipeline

  module _ (strategy : Strategy F) where
    unfoldable pub burst : InterestControl F → InterestControl F × Bool
    unfolding change_limit_to
    burst s =
        if s.initialized
        then (
          change_limit_to s (u32 (s.limit + strategy.burst_by s.limit s.lower_limit s.upper_limit)),
          true,
        )
        else (s, false)

    unfoldable pub withhold : InterestControl F → InterestControl F × Bool
    unfolding change_limit_to
    withhold s =
        let d = strategy.withhold_by s.limit s.lower_limit s.upper_limit in
        if s.initialized
        then (if d == 0 then (s, false) else (change_limit_to s (u32 (s.limit + d)), true))
        else (s, false)

    -- The body of `setLimits` once the strategy has answered.
    unfoldable pub apply_limits : InterestControl F → ℕ × ℕ → InterestControl F
    unfolding change_limit_to
    apply_limits s (new_lower, new_upper) =
        if not (s.lower_limit == new_lower) || not (s.upper_limit == new_upper)
        then (if ltb t.limit t.lower_limit then change_limit_to t t.lower_limit else t)
        else s
      where
        t : InterestControl F
        t = record s {
          lower_limit =
              if not s.limit_set || ltb s.lower_limit new_lower then new_lower else s.lower_limit;
          upper_limit = new_upper;
        }

    -- The DRD average at the time of the call is the argument.
    unfoldable pub set_limits : InterestControl F → F → F → InterestControl F
    unfolding apply_limits
    set_limits s drd_value drd_deviation =
        apply_limits s (strategy.get_limits s.target_rate drd_value drd_deviation)

    unfoldable pub mark_lower_limit : InterestControl F → ℕ → F → F → InterestControl F
    unfolding set_limits
    mark_lower_limit s lower_limit drd_value drd_deviation =
        set_limits (record s { limit_set = true; lower_limit = lower_limit }) drd_value
          drd_deviation

    unfoldable pub on_original_drd_update : InterestControl F → F → F → InterestControl F
    unfolding set_limits
    on_original_drd_update s drd_value drd_deviation =
        if s.initialized then set_limits s drd_value drd_deviation else s

    unfoldable pub target_rate_update : InterestControl F → F → F → F → InterestControl F
    unfolding set_limits
    target_rate_update s rate drd_value drd_deviation =
        set_limits (record s { target_rate = rate; initialized = true }) drd_value drd_deviation
