-- ===== src/InterestControl/Window.antt =====
-- The window over whole histories of calls (cpp/src/interest-control.cpp).
use ndnrtc.Base.{
  ℕ, zero, suc, ◌-◌, ◌/◌, ◌^◌, ◌≤◌, ◌<◌, ◌≡◌, ◌∙◌, ◌⊎◌, inl, inr, refl, sym, subst, Bool, int_le,
  u32, ◌+◌, true, ◌==◌, some, arith, if_case, int_max,
}
use native.Mathlib.Nat.{pow-suc}
use ndnrtc.InterestControl.Defs.{
  Double, Strategy, InterestControl, min_pipeline_size, strategy_default, change_limit_to,
  initialize, reset, decrement, increment, burst, withhold, apply_limits, set_limits,
  mark_lower_limit, on_original_drd_update, target_rate_update,
}
use ndnrtc.InterestControl.Limits.{IsWindow, withhold_halves}

module _ (D : Double) where
  open D use {F}

  pub withholds : ℕ → InterestControl F → InterestControl F
  withholds zero s = s
  withholds (suc n) s = withholds n (withhold (strategy_default D) s).0

  withhold-IsWindow :
      (s : InterestControl F)
      → IsWindow s
      → s.initialized ≡ true
      → IsWindow (withhold (strategy_default D) s).0
  withhold-IsWindow s w i = omega (arith, withhold_halves D s w i)

  half_below : (d n : ℕ) → d < 2 ^ suc n → d / 2 < 2 ^ n
  half_below d n h = omega (arith, pow-suc 2 n)

  -- Withholding finds the lower limit by binary search: from a window whose limit is less than
  -- `2 ^ n` above the lower limit, `n` calls bring the limit down to it.
  pub withholds_reach_lower :
      (n : ℕ) (s : InterestControl F)
      → IsWindow s
      → s.initialized ≡ true
      → s.limit - s.lower_limit < 2 ^ n
      → ((withholds n s).limit ≡ s.lower_limit) × ((withholds n s).lower_limit ≡ s.lower_limit)
  unfolding withholds
  withholds_reach_lower zero s w i h = omega arith
  withholds_reach_lower (suc n) s w i h =
      let (halved, _, same, _, still, _) = withhold_halves D s w i in
      let t = (withhold (strategy_default D) s).0 in
      let (reached, kept) =
        withholds_reach_lower n t (withhold-IsWindow s w i) still
          (omega (arith, half_below (s.limit - s.lower_limit) n h)) in
      (reached ∙ same, kept ∙ same)

-- The limit is not below the lower limit, or the limits are crossed and it is the upper one.
abbrev pub IsHeld : ℕ → ℕ → ℕ → Type 0
IsHeld limit lower upper = (lower ≤ limit) ⊎ ((limit ≡ upper) × (upper < lower))

module _ {F : Type 0} (strategy : Strategy F) where
  -- Any call of the class.
  pub data Step : InterestControl F → InterestControl F → Type 0 where
    initialized_to : (s : InterestControl F) (n : ℕ) → Step s (initialize s n)
    was_reset : (s : InterestControl F) → Step s (reset s)
    decremented : (s : InterestControl F) {t : InterestControl F} → decrement s ≡ some t → Step s t
    incremented : (s : InterestControl F) → Step s (increment s).0
    was_burst : (s : InterestControl F) → Step s (burst strategy s).0
    withheld : (s : InterestControl F) → Step s (withhold strategy s).0
    marked : (s : InterestControl F) (n : ℕ) (v d : F) → Step s (mark_lower_limit strategy s n v d)
    drd_updated : (s : InterestControl F) (v d : F) → Step s (on_original_drd_update strategy s v d)
    rate_updated :
        (s : InterestControl F) (r v d : F) → Step s (target_rate_update strategy s r v d)

  pub data Reach (s : InterestControl F) : InterestControl F → Type 0 where
    here : Reach s s
    next : {t u : InterestControl F} → Reach s t → Step t u → Reach s u

  -- The strategy answers with these two limits, at some rate and delay.
  pub record IsAnswer (lower upper : ℕ) : Type 0 where
    pub rate : F
    pub value : F
    pub deviation : F
    pub answer : strategy.get_limits rate value deviation ≡ (lower, upper)

  -- The indicators show the window, and its limit is held, unless a lower limit was marked and both
  -- limits are an answer of the strategy.
  pub record Inv (s : InterestControl F) : Type 0 where
    pub dw_shows : s.stat_dw ≡ s.limit
    pub w_shows : s.stat_w ≡ s.pipeline
    pub held :
        IsHeld s.limit s.lower_limit s.upper_limit
        ⊎ ((s.limit_set ≡ true) × IsAnswer s.lower_limit s.upper_limit)

  change_limit_to-IsHeld :
      (s : InterestControl F) (n : ℕ)
      → let t = change_limit_to s n in
        IsHeld t.limit t.lower_limit t.upper_limit
        × (t.stat_dw ≡ t.limit)
        × (t.stat_w ≡ s.stat_w)
        × (t.pipeline ≡ s.pipeline)
  unfolding change_limit_to
  change_limit_to-IsHeld s n = ground arith

  change_limit_to-Inv :
      (s : InterestControl F) (n : ℕ) → s.stat_w ≡ s.pipeline → Inv (change_limit_to s n)
  change_limit_to-Inv s n w =
      let (held, dw, same_w, same) = change_limit_to-IsHeld s n in
      record { dw_shows = dw; w_shows = same_w ∙ w ∙ sym same; held = inl held }

  apply_limits_cases :
      (s : InterestControl F) (lower upper : ℕ)
      → s.stat_dw ≡ s.limit
      → s.stat_w ≡ s.pipeline
      → let t = apply_limits strategy s (lower, upper) in
        ((t ≡ s) × (s.lower_limit ≡ lower) × (s.upper_limit ≡ upper))
        ⊎ (IsHeld t.limit t.lower_limit t.upper_limit
            × (t.stat_dw ≡ t.limit)
            × (t.stat_w ≡ t.pipeline))
  unfolding apply_limits change_limit_to
  apply_limits_cases s lower upper dw w = ground arith

  decrement_lem :
      (s t : InterestControl F)
      → decrement s ≡ some t
      → t ≡ record s { pipeline = s.pipeline - 1; stat_w = s.pipeline - 1 }
  unfolding decrement
  decrement_lem s t e = ground (arith, e)

  apply_limits-Inv :
      (s : InterestControl F) (a : ℕ × ℕ)
      → s.stat_dw ≡ s.limit
      → s.stat_w ≡ s.pipeline
      → ((s.lower_limit ≡ a.0)
          → (s.upper_limit ≡ a.1)
          → IsHeld s.limit s.lower_limit s.upper_limit
            ⊎ ((s.limit_set ≡ true) × IsAnswer s.lower_limit s.upper_limit))
      → Inv (apply_limits strategy s a)
  apply_limits-Inv s (lower, upper) dw w same = elim (apply_limits_cases s lower upper dw w) [
    | inl (e, l, u) ↦ subst Inv (sym e) (record { dw_shows = dw; w_shows = w; held = same l u })
    | inr (h, d, p) ↦ record { dw_shows = d; w_shows = p; held = inl h }
  ]

  Step-Inv : {s t : InterestControl F} → Step s t → Inv s → Inv t
  unfolding initialize reset decrement increment burst withhold mark_lower_limit
      on_original_drd_update target_rate_update set_limits
  Step-Inv (initialized_to s n) v =
      change_limit_to-Inv
        (record s { lower_limit = min_pipeline_size; upper_limit = int_max s.upper_limit n }) n
        v.w_shows
  Step-Inv (was_reset s) v = record {
    dw_shows = refl;
    w_shows = refl;
    held = inl (inl (omega arith));
  }
  Step-Inv (decremented s e) v =
      subst Inv (sym (decrement_lem s _ e))
        (record { dw_shows = v.dw_shows; w_shows = refl; held = v.held })
  Step-Inv (incremented s) v =
      if_case (λ (r : InterestControl F × Bool). Inv r.0) (int_le s.limit s.pipeline) v
        (record { dw_shows = v.dw_shows; w_shows = refl; held = v.held })
  Step-Inv (was_burst s) v =
      let n = u32 (s.limit + strategy.burst_by s.limit s.lower_limit s.upper_limit) in
      if_case (λ (r : InterestControl F × Bool). Inv r.0) s.initialized
        (change_limit_to-Inv s n v.w_shows) v
  Step-Inv (withheld s) v =
      let d = strategy.withhold_by s.limit s.lower_limit s.upper_limit in
      if_case (λ (r : InterestControl F × Bool). Inv r.0) s.initialized
        (if_case (λ (r : InterestControl F × Bool). Inv r.0) (d == 0) v
          (change_limit_to-Inv s (u32 (s.limit + d)) v.w_shows))
        v
  Step-Inv (marked s n vl d) v =
      let (lower, upper) = strategy.get_limits s.target_rate vl d in
      apply_limits-Inv (record s { limit_set = true; lower_limit = n })
        (strategy.get_limits s.target_rate vl d) v.dw_shows v.w_shows
        (λ l u. inr (
          refl,
          record {
            rate = s.target_rate;
            value = vl;
            deviation = d;
            answer = λ i. (sym l i, sym u i);
          },
        ))
  Step-Inv (drd_updated s vl d) v =
      if_case Inv s.initialized
        (apply_limits-Inv s (strategy.get_limits s.target_rate vl d) v.dw_shows v.w_shows
          (λ l u. v.held))
        v
  Step-Inv (rate_updated s r vl d) v =
      apply_limits-Inv (record s { target_rate = r; initialized = true })
        (strategy.get_limits r vl d) v.dw_shows v.w_shows (λ l u. v.held)

  -- Whatever is called on a reset object, in any order and with any answers of the strategy: the
  -- indicators DW and W show the limit and the pipeline; and the limit is at least the lower limit, or it is
  -- the upper one while that is below the lower one, or a lower limit was marked since the reset and both limits are
  -- together an answer of the strategy.
  pub Reach-reset-Inv : (s t : InterestControl F) → Reach (reset s) t → Inv t
  unfolding reset
  Reach-reset-Inv s t here = record {
    dw_shows = refl;
    w_shows = refl;
    held = inl (inl (omega arith));
  }
  Reach-reset-Inv s t (next r st) = Step-Inv st (Reach-reset-Inv s _ r)

  -- A lower limit that is marked just where the strategy's answer puts it, with the upper limit
  -- unchanged, is not enforced: the limit stays below it.
  pub mark_unenforced :
      (s : InterestControl F) (n : ℕ) (v d : F)
      → strategy.get_limits s.target_rate v d ≡ (n, s.upper_limit)
      → s.limit < n
      → let t = mark_lower_limit strategy s n v d in
        (t.lower_limit ≡ n) × (t.limit ≡ s.limit) × (t.limit < t.lower_limit)
  unfolding mark_lower_limit apply_limits
  mark_unenforced s n v d e h = rw e (ground arith)
