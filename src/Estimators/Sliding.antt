-- ===== src/Estimators/Sliding.antt =====
-- The average of a window of samples against its specification, the mean of the latest values
-- (cpp/src/estimators.cpp).
use ndnrtc.Base.{
  ℕ, ◌+◌, ◌-◌, ◌*◌, ◌≤◌, ◌≡◌, refl, sym, ap, subst, ◌∙◌, ◌≢◌, inl, inr, true, false, List, [], ◌∷◌,
  ◌++◌, ++_nil, ++_assoc, map, length, length-append, All, ℤ, arith,
}
use ndnrtc.Estimators.{Doubles, samples_of, Average, average, new_value}
use ndnrtc.Estimators.Sums.{
  Arrival, latest, number, feed, mean, IsExact, IsWithin, latest-append, latest_short,
}
use ndnrtc.Estimators.Steps.{Tracks, tick_lem, fills-Tracks, slides-Tracks}

module _ {D : Type 0} (F : Doubles D) (b n : ℕ) where
  module _ (m : ℕ) (exact : IsExact F m) (room : n * b + b + b ≤ m) where
    filling-Tracks :
        (h : List Arrival) (t : ℕ) (x : ℤ) (a : Average D)
        → (k : Tracks F b n h a) → IsWithin b (t, x)
        → a.limit_reached ≡ false
        → k.older ≡ []
        → length k.kept + k.left ≡ n
        → Tracks F b n (h ++ (t, x) ∷ []) (new_value F t (F.of_int x) a)
    filling-Tracks h t x a k hv hl ho e = elim (tick_lem t n k.left k.positive k.bounded) [
      | inl (one, q) ↦
          fills-Tracks F b n m exact room h t x a k hv hl e n true q
            (omega (arith, k.positive, k.bounded)) (omega arith) (inl (refl, omega (arith, one, e)))
      | inr (more, q) ↦
          fills-Tracks F b n m exact room h t x a k hv hl e (k.left - 1) false q
            (omega (arith, more)) (omega (arith, k.bounded))
            (inr (refl, ho, omega (arith, more, e)))
    ]

    sliding-Tracks :
        (h : List Arrival) (t : ℕ) (x : ℤ) (a : Average D)
        → (k : Tracks F b n h a) → IsWithin b (t, x)
        → a.limit_reached ≡ true
        → length k.kept ≡ n
        → (kept : List Arrival) → k.kept ≡ kept
        → Tracks F b n (h ++ (t, x) ∷ []) (new_value F t (F.of_int x) a)
    sliding-Tracks h t x a k hv hl e [] ek =
        let none_left : n ≡ 0 = sym (ap length (sym ek) ∙ e) in
        let absurd : ⊥ = omega (arith, none_left, k.positive, k.bounded) in elim absurd [ ]
    sliding-Tracks h t x a k hv hl e (u ∷ rest) ek =
        elim (tick_lem t n k.left k.positive k.bounded) [
          | inl (one, q) ↦
              slides-Tracks F b n m exact room h t x a k hv hl u rest ek e n true q
                (omega (arith, k.positive, k.bounded)) (omega arith)
          | inr (more, q) ↦
              slides-Tracks F b n m exact room h t x a k hv hl u rest ek e (k.left - 1) false q
                (omega (arith, more)) (omega (arith, k.bounded))
        ]

    new_value-Tracks :
        (h : List Arrival) (t : ℕ) (x : ℤ) (a : Average D)
        → Tracks F b n h a
        → IsWithin b (t, x)
        → Tracks F b n (h ++ (t, x) ∷ []) (new_value F t (F.of_int x) a)
    new_value-Tracks h t x a k hv = elim k.phase [
      | inl (hl, e) ↦ sliding-Tracks h t x a k hv hl e k.kept refl
      | inr (hl, ho, e) ↦ filling-Tracks h t x a k hv hl ho e
    ]

    feed-Tracks :
        (h : List Arrival) (a : Average D) (vs : List Arrival)
        → Tracks F b n h a
        → All (IsWithin b) vs
        → Tracks F b n (h ++ vs) (feed F a vs)
    feed-Tracks h a [] k w = subst (λ g. Tracks F b n g a) (sym (++_nil h)) k
    feed-Tracks h a ((t, x) ∷ vs) k (hv, w) =
        let rest =
          feed-Tracks (h ++ (t, x) ∷ []) (new_value F t (F.of_int x) a) vs
            (new_value-Tracks h t x a k hv) w in
        subst (λ g. Tracks F b n g (feed F (new_value F t (F.of_int x) a) vs))
          (++_assoc h ((t, x) ∷ []) vs) rest

    -- What a window holds are the latest arrivals.
    kept-latest : (h : List Arrival) (a : Average D) (k : Tracks F b n h a) → k.kept ≡ latest n h
    kept-latest h a k = elim k.phase [
      | inl (hl, e) ↦ rw k.split (sym (latest-append n k.older k.kept e))
      | inr (hl, ho, e) ↦
          rw (k.split, ho) (sym (latest_short n k.kept (omega (arith, e, k.bounded))))
    ]

    kept_of_many :
        (v : Arrival) (vs : List Arrival) (a : Average D) (k : Tracks F b n (v ∷ vs) a)
        → k.kept ≢ []
    kept_of_many v vs a k e = elim k.phase [
      | inl (hl, long) ↦ omega (arith, ap length e, long, k.positive, k.bounded)
      | inr (hl, ho, long) ↦
          let all = ap length k.split in
          omega (arith, all, length-append k.older k.kept, ap length ho, ap length e)
    ]

    average-Tracks : 1 ≤ n → Tracks F b n [] (average F (samples_of n))
    average-Tracks positive = record {
      older = [];
      kept = [];
      left = n;
      split = refl;
      window = refl;
      positive = positive;
      bounded = omega arith;
      samples = refl;
      sum = refl;
      within = tt;
      phase = inr (refl, refl, omega arith);
      value = inl refl;
    }

    -- An average over a window of n samples refines its specification: however many values arrive, the
    -- samples that it keeps are the latest n of them, and its value is their mean. The arithmetic is exact
    -- on the integers up to `m`, and the values are so small that n + 2 of them stay below it.
    pub feed-latest :
        1 ≤ n
        → (v : Arrival) (vs : List Arrival) → All (IsWithin b) (v ∷ vs)
        → let a = feed F (average F (samples_of n)) (v ∷ vs) in
          a.samples ≡ map (number F) (latest n (v ∷ vs)) × a.value ≡ mean F (latest n (v ∷ vs))
    feed-latest positive v vs w =
        let k = feed-Tracks [] (average F (samples_of n)) (v ∷ vs) (average-Tracks positive) w in
        let a = feed F (average F (samples_of n)) (v ∷ vs) in
        let known : a.value ≡ mean F k.kept = elim k.value [
          | inl none ↦ elim (kept_of_many v vs a k none) [ ]
          | inr some ↦ some
        ] in
        let same = kept-latest (v ∷ vs) a k in
        (k.samples ∙ ap (map (number F)) same, known ∙ ap (mean F) same)
