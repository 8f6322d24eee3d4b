-- ===== src/Estimators/Sums.antt =====
-- Sums of samples, and what exact arithmetic on doubles is (cpp/src/estimators.cpp).
use ndnrtc.Base.{
  ℕ, ◌+◌, ◌-◌, ◌*◌, ◌≤◌, ◌≡◌, refl, sym, ap, List, [], ◌∷◌, ◌++◌, map, length, length-append, drop,
  drop-length, All, ℤ, pos, ◌+ℤ◌, ◌-ℤ◌, abs, arith,
}
use ndnrtc.Estimators.{Doubles, Average, new_value}

-- A value that arrives, and the time when it does.
abbrev pub Arrival : Type 0
Arrival = ℕ × ℤ

abbrev pub amount : Arrival → ℤ
amount (t, x) = x

-- The last `n` of some arrivals.
abbrev pub latest : ℕ → List Arrival → List Arrival
latest n h = drop (length h - n) h

abbrev pub total : List Arrival → ℤ
total [] = pos 0
total (v ∷ vs) = amount v +ℤ total vs

-- The sum of the magnitudes.
abbrev pub mass : List Arrival → ℕ
mass [] = 0
mass (v ∷ vs) = abs (amount v) + mass vs

module _ {D : Type 0} (F : Doubles D) where
  abbrev pub number : Arrival → D
  number v = F.of_int (amount v)

  -- The values are given to the estimator in order.
  abbrev pub feed : Average D → List Arrival → Average D
  feed a [] = a
  feed a ((t, x) ∷ vs) = feed (new_value F t (F.of_int x) a) vs

  -- The mean of some values, as the specification computes it.
  abbrev pub mean : List Arrival → D
  mean vs = F.quot (F.of_int (total vs)) (F.of_int (pos (length vs)))

  -- Additions and subtractions of integers up to `m` are exact (2 ^ 53 for IEEE doubles).
  pub record IsExact (m : ℕ) : Type 0 where
    pub add_int :
        (x y : ℤ)
        → abs x ≤ m
        → abs y ≤ m
        → abs (x +ℤ y) ≤ m
        → F.add (F.of_int x) (F.of_int y) ≡ F.of_int (x +ℤ y)
    pub sub_int :
        (x y : ℤ)
        → abs x ≤ m
        → abs y ≤ m
        → abs (x -ℤ y) ≤ m
        → F.sub (F.of_int x) (F.of_int y) ≡ F.of_int (x -ℤ y)

pub abs_+ℤ : (x y : ℤ) → abs (x +ℤ y) ≤ abs x + abs y
unfolding ◌+ℤ◌
abs_+ℤ x y = ground arith

pub abs_-ℤ : (x y : ℤ) → abs (x -ℤ y) ≤ abs x + abs y
unfolding ◌-ℤ◌
abs_-ℤ x y = ground arith

pub total-mass : (vs : List Arrival) → abs (total vs) ≤ mass vs
total-mass [] = omega arith
total-mass (v ∷ vs) = omega (arith, abs_+ℤ (amount v) (total vs), total-mass vs)

pub +ℤ_assoc : (x y z : ℤ) → (x +ℤ y) +ℤ z ≡ x +ℤ (y +ℤ z)
unfolding ◌+ℤ◌
+ℤ_assoc x y z = ground arith

pub +ℤ_comm : (x y : ℤ) → x +ℤ y ≡ y +ℤ x
unfolding ◌+ℤ◌
+ℤ_comm x y = ground arith

pub total-snoc : (vs : List Arrival) (v : Arrival) → total (vs ++ v ∷ []) ≡ total vs +ℤ amount v
total-snoc [] v = +ℤ_comm (amount v) (pos 0)
total-snoc (u ∷ vs) v = rw (total-snoc vs v) (sym (+ℤ_assoc (amount u) (total vs) (amount v)))

-- The sum slides: the oldest value leaves it.
pub slide : (f s x : ℤ) → (f +ℤ s) +ℤ (x -ℤ f) ≡ s +ℤ x
unfolding ◌+ℤ◌ ◌-ℤ◌
slide f s x = ground arith

abbrev pub IsWithin : ℕ → Arrival → Type 0
IsWithin b v = abs (amount v) ≤ b

pub mass-bound : (b : ℕ) (vs : List Arrival) → All (IsWithin b) vs → mass vs ≤ length vs * b
mass-bound b [] h = omega arith
mass-bound b (v ∷ vs) (hv, h) = omega (arith, hv, mass-bound b vs h)

pub mass-window :
    (b n k : ℕ) (vs : List Arrival) → All (IsWithin b) vs → length vs + k ≡ n → mass vs ≤ n * b
mass-window b n k vs h e = rw (sym e) (omega (arith, mass-bound b vs h))

pub All-snoc :
    (b : ℕ) (vs : List Arrival) (v : Arrival)
    → All (IsWithin b) vs
    → IsWithin b v
    → All (IsWithin b) (vs ++ v ∷ [])
All-snoc b [] v h p = (p, tt)
All-snoc b (u ∷ vs) v (q, h) p = (q, All-snoc b vs v h p)

pub map-snoc :
    {A B : Type 0} (f : A → B) (xs : List A) (x : A) → map f (xs ++ x ∷ []) ≡ map f xs ++ f x ∷ []
map-snoc f [] x = refl
map-snoc f (y ∷ xs) x = ap (◌∷◌ (f y)) (map-snoc f xs x)

pub latest-append :
    (n : ℕ) (older kept : List Arrival) → length kept ≡ n → latest n (older ++ kept) ≡ kept
latest-append n older kept e =
    let before : length (older ++ kept) - n ≡ length older =
      omega (arith, length-append older kept, e) in
    rw before (drop-length older kept)

pub latest_short : (n : ℕ) (h : List Arrival) → length h ≤ n → latest n h ≡ h
latest_short n h le = let none_before : length h - n ≡ 0 = omega (arith, le) in rw none_before refl

pub append_snoc :
    {A : Type 0} (xs ys : List A) (y z : A)
    → (xs ++ y ∷ ys) ++ z ∷ [] ≡ (xs ++ y ∷ []) ++ (ys ++ z ∷ [])
append_snoc [] ys y z = refl
append_snoc (x ∷ xs) ys y z = ap (◌∷◌ x) (append_snoc xs ys y z)
