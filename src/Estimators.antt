-- ===== src/Estimators.antt =====
-- The estimators of averages and frequencies, and their windows (cpp/src/estimators.cpp).
pub mod Sums
pub mod Steps
pub mod Sliding
use ndnrtc.Base.{
  ℕ, zero, suc, ◌+◌, ◌-◌, ◌^◌, Bool, true, false, List, [], ◌∷◌, ◌++◌, length, drop, ltb, leb, ◌==◌,
  if◌then◌else◌, u32, ℤ, pos,
}

-- The arithmetic of `double`, and the conversion of an integer to it.
pub record Doubles (D : Type 0) : Type 0 where
  pub add : D → D → D
  pub sub : D → D → D
  pub mul : D → D → D
  pub quot : D → D → D
  pub of_int : ℤ → D
  pub is_zero : D → Bool
  pub is_positive : D → Bool
  pub is_same : D → D → Bool

-- SampleWindow and TimeWindow, the two implementations of IEstimatorWindow.
pub data Window : Type 0 where
  sample_window : (n_samples remaining : ℕ) → Window
  time_window : (milliseconds last_reach : ℕ) → Window

-- `remaining_--` on an `unsigned int`
abbrev pub decremented : ℕ → ℕ
decremented zero = 2 ^ 32 - 1
decremented (suc r) = r

-- The constructors SampleWindow and TimeWindow.
abbrev pub samples_of : ℕ → Window
samples_of n = sample_window n n

abbrev pub time_of : ℕ → Window
time_of ms = time_window ms 0

-- SampleWindow::isLimitReached and TimeWindow::isLimitReached: the window afterwards, and the answer.
unfoldable pub is_limit_reached : ℕ → Window → Window × Bool
is_limit_reached now (sample_window n r) =
    let left = if decremented r == 0 then n else decremented r in (sample_window n left, left == n)
is_limit_reached now (time_window ms last) =
    let reach = if last == 0 then now else last in
    if ltb (reach + ms) now
    then (time_window ms (reach + ms), true)
    else (time_window ms reach, false)

-- SampleWindow::cut
abbrev pub cut_to : ℕ → List ℕ → List ℕ
cut_to n [] = []
cut_to n (x ∷ xs) = let rest = cut_to n xs in if leb n (suc (length xs)) then rest else x ∷ xs

-- TimeWindow::cut. Only FreqMeter cuts, and it does it when it has stored the time, so that the loop,
-- which does not test for an empty deque, ends before one.
abbrev pub cut_before : ℕ → ℕ → List ℕ → List ℕ
cut_before now ms [] = []
cut_before now ms (x ∷ xs) =
    let rest = cut_before now ms xs in if ltb (x + ms) now then rest else x ∷ xs

unfoldable pub cut : ℕ → Window → List ℕ → List ℕ
cut now (sample_window n r) xs = cut_to n xs
cut now (time_window ms last) xs = cut_before now ms xs

-- Average, with the fields of Estimator.
pub record Average (D : Type 0) : Type 0 where
  pub n_values : ℕ
  pub value : D
  pub window : Window
  pub limit_reached : Bool
  pub samples : List D
  pub accumulated_sum : D
  pub variance : D

-- FreqMeter, whose samples are times: integers, that a `double` holds.
pub record FreqMeter (D : Type 0) : Type 0 where
  pub n_values : ℕ
  pub value : D
  pub window : Window
  pub samples : List ℕ
  pub run : Bool

-- Filter
pub record Filter (D : Type 0) : Type 0 where
  pub smoothing : D
  pub value : D

module _ {D : Type 0} (F : Doubles D) where
  -- Average::Average
  abbrev pub average : Window → Average D
  average w = record {
    n_values = 0;
    value = F.of_int (pos 0);
    window = w;
    limit_reached = false;
    samples = [];
    accumulated_sum = F.of_int (pos 0);
    variance = F.of_int (pos 0);
  }

  -- `samples_.size()` as a `double`
  abbrev pub size_of : List D → D
  size_of xs = F.of_int (pos (length xs))

  -- The loop over the samples, and the division after it.
  abbrev pub squares : D → D → List D → D
  squares mean acc [] = acc
  squares mean acc (x ∷ xs) = squares mean (F.add acc (F.mul (F.sub x mean) (F.sub x mean))) xs

  abbrev pub variance_of : D → List D → D
  variance_of mean xs = F.quot (squares mean (F.of_int (pos 0)) xs) (size_of xs)

  -- The branch of a full window. `samples` has the new value at its end, so it has a front.
  abbrev pub slid_sum : D → List D → D → D
  slid_sum acc [] x = acc
  slid_sum acc (front ∷ xs) x = F.add acc (F.sub x front)

  -- Average::newValue
  unfoldable pub new_value : ℕ → D → Average D → Average D
  new_value now x a =
      let (window, limit) = is_limit_reached now a.window in
      let samples = a.samples ++ x ∷ [] in
      let total =
        if a.limit_reached
        then slid_sum a.accumulated_sum samples x
        else F.add a.accumulated_sum x in
      let kept = if a.limit_reached then drop 1 samples else samples in
      let mean = F.quot total (size_of kept) in
      record {
        n_values = u32 (a.n_values + 1);
        value = mean;
        window = window;
        limit_reached = if a.limit_reached then true else limit;
        samples = kept;
        accumulated_sum = total;
        variance = if limit then variance_of mean kept else a.variance;
      }

  -- Average::oldestValue and Average::latestValue
  abbrev pub oldest_value : Average D → D
  oldest_value a = elim a.samples [ [] ↦ F.of_int (pos 0) | x ∷ xs ↦ x ]

  abbrev pub last_or : D → List D → D
  last_or x [] = x
  last_or x (y ∷ ys) = last_or y ys

  abbrev pub latest_value : Average D → D
  latest_value a = last_or (F.of_int (pos 0)) a.samples

  -- FreqMeter::FreqMeter
  abbrev pub freq_meter : Window → FreqMeter D
  freq_meter w = record {
    n_values = 0;
    value = F.of_int (pos 0);
    window = w;
    samples = [];
    run = false;
  }

  -- `1000.*(double)samples_.size()/(samples_.back()-samples_.front())`
  abbrev pub frequency : D → List ℕ → D
  frequency old [] = old
  frequency old (x ∷ []) = old
  frequency old (x ∷ y ∷ ys) =
      F.quot (F.mul (F.of_int (pos 1000)) (F.of_int (pos (length (x ∷ y ∷ ys)))))
        (F.sub (F.of_int (pos (last_time y ys))) (F.of_int (pos x)))
    where
      last_time : ℕ → List ℕ → ℕ
      last_time t [] = t
      last_time t (u ∷ us) = last_time u us

  -- FreqMeter::newValue, which ignores the value.
  unfoldable pub tick : ℕ → FreqMeter D → FreqMeter D
  tick now m =
      let (window, limit) = is_limit_reached now m.window in
      let run = if limit then true else m.run in
      let samples = m.samples ++ now ∷ [] in
      let kept = if run then cut now window samples else samples in
      record {
        n_values = u32 (m.n_values + 1);
        value = frequency m.value kept;
        window = window;
        samples = kept;
        run = run;
      }

  -- Filter::Filter and Filter::newValue
  abbrev pub filter : D → Filter D
  filter smoothing = record { smoothing = smoothing; value = F.of_int (pos 0) }

  unfoldable pub smooth : D → Filter D → Filter D
  smooth x f = record f {
    value = if F.is_zero f.value then x else F.add f.value (F.mul (F.sub x f.value) f.smoothing);
  }
