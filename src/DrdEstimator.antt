-- ===== src/DrdEstimator.antt =====
-- DrdEstimator: the averages of the delays of original data and of data from a cache
-- (cpp/src/drd-estimator.cpp).
use ndnrtc.Base.{ℕ, Bool, true, List, [], ◌∷◌, ◌++◌, ◌==◌, if◌then◌else◌, pos}
use ndnrtc.Estimators.{Doubles, Average, average, new_value, time_of}

-- The calls of the observers, latest first, each with the number of the observer.
pub data Update (D : Type 0) : Type 0 where
  cached_drd_update original_drd_update : (observer : ℕ) (value deviation : D) → Update D
  drd_update : ℕ → Update D

-- DrdEstimator. `is_latest_original` is what `latest_` points to.
pub record DrdEstimator (D : Type 0) : Type 0 where
  pub observers : List ℕ
  pub window_size : ℕ
  pub initial_estimation : ℕ
  pub cached_drd : Average D
  pub original_drd : Average D
  pub generation_delay : Average D
  pub is_latest_original : Bool
  pub updates : List (Update D)

-- DrdEstimator::attach, of an observer that is not null, and DrdEstimator::detach, which removes the
-- first entry.
abbrev pub attach : {D : Type 0} → ℕ → DrdEstimator D → DrdEstimator D
attach o e = record e { observers = e.observers ++ o ∷ [] }

abbrev pub remove : ℕ → List ℕ → List ℕ
remove o [] = []
remove o (x ∷ xs) = let rest = remove o xs in if x == o then xs else x ∷ rest

abbrev pub detach : {D : Type 0} → ℕ → DrdEstimator D → DrdEstimator D
detach o e = record e { observers = remove o e.observers }

-- DrdEstimator::setInitialEstimation, of the value that its conversion to an integer gives.
abbrev pub set_initial_estimation : {D : Type 0} → ℕ → DrdEstimator D → DrdEstimator D
set_initial_estimation n e = record e { initial_estimation = n }

-- DrdEstimator::getLatestUpdatedAverage
abbrev pub get_latest_updated_average : {D : Type 0} → DrdEstimator D → Average D
get_latest_updated_average e = if e.is_latest_original then e.original_drd else e.cached_drd

-- `sqrt` is the deviation of a variance.
module _ {D : Type 0} (F : Doubles D) (sqrt : D → D) where
  -- DrdEstimator::DrdEstimator
  abbrev pub create : ℕ → ℕ → DrdEstimator D
  create initial window = record {
    observers = [];
    window_size = window;
    initial_estimation = initial;
    cached_drd = average F (time_of window);
    original_drd = average F (time_of window);
    generation_delay = average F (time_of window);
    is_latest_original = true;
    updates = [];
  }

  -- DrdEstimator::reset
  abbrev pub reset : DrdEstimator D → DrdEstimator D
  reset e = record e {
    cached_drd = average F (time_of e.window_size);
    original_drd = average F (time_of e.window_size);
  }

  -- DrdEstimator::getCachedEstimation and DrdEstimator::getOriginalEstimation
  abbrev pub estimation : Average D → ℕ → D
  estimation a initial = if a.n_values == 0 then F.of_int (pos initial) else a.value

  abbrev pub get_cached_estimation : DrdEstimator D → D
  get_cached_estimation e = estimation e.cached_drd e.initial_estimation

  abbrev pub get_original_estimation : DrdEstimator D → D
  get_original_estimation e = estimation e.original_drd e.initial_estimation

  -- The loop over the observers.
  abbrev pub notify : Bool → D → D → List ℕ → List (Update D) → List (Update D)
  notify original x dev [] us = us
  notify original x dev (o ∷ os) us =
      let call = if original then original_drd_update o x dev else cached_drd_update o x dev in
      notify original x dev os (drd_update o ∷ call ∷ us)

  -- The average that a value is for, before and after it.
  abbrev pub average_of : Bool → DrdEstimator D → Average D
  average_of original e = if original then e.original_drd else e.cached_drd

  -- The averages that a value reaches.
  unfoldable pub measure : ℕ → D → Bool → D → DrdEstimator D → DrdEstimator D
  measure now drd original d_gen e = record e {
    generation_delay =
        if F.is_positive d_gen
        then new_value F now d_gen e.generation_delay
        else e.generation_delay;
    original_drd = if original then new_value F now drd e.original_drd else e.original_drd;
    cached_drd = if original then e.cached_drd else new_value F now drd e.cached_drd;
    is_latest_original = original;
  }

  -- DrdEstimator::newValue
  unfoldable pub measured : ℕ → D → Bool → D → DrdEstimator D → DrdEstimator D
  unfolding measure
  measured now drd original d_gen e =
      let next = measure now drd original d_gen e in
      let before = average_of original e in
      let after = average_of original next in
      if F.is_same before.value after.value then next else record next {
        updates = notify original after.value (sqrt after.variance) next.observers next.updates;
      }
