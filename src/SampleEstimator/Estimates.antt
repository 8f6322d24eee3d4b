-- ===== src/SampleEstimator/Estimates.antt =====
-- What the estimates of a class are after segments arrived (cpp/src/sample-estimator.cpp).
use ndnrtc.Base.{
  ℕ, ◌+◌, ◌*◌, ◌≤◌, ◌≡◌, refl, ap, ◌∙◌, Bool, true, false, ◌&&◌, ◌||◌, List, [], ◌∷◌, All,
  if◌then◌else◌, pos, arith,
}
use ndnrtc.Media.{SampleClass, key, delta, SegmentClass, is_same_sample, is_same_segment}
use ndnrtc.FrameBuffer.Names.{WireSegment}
use ndnrtc.Estimators.{Doubles, average, samples_of}
use ndnrtc.Estimators.Sums.{Arrival, latest, feed, mean, IsExact, IsWithin}
use ndnrtc.Estimators.Sliding.{feed-latest}
use ndnrtc.SampleEstimator.{
  SampleEstimator, Estimators, update, reset, note_segment, segment_arrived,
  get_segment_number_estimation, get_segment_size_estimation,
}

-- A segment that arrives, with the time.
abbrev pub Delivery : Type 0 → Type 0
Delivery K = ℕ × WireSegment K

module _ {K : Type 0} where
  abbrev pub is_of : SampleClass → SegmentClass → WireSegment K → Bool
  is_of s d w = is_same_sample s w.info.sample_class && is_same_segment d w.info.segment_class

  -- What the segments of a class say of the number of segments, and their sizes.
  abbrev pub numbers : SampleClass → SegmentClass → List (Delivery K) → List Arrival
  numbers s d [] = []
  numbers s d ((t, w) ∷ ws) =
      let rest = numbers s d ws in if is_of s d w then (t, pos w.slices_num) ∷ rest else rest

  abbrev pub sizes : SampleClass → SegmentClass → List (Delivery K) → List Arrival
  sizes s d [] = []
  sizes s d ((t, w) ∷ ws) =
      let rest = sizes s d ws in if is_of s d w then (t, pos w.content_size) ∷ rest else rest

  module _ {D : Type 0} (F : Doubles D) where
    abbrev pub arrive_all : SampleEstimator D → List (Delivery K) → SampleEstimator D
    arrive_all e [] = e
    arrive_all e ((t, w) ∷ ws) = arrive_all (segment_arrived F t w e) ws

    -- The class of a segment is the one that changes.
    arrived_entry :
        (s : SampleClass) (d : SegmentClass) (t : ℕ) (w : WireSegment K) (e : SampleEstimator D)
        → is_same_sample s key || is_same_sample s delta ≡ true
        → (segment_arrived F t w e).estimators s d
          ≡ (if is_of s d w then note_segment F t w (e.estimators s d) else e.estimators s d)
    unfolding segment_arrived update
    arrived_entry s d t w e h = ground arith

    -- Whether the segment is of the class or not, the averages of the class get what they should.
    number_noted :
        (c : Bool) (t : ℕ) (w : WireSegment K) (e : Estimators D) (rest : List Arrival)
        → feed F (if c then note_segment F t w e else e).seg_num rest
          ≡ feed F e.seg_num (if c then (t, pos w.slices_num) ∷ rest else rest)
    unfolding note_segment
    number_noted true t w e rest = refl
    number_noted false t w e rest = refl

    size_noted :
        (c : Bool) (t : ℕ) (w : WireSegment K) (e : Estimators D) (rest : List Arrival)
        → feed F (if c then note_segment F t w e else e).seg_size rest
          ≡ feed F e.seg_size (if c then (t, pos w.content_size) ∷ rest else rest)
    unfolding note_segment
    size_noted true t w e rest = refl
    size_noted false t w e rest = refl

    module _ (s : SampleClass) (d : SegmentClass)
        (known : is_same_sample s key || is_same_sample s delta ≡ true) where
      arrive_all-numbers :
          (ws : List (Delivery K)) (e : SampleEstimator D)
          → ((arrive_all e ws).estimators s d).seg_num
            ≡ feed F (e.estimators s d).seg_num (numbers s d ws)
      arrive_all-numbers [] e = refl
      arrive_all-numbers ((t, w) ∷ ws) e =
          arrive_all-numbers ws (segment_arrived F t w e)
          ∙ ap (λ x. feed F x.seg_num (numbers s d ws)) (arrived_entry s d t w e known)
          ∙ number_noted (is_of s d w) t w (e.estimators s d) (numbers s d ws)

      arrive_all-sizes :
          (ws : List (Delivery K)) (e : SampleEstimator D)
          → ((arrive_all e ws).estimators s d).seg_size
            ≡ feed F (e.estimators s d).seg_size (sizes s d ws)
      arrive_all-sizes [] e = refl
      arrive_all-sizes ((t, w) ∷ ws) e =
          arrive_all-sizes ws (segment_arrived F t w e)
          ∙ ap (λ x. feed F x.seg_size (sizes s d ws)) (arrived_entry s d t w e known)
          ∙ size_noted (is_of s d w) t w (e.estimators s d) (sizes s d ws)

      module _ (b m : ℕ) (exact : IsExact F m) (room : 30 * b + b + b ≤ m) where
        -- SampleEstimator refines, for key and delta samples, its specification: after a reset and any
        -- segments, those of other classes among them, the estimates of a class are the means of the latest 30 numbers of segments and
        -- sizes that its segments had. The arithmetic is exact on the integers up to `m`, and 32 of the values
        -- stay below it.
        pub estimates-latest :
            (ws : List (Delivery K)) (v u : Arrival) (vs us : List Arrival)
            → numbers s d ws ≡ v ∷ vs
            → sizes s d ws ≡ u ∷ us
            → All (IsWithin b) (v ∷ vs)
            → All (IsWithin b) (u ∷ us)
            → let e = arrive_all (reset F) ws in
              get_segment_number_estimation s d e ≡ mean F (latest 30 (v ∷ vs))
              × get_segment_size_estimation s d e ≡ mean F (latest 30 (u ∷ us))
        estimates-latest ws v u vs us hn hs wn ws' =
            let (n_kept, n_mean) = feed-latest F b 30 m exact room (omega arith) v vs wn in
            let (s_kept, s_mean) = feed-latest F b 30 m exact room (omega arith) u us ws' in
            let of_list : List Arrival → D = λ xs. (feed F (average F (samples_of 30)) xs).value in
            (
              ap (λ x. x.value) (arrive_all-numbers ws (reset F)) ∙ ap of_list hn ∙ n_mean,
              ap (λ x. x.value) (arrive_all-sizes ws (reset F)) ∙ ap of_list hs ∙ s_mean,
            )
