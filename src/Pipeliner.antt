-- ===== src/Pipeliner.antt =====
-- cpp/src/pipeliner.cpp, over the models of the buffer and of interest control. The names of the
-- stream's samples, the estimates of the sample estimator and the length of the playback queue are
-- parameters.
pub mod Filling
use ndnrtc.Base.{
  ℕ, zero, suc, ◌+◌, Bool, true, false, not, Option, none, some, List, [], ◌∷◌, ◌++◌, map,
  if◌then◌else◌, int_lt,
}
use ndnrtc.FrameBuffer.Names.{
  SampleClass, key, delta, unknown_sample, SegmentClass, data_segment, parity, Order, SegmentKey,
  data_key, parity_key, Interest,
}
use ndnrtc.FrameBuffer.Slot.{Attempt, returns, raises, Slot}
use ndnrtc.FrameBuffer.Slot.Queries.{get_missing_segments}
use ndnrtc.FrameBuffer.Buffer.{Buffer, Receipt, requested}
use ndnrtc.InterestControl.Defs.{InterestControl, increment, room}

-- What the pipeliner asks its collaborators for: the name scheme on one thread prefix, the
-- estimated numbers of segments as unsigned numbers, and the size of the playback queue with the
-- pending one.
pub record Outside (K : Type 0) : Type 0 where
  pub sample_name : SampleClass → ℕ → K
  pub interest : K → SegmentKey → Interest K
  pub metadata_interest : Interest K
  pub segment_number : SampleClass → SegmentClass → ℕ
  pub queue_size : Buffer K → ℕ

-- `sent` is what was given to the interest queue, each Interest with its deadline from now.
pub record Pipeliner (K F : Type 0) : Type 0 where
  pub seq_delta : ℕ
  pub seq_key : ℕ
  pub next_sample_priority : SampleClass
  pub requested_num : ℕ
  pub requested_key_num : ℕ
  pub double_rt_frames : ℕ
  pub double_rt_frames_key : ℕ
  pub sent : List (Interest K × ℕ)
  pub buffer : Buffer K
  pub interest_control : InterestControl F

abbrev pub is_delta_class : SampleClass → Bool
is_delta_class delta = true
is_delta_class _ = false

abbrev pub is_key_class : SampleClass → Bool
is_key_class key = true
is_key_class _ = false

is_delta_slot : {K : Type 0} → Slot K → Bool
is_delta_slot s = elim s.name_info [ none ↦ false | some i ↦ i.is_delta ]

module _ {K : Type 0} (O : Outside K) where
  -- The Interests from a segment number on.
  numbered : (ℕ → SegmentKey) → K → ℕ → ℕ → List (Interest K)
  numbered key_of n seg_no zero = []
  numbered key_of n seg_no (suc left) =
      O.interest n (key_of seg_no) ∷ numbered key_of n (suc seg_no) left

  unfoldable pub get_batch : K → SampleClass → Bool → List (Interest K)
  unfolding numbered
  get_batch n c no_parity =
      numbered data_key n 0 (O.segment_number c data_segment)
      ++ (if no_parity then [] else numbered parity_key n 0 (O.segment_number c parity))

  module _ ⦃o : Order K⦄ where
    missing_interests : Slot K → List (Interest K)
    missing_interests s = elim s.name [
      | none ↦ []
      | some n ↦ map (λ k. O.interest n k) (get_missing_segments s)
    ]

module _ {K F : Type 0} where
  -- All classes but Delta use the counter of key samples.
  unfoldable pub counter : Pipeliner K F → ℕ
  counter p = if is_delta_class p.next_sample_priority then p.seq_delta else p.seq_key

  unfoldable pub request : Pipeliner K F → List (Interest K) → ℕ → Pipeliner K F
  request p is deadline = record p { sent = p.sent ++ map (λ i. (i, deadline)) is }

  unfoldable pub set_need_sample : Pipeliner K F → SampleClass → Pipeliner K F
  set_need_sample p c = record p { next_sample_priority = c }

  unfoldable pub reset : Pipeliner K F → Pipeliner K F
  reset p = record p { next_sample_priority = delta }

  unfoldable pub set_sequence_number : Pipeliner K F → ℕ → SampleClass → Pipeliner K F
  set_sequence_number p n delta = record p { seq_delta = n }
  set_sequence_number p n key = record p { seq_key = n }
  set_sequence_number p n unknown_sample = p

  unfoldable pub get_sequence_number : Pipeliner K F → SampleClass → ℕ
  get_sequence_number p delta = p.seq_delta
  get_sequence_number p key = p.seq_key
  get_sequence_number p unknown_sample = 0

  -- What changes once the Interests of a sample are sent and the buffer has them.
  advance : Pipeliner K F → Pipeliner K F
  advance p =
      let d = is_delta_class p.next_sample_priority in
      record p {
        interest_control = (increment p.interest_control).0;
        seq_delta = p.seq_delta + (if d then 1 else 0);
        seq_key = p.seq_key + (if d then 0 else 1);
        requested_num = p.requested_num + 1;
        requested_key_num =
            p.requested_key_num + (if is_key_class p.next_sample_priority then 1 else 0);
        next_sample_priority = delta;
      }

  module _ (O : Outside K) where
    unfoldable pub express_bootstrap : Pipeliner K F → Pipeliner K F
    unfolding request
    express_bootstrap p = request p (O.metadata_interest ∷ []) 0

    module _ ⦃o : Order K⦄ where
      -- The buffer takes the Interests, or throws.
      place : Pipeliner K F → List (Interest K) → ℕ → Attempt (Pipeliner K F) (Unit {0})
      place p is now = elim (requested p.buffer is now) [
        | returns b _ ↦ returns (record p { buffer = b }) tt
        | raises b e ↦ raises (record p { buffer = b }) e
      ]

      unfoldable pub express_interests :
          Pipeliner K F → List (Interest K) → Bool → ℕ → Attempt (Pipeliner K F) (Unit {0})
      unfolding request place
      express_interests p is false now = returns (request p is 0) tt
      express_interests p is true now = place (request p is 0) is now

      unfoldable pub express : Pipeliner K F → Bool → ℕ → Attempt (Pipeliner K F) (Unit {0})
      unfolding express_interests counter reset
      express p place_in_buffer now =
          let c = p.next_sample_priority in
          let batch = get_batch O (O.sample_name c (counter p)) c false in
          elim (express_interests p batch place_in_buffer now) [
            | returns q _ ↦ returns (reset q) tt
            | raises q e ↦ raises q e
          ]

      -- One round of the loop of `fillUpPipeline`.
      fill_one : Pipeliner K F → ℕ → Attempt (Pipeliner K F) (Unit {0})
      unfolding request place advance counter
      fill_one p now =
          let c = p.next_sample_priority in
          let batch = get_batch O (O.sample_name c (counter p)) c false in
          elim (place (request p batch (O.queue_size p.buffer)) batch now) [
            | returns q _ ↦ returns (advance q) tt
            | raises q e ↦ raises q e
          ]

      -- `none` when the fuel ends before the loop does. The clock is read once.
      unfoldable pub fill_up_pipeline :
          ℕ → Pipeliner K F → ℕ → Option (Attempt (Pipeliner K F) (Unit {0}))
      unfolding fill_one
      fill_up_pipeline zero p now = none
      fill_up_pipeline (suc fuel) p now =
          if int_lt 0 (room p.interest_control)
          then elim (fill_one p now) [
            | returns q _ ↦ fill_up_pipeline fuel q now
            | raises q e ↦ some (raises q e)
          ]
          else some (returns p tt)

      count_double : Pipeliner K F → Bool → Pipeliner K F
      count_double p d = record p {
        double_rt_frames = p.double_rt_frames + 1;
        double_rt_frames_key = p.double_rt_frames_key + (if d then 0 else 1);
      }

      unfoldable pub on_new_data :
          Pipeliner K F → Receipt K → ℕ → Attempt (Pipeliner K F) (Unit {0})
      unfolding is_delta_slot missing_interests count_double
      on_new_data p r now = elim (missing_interests O r.slot) [
        | [] ↦ returns p tt
        | i ∷ is ↦ elim (express_interests p (i ∷ is) true now) [
          | returns q _ ↦ returns (count_double q (is_delta_slot r.slot)) tt
          | raises q e ↦ raises q e
        ]
      ]
