-- ===== src/FrameBuffer/SlotState.antt =====
-- The state of SlotSegment and BufferSlot, and the exceptions of their methods
-- (cpp/src/frame-buffer.hpp).
use ndnrtc.Base.{◌≡◌, ◌⊎◌, inl, inr, refl, ℕ, Bool, Option, List}
use ndnrtc.FrameBuffer.Names.{SegmentKey, Info, Interest, WireSegment}

-- BufferSlot::State; the numbers are the bits of the source, which code compares with `>=`.
pub data State : Type 0 where
  free new assembling ready locked : State

abbrev pub state_bit : State → ℕ
state_bit free = 1
state_bit new = 2
state_bit assembling = 4
state_bit ready = 8
state_bit locked = 16

pub data Verification : Type 0 where
  unverified failed verified : Verification

-- The std::runtime_errors of the file.
pub data Error : Type 0 where
  wrong_interest_name slot_ready_or_locked rightmost_interest names_differ incorrect_name
        not_requested not_ready no_header bad_interest_name :
      Error

-- What a method that may throw leaves behind: the object, and a result or an exception.
pub data Attempt (S A : Type 0) : Type 0 where
  returns : S → A → Attempt S A
  raises : S → Error → Attempt S A

-- The object after the method, whether it returned or threw.
abbrev pub end_of : {S A : Type 0} → Attempt S A → S
end_of (returns s a) = s
end_of (raises s e) = s

module _ {S A : Type 0} where
  pub Attempt-cases :
      (a : Attempt S A)
      → ((s : S) × (r : A) × (a ≡ returns s r)) ⊎ ((s : S) × (x : Error) × (a ≡ raises s x))
  Attempt-cases (returns s r) = inl (s, r, refl)
  Attempt-cases (raises s x) = inr (s, x, refl)

-- Interest and data are shared by the maps `requested_` and `fetched_`, and `fetched_` maps a subset
-- of the keys; here `requested` holds the entries, and `fetched` the keys.
pub record SlotSegment (K : Type 0) : Type 0 where
  pub interest : Interest K
  pub received : Option (WireSegment K)
  pub request_time_usec : ℕ
  pub arrival_time_usec : ℕ
  pub request_no : ℕ

-- `assembled` and the weights are in halves; `asm_level` is the fraction of its two numbers. `id`
-- tells slot objects apart. The manifest, that only the validators touch, is left out.
pub record Slot (K : Type 0) : Type 0 where
  pub id : ℕ
  pub name : Option K
  pub name_info : Option (Info K)
  pub requested : List (SegmentKey × SlotSegment K)
  pub fetched : List SegmentKey
  pub last_fetched : Option SegmentKey
  pub segment_meta : Bool
  pub header_meta : Bool
  pub n_rtx : ℕ
  pub assembled_size : ℕ
  pub n_data_segments : ℕ
  pub n_parity_segments : ℕ
  pub has_original_segments : Bool
  pub state : State
  pub request_time_usec : ℕ
  pub first_segment_time_usec : ℕ
  pub assembled_time_usec : ℕ
  pub assembled : ℕ
  pub asm_level : ℕ × ℕ
  pub verification : Verification
