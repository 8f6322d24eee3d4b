-- ===== src/FrameBuffer/Names.antt =====
-- Names, Interests and segments as the frame buffer sees them (cpp/include/name-components.hpp,
-- cpp/src/network-data.hpp).
pub use ndnrtc.Media.{
  SampleClass, unknown_sample, key, delta, SegmentClass, unknown_segment, data_segment, parity,
  manifest, meta,
}
use ndnrtc.Base.{
  ℕ, ◌≡◌, ◌↔◌, ◌⊎◌, Bool, true, false, Option, none, some, List, [], ◌∷◌, ltb, ◌==◌, if◌then◌else◌,
  arith, refl,
}

-- The names of samples: ndn::Name with its equality and its canonical order, by which a
-- std::map of the code is sorted.
pub record Order (K : Type 0) : Type 0 where
  pub eqb : K → K → Bool
  pub lt : K → K → Bool
  pub eqb_iff : (a b : K) → (eqb a b ≡ true) ↔ (a ≡ b)
  pub lt_irrefl : (a : K) → lt a a ≡ false
  pub lt_trans : (a b c : K) → lt a b ≡ true → lt b c ≡ true → lt a c ≡ true
  pub lt_total : (a b : K) → (lt a b ≡ true) ⊎ (a ≡ b) ⊎ (lt b a ≡ true)

-- The suffix of a name from the segment on: a segment number, behind `_parity` for parity.
pub data SegmentKey : Type 0 where
  data_key parity_key : ℕ → SegmentKey

abbrev pub same_key : SegmentKey → SegmentKey → Bool
same_key (data_key m) (data_key n) = m == n
same_key (parity_key m) (parity_key n) = m == n
same_key _ _ = false

-- The order of the keys in a std::map: data comes before parity.
abbrev pub key_lt : SegmentKey → SegmentKey → Bool
key_lt (data_key m) (data_key n) = ltb m n
key_lt (parity_key m) (parity_key n) = ltb m n
key_lt (data_key m) (parity_key n) = true
key_lt (parity_key m) (data_key n) = false

pub same_key_iff : (a b : SegmentKey) → (same_key a b ≡ true) ↔ (a ≡ b)
same_key_iff a b = (grind arith, grind arith)

-- NamespaceInfo, with `getPrefix(prefix_filter::Sample)` in `prefix`.
pub record Info (K : Type 0) : Type 0 where
  pub prefix : K
  pub is_video : Bool
  pub sample_class : SampleClass
  pub segment_class : SegmentClass
  pub is_delta : Bool
  pub is_parity : Bool
  pub has_seq_no : Bool
  pub has_seg_no : Bool
  pub sample_no : ℕ
  pub seg_no : ℕ

-- `getSuffix(suffix_filter::Segment)`; without a segment number the name is empty.
unfoldable pub segment_key : {K : Type 0} → Info K → Option SegmentKey
segment_key i =
    if i.has_seg_no
    then some (if i.is_parity then parity_key i.seg_no else data_key i.seg_no)
    else none

-- An Interest, told apart from others by `tag`; `info` is what its name gives, if the name is good.
pub record Interest (K : Type 0) : Type 0 where
  pub tag : ℕ
  pub info : Option (Info K)

-- CommonHeader
pub record CommonHeader : Type 0 where
  pub sample_rate : ℕ
  pub publish_timestamp_ms : ℕ

-- WireSegment. `header` is the packet header that segment 0 holds.
pub record WireSegment (K : Type 0) : Type 0 where
  pub info : Info K
  pub slices_num : ℕ
  pub content_size : ℕ
  pub is_original : Bool
  pub generation_delay_ms : ℕ
  pub header : CommonHeader

-- `getSegmentWeight()`, in halves: `fec::parityWeight()` is 0.5.
unfoldable pub segment_weight : {K : Type 0} → WireSegment K → ℕ
segment_weight w = if w.info.is_parity then 1 else 2

-- A std::map from segment keys, sorted.
module _ {ℓ} {V : Type ℓ} where
  unfoldable pub lookup : SegmentKey → List (SegmentKey × V) → Option V
  lookup k [] = none
  lookup k ((j, v) ∷ m) = if same_key j k then some v else lookup k m

  unfoldable pub insert : SegmentKey → V → List (SegmentKey × V) → List (SegmentKey × V)
  insert k v [] = (k, v) ∷ []
  insert k v ((j, w) ∷ m) =
      if same_key j k
      then (k, v) ∷ m
      else if key_lt k j
      then (k, v) ∷ (j, w) ∷ m
      else (j, w) ∷ insert k v m

  pub lookup-insert :
      (k j : SegmentKey) (v : V) (m : List (SegmentKey × V))
      → lookup j (insert k v m) ≡ (if same_key k j then some v else lookup j m)
  unfolding lookup insert
  lookup-insert k j v [] = refl
  lookup-insert k j v ((i, w) ∷ m) =
      grind (arith, same_key_iff k j, same_key_iff i k, same_key_iff i j, lookup-insert k j v m)
