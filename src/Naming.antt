-- ===== src/Naming.antt =====
-- Names of streams, threads, samples and segments: NamespaceInfo, and the way from a name to its
-- parts (cpp/include/name-components.hpp, cpp/src/name-components.cpp).
pub mod Extraction
pub mod Assembly
pub mod Splits
use Prim.Native.String.{String}
use ndnrtc.Base.{ℕ, ◌≡◌, ◌≢◌, ◌↔◌, ◌<◌, ◌^◌, Bool, true, false, Option, some, List}
use ndnrtc.Media.{SampleClass, unknown_sample, SegmentClass, unknown_segment}

-- MediaStreamParams::MediaStreamType
pub data StreamType : Type 0 where
  unknown_type audio video data_type : StreamType

-- The constants of NameComponents.
abbrev pub app_component : String
app_component = "ndnrtc"

abbrev pub audio_component : String
audio_component = "audio"

abbrev pub video_component : String
video_component = "video"

abbrev pub meta_component : String
meta_component = "_meta"

abbrev pub delta_component : String
delta_component = "d"

abbrev pub key_component : String
key_component = "k"

abbrev pub parity_component : String
parity_component = "_parity"

abbrev pub manifest_component : String
manifest_component = "_manifest"

-- ndn::Name::Component as the code uses it: made of a text, or of a number with the marker of a
-- version, a timestamp, a sequence number or a segment. Reading a number without its marker throws
-- a std::runtime_error, which is `none` here.
pub record Components (C : Type 0) : Type 0 where
  pub same : C → C → Bool
  pub text : String → C
  pub escaped : C → String
  pub version : ℕ → C
  pub timestamp : ℕ → C
  pub sequence : ℕ → C
  pub segment : ℕ → C
  pub is_version : C → Bool
  pub is_timestamp : C → Bool
  pub to_version : C → Option ℕ
  pub to_timestamp : C → Option ℕ
  pub to_sequence : C → Option ℕ
  pub to_segment : C → Option ℕ

-- What ndn::Name::Component documents: a number of 64 bits is read back, and a component with the
-- marker of a number is none of the texts that the code writes.
pub record ComponentLaws (C : Type 0) (N : Components C) : Type 0 where
  pub same_iff : (a b : C) → (N.same a b ≡ true) ↔ (a ≡ b)
  pub text_injective : (s t : String) → N.text s ≡ N.text t → s ≡ t
  pub is_version-version : (n : ℕ) → N.is_version (N.version n) ≡ true
  pub is_timestamp-timestamp : (n : ℕ) → N.is_timestamp (N.timestamp n) ≡ true
  pub to_version-version : (n : ℕ) → n < 2 ^ 64 → N.to_version (N.version n) ≡ some n
  pub to_timestamp-timestamp : (n : ℕ) → n < 2 ^ 64 → N.to_timestamp (N.timestamp n) ≡ some n
  pub to_sequence-sequence : (n : ℕ) → n < 2 ^ 64 → N.to_sequence (N.sequence n) ≡ some n
  pub to_segment-segment : (n : ℕ) → n < 2 ^ 64 → N.to_segment (N.segment n) ≡ some n
  pub version_not_app : (n : ℕ) → N.version n ≢ N.text app_component
  pub timestamp_not_app : (n : ℕ) → N.timestamp n ≢ N.text app_component
  pub timestamp_not_meta : (n : ℕ) → N.timestamp n ≢ N.text meta_component
  pub sequence_not_app : (n : ℕ) → N.sequence n ≢ N.text app_component
  pub sequence_not_meta : (n : ℕ) → N.sequence n ≢ N.text meta_component
  pub segment_not_parity : (n : ℕ) → N.segment n ≢ N.text parity_component
  pub segment_not_manifest : (n : ℕ) → N.segment n ≢ N.text manifest_component

-- NamespaceInfo. `sample_no` is the word of an `int`; a name is the list of its components.
pub record NamespaceInfo (C : Type 0) : Type 0 where
  pub base_prefix : List C
  pub api_version : ℕ
  pub stream_type : StreamType
  pub stream_name : String
  pub thread_name : String
  pub is_meta : Bool
  pub is_parity : Bool
  pub is_delta : Bool
  pub has_seq_no : Bool
  pub has_seg_no : Bool
  pub sample_class : SampleClass
  pub segment_class : SegmentClass
  pub sample_no : ℕ
  pub seg_no : ℕ
  pub meta_version : ℕ
  pub stream_timestamp : ℕ

-- NamespaceInfo::NamespaceInfo. The constructor sets neither `streamType_` nor `hasSegNo_` nor
-- `streamTimestamp_`, which hold whatever the memory held.
abbrev pub new : {C : Type 0} → StreamType → Bool → ℕ → NamespaceInfo C
new stream_type has_seg_no stream_timestamp = record {
  base_prefix = List.[];
  api_version = 0;
  stream_type = stream_type;
  stream_name = "";
  thread_name = "";
  is_meta = false;
  is_parity = false;
  is_delta = false;
  has_seq_no = false;
  has_seg_no = has_seg_no;
  sample_class = unknown_sample;
  segment_class = unknown_segment;
  sample_no = 0;
  seg_no = 0;
  meta_version = 0;
  stream_timestamp = stream_timestamp;
}

abbrev pub is_empty : String → Bool
is_empty String.[] = true
is_empty _ = false
