-- ===== src/Tests/Names.antt =====
-- Concrete runs of the names of cpp/src/name-components.cpp, and the theorems about them at concrete
-- names.
use Prim.Native.String.{String}
use text.Mathlib.Text
use text.Mathlib.TextEquality.{eq_iff}
use ndnrtc.Base.{
  ℕ, ◌≡◌, refl, ◌↔◌, Bool, true, false, Option, none, some, List, [], ◌∷◌, ◌++◌, ◌==◌, arith,
}
use ndnrtc.Naming.{audio, Components, ComponentLaws, new}
use ndnrtc.Naming.Extraction.{
  Outcome, said, threw, extract_info, extract_library, extract_stream, extract_video, thread_of,
  find_app,
}
use ndnrtc.Naming.Extraction.Paths.{delta_parity, key_segment, Stem, info_of, IsPlain}
use ndnrtc.Naming.Extraction.RoundTrip.{extract_info-get_prefix}
use ndnrtc.Naming.Assembly.{prefix_sample, prefix_segment, suffix_segment, get_prefix, get_suffix}
use ndnrtc.Naming.Splits.{at_segment, get_prefix-append-get_suffix}
use ndnrtc.PacketPublisher.{create, nack_all, deep_clean_pit, clean_pit}
use ndnrtc.PacketPublisher.Cleaning.{clean_all, every_clean_is_deep}

-- Components as a data type, of which each kind of number is one constructor.
data Piece : Type 0 where
  word : String → Piece
  version timestamp sequence segment : ℕ → Piece

abbrev same_piece : Piece → Piece → Bool
same_piece (word s) (word t) = Text.◌==◌ s t
same_piece (version m) (version n) = m == n
same_piece (timestamp m) (timestamp n) = m == n
same_piece (sequence m) (sequence n) = m == n
same_piece (segment m) (segment n) = m == n
same_piece _ _ = false

abbrev pieces : Components Piece
pieces = record {
  same = same_piece;
  text = word;
  escaped = λ c. elim c [ word s ↦ s | _ ↦ "" ];
  version = version;
  timestamp = timestamp;
  sequence = sequence;
  segment = segment;
  is_version = λ c. elim c [ version _ ↦ true | _ ↦ false ];
  is_timestamp = λ c. elim c [ timestamp _ ↦ true | _ ↦ false ];
  to_version = λ c. elim c [ version n ↦ some n | _ ↦ none ];
  to_timestamp = λ c. elim c [ timestamp n ↦ some n | _ ↦ none ];
  to_sequence = λ c. elim c [ sequence n ↦ some n | _ ↦ none ];
  to_segment = λ c. elim c [ segment n ↦ some n | _ ↦ none ];
}

same_piece_iff : (a b : Piece) → (same_piece a b ≡ true) ↔ (a ≡ b)
same_piece_iff (word s) (word t) = ground (arith, eq_iff s t)
same_piece_iff a b = ground arith

pieces_laws : ComponentLaws Piece pieces
pieces_laws = record {
  same_iff = same_piece_iff;
  text_injective = λ s t h. cc;
  is_version-version = λ n. refl;
  is_timestamp-timestamp = λ n. refl;
  to_version-version = λ n h. refl;
  to_timestamp-timestamp = λ n h. refl;
  to_sequence-sequence = λ n h. refl;
  to_segment-segment = λ n h. refl;
  version_not_app = λ n h. cc;
  timestamp_not_app = λ n h. cc;
  timestamp_not_meta = λ n h. cc;
  sequence_not_app = λ n h. cc;
  sequence_not_meta = λ n h. cc;
  segment_not_parity = λ n h. cc;
  segment_not_manifest = λ n h. cc;
}

abbrev camera : Stem Piece
camera = record {
  base_prefix = word "edu" ∷ word "ndnrtc" ∷ [];
  api_version = 3;
  stream_name = "camera";
  thread_name = "hi";
  stream_timestamp = 1526000000000;
}

camera-IsPlain : IsPlain pieces camera
camera-IsPlain = record {
  based = λ h. cc;
  threaded = refl;
  stream_not_app = ground (arith, eq_iff "camera" "ndnrtc");
  thread_not_app = ground (arith, eq_iff "hi" "ndnrtc");
  stream_escaped = refl;
  thread_escaped = refl;
  api_version_fits = omega arith;
  timestamp_fits = omega arith;
}

extract_info-get_prefix_example :
    extract_info pieces
      (get_prefix pieces (info_of camera (delta_parity 7 2) 5) prefix_segment)
      (new audio false 5)
    ≡ said true (info_of camera (delta_parity 7 2) 5)
extract_info-get_prefix_example =
    extract_info-get_prefix pieces pieces_laws camera camera-IsPlain (delta_parity 7 2) audio false
      5 (omega arith, omega arith)

get_prefix-append-get_suffix_example :
    get_prefix pieces (info_of camera (key_segment 7 2) 5) prefix_sample
      ++ get_suffix pieces (info_of camera (key_segment 7 2) 5) suffix_segment
    ≡ get_prefix pieces (info_of camera (key_segment 7 2) 5) prefix_segment
get_prefix-append-get_suffix_example =
    get_prefix-append-get_suffix pieces (info_of camera (key_segment 7 2) 5) refl refl at_segment

-- A name whose fourth last component should be the timestamp of the stream, and is not.
abbrev untimed : List Piece
untimed =
    word "edu"
    ∷ word "ndnrtc"
    ∷ version 3
    ∷ word "video"
    ∷ word "camera"
    ∷ word "x"
    ∷ word "hi"
    ∷ []

abbrev answer : Outcome Piece → Option Bool
answer (said b i) = some b
answer (threw i) = none

-- The exception of `toTimestamp` leaves extractInfo.
untimed_throws : answer (extract_info pieces untimed (new audio false 5)) ≡ none
unfolding extract_info extract_library extract_stream extract_video thread_of find_app
untimed_throws = refl

-- Two packets were published before, and the name of each is pending.
every_clean_is_deep_example :
    let pending = λ (n : List Piece). n ∷ [] in
    let blank = new audio false 0 in
    let names = (word "a" ∷ []) ∷ (word "b" ∷ []) ∷ [] in
    let p = clean_all pieces blank pending names create in
    clean_pit pieces blank pending (word "c" ∷ []) false p
    ≡ deep_clean_pit pieces blank pending (word "c" ∷ []) (nack_all (pending (word "c" ∷ [])) p)
every_clean_is_deep_example =
    every_clean_is_deep pieces (new audio false 0) (λ n. n ∷ [])
      ((word "a" ∷ []) ∷ (word "b" ∷ []) ∷ []) (word "c" ∷ [])
