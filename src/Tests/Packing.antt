-- ===== src/Tests/Packing.antt =====
-- Concrete packets of cpp/src/network-data.hpp and cpp/src/frame-data.hpp, and the theorems about
-- them at concrete bytes.
use ndnrtc.Base.{ℕ, ◌≤◌, ◌≡◌, refl, true, some, none, List, [], ◌∷◌, length, map, All, arith}
use ndnrtc.Packets.{Packet, content, get_payload, new, scan, reinit, open_packet}
use ndnrtc.Packets.Wire.{add_all, open_packet-add_all}
use ndnrtc.Packets.Slices.{payload_length, num_slices, slice, merge}
use ndnrtc.Packets.Merging.{concat, send, Carries, slice-num_slices, merge-slice}
use ndnrtc.Packets.Truncation.{IsNear, open_packet-IsNear}

-- Two blobs and a payload.
abbrev blobs : List (List ℕ)
blobs = (7 ∷ 8 ∷ []) ∷ (9 ∷ []) ∷ []

abbrev payload : List ℕ
payload = 1 ∷ 2 ∷ 3 ∷ []

open_packet-add_all_example :
    (p : Packet) × (add_all blobs (new payload) ≡ some p)
    × (open_packet p.bytes ≡ some p)
    × (map (content p.bytes) p.blobs ≡ blobs)
    × (get_payload p ≡ payload)
open_packet-add_all_example = open_packet-add_all blobs payload (omega arith) (omega arith)

-- The last byte of a blob of two is missing, and the packet is valid all the same.
abbrev cut_short : List ℕ
cut_short = 1 ∷ 2 ∷ 0 ∷ 7 ∷ []

abbrev accepted : Packet
accepted = record {
  bytes = cut_short;
  is_valid = true;
  blobs = record { begin = 3; end = 5 } ∷ [];
  payload_begin = 5;
}

cut_short_is_valid : open_packet cut_short ≡ some accepted
unfolding open_packet reinit scan
cut_short_is_valid = refl

-- With a byte less the source notices; with the second byte of the size missing it reads behind the end.
size_cut_short : open_packet (1 ∷ 2 ∷ []) ≡ none
unfolding open_packet reinit scan
size_cut_short = refl

open_packet-IsNear_example : All (IsNear cut_short) accepted.blobs
open_packet-IsNear_example = open_packet-IsNear cut_short accepted cut_short_is_valid

-- Segments of 8 bytes leave room for 3 bytes behind a header of 2.
slice-num_slices_example :
    (concat (slice 2 8 (1 ∷ 2 ∷ 3 ∷ 4 ∷ [])) ≡ 1 ∷ 2 ∷ 3 ∷ 4 ∷ [])
    × All (λ s. length s ≤ payload_length 2 8) (slice 2 8 (1 ∷ 2 ∷ 3 ∷ 4 ∷ []))
    × (num_slices 2 8 (1 ∷ 2 ∷ 3 ∷ 4 ∷ []) ≡ some (length (slice 2 8 (1 ∷ 2 ∷ 3 ∷ 4 ∷ []))))
unfolding payload_length
slice-num_slices_example = slice-num_slices 2 8 (1 ∷ 2 ∷ 3 ∷ 4 ∷ []) (omega arith) (omega arith)

-- The header of a segment is its number, in two bytes.
abbrev numbered : ℕ → List ℕ
numbered i = i ∷ 0 ∷ []

merge-slice_example :
    (ps : List Packet) × (send numbered 0 (slice 2 8 (1 ∷ 2 ∷ 3 ∷ 4 ∷ [])) ≡ some ps)
    × (merge ps ≡ 1 ∷ 2 ∷ 3 ∷ 4 ∷ [])
    × Carries numbered 2 0 ps
unfolding payload_length
merge-slice_example =
    merge-slice numbered 2 8 (1 ∷ 2 ∷ 3 ∷ 4 ∷ []) (λ i. omega arith) (λ i. refl) (omega arith)
