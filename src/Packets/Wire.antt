-- ===== src/Packets/Wire.antt =====
-- Blobs that are added to a packet come back when its bytes are read, and the lengths that the code
-- computes are those of the bytes (cpp/src/network-data.hpp).
use ndnrtc.Base.{
  ℕ, suc, ◌+◌, ◌%◌, ◌<◌, ◌≡◌, refl, sym, ap, ◌∙◌, Option, none, some, List, [], ◌∷◌, ◌++◌, length,
  length-append, take, drop, take-append, drop-length, map, All, arith,
}
use mathlib.Core.List.{append_assoc, append-nil}
use ndnrtc.Packets.{
  Packet, content, get_payload, open_packet, new, count_blob, add_blob, sized, wire_length_all,
}
use ndnrtc.Packets.Blobs.{encoding, bytes_of, packet_of, reinit-packet_of, open_packet-bytes_of}

-- `addBlob` for one blob after the other.
abbrev pub add_all : List (List ℕ) → Packet → Option Packet
add_all [] p = some p
add_all (b ∷ bs) p = elim (add_blob b p) [ none ↦ none | some q ↦ add_all bs q ]

-- A blob that `addBlob` takes whole: it is not empty, and 16 bits hold its length.
abbrev pub IsBlob : List ℕ → Type 0
IsBlob b = (0 < length b) × (length b < 65536)

take_whole : (b : List ℕ) → length b < 65536 → take (length b % 65536) b ≡ b
take_whole b h =
    let e : length b % 65536 ≡ length b = omega arith in
    rw e (rw (append-nil b) at (take-append b []))

encoding-append :
    (bs : List (List ℕ)) (b : List ℕ) → encoding (bs ++ (b ∷ [])) ≡ encoding bs ++ sized b
encoding-append [] b = append-nil (sized b)
encoding-append (x ∷ bs) b =
    ap (λ (t : List ℕ). sized x ++ t) (encoding-append bs b)
    ∙ sym (append_assoc (sized x) (encoding bs) (sized b))

-- The bytes after the sizes and the blob are inserted.
inserted :
    (bs : List (List ℕ)) (b payload : List ℕ)
    → length bs < 255
    → take (1 + length (encoding bs)) (count_blob (bytes_of bs payload))
        ++ (sized b ++ drop (1 + length (encoding bs)) (count_blob (bytes_of bs payload)))
      ≡ bytes_of (bs ++ (b ∷ [])) payload
inserted bs b payload h =
    let e : 1 + length (encoding bs) ≡ suc (length (encoding bs)) = omega arith in
    let n : (length bs + 1) % 256 ≡ length (bs ++ (b ∷ [])) =
      omega (arith, length-append bs (b ∷ [])) in
    let t = take-append (encoding bs) payload in
    let d = drop-length (encoding bs) payload in
    let more : encoding (bs ++ (b ∷ [])) ++ payload ≡ encoding bs ++ (sized b ++ payload) =
      ap (λ (t : List ℕ). t ++ payload) (encoding-append bs b)
      ∙ append_assoc (encoding bs) (sized b) payload in
    rw (e, n, t, d) (ap (◌∷◌ (length (bs ++ (b ∷ [])))) (sym more))

pub add_blob-packet_of :
    (bs : List (List ℕ)) (b payload : List ℕ)
    → IsBlob b
    → length bs < 255
    → add_blob b (packet_of bs payload) ≡ some (packet_of (bs ++ (b ∷ [])) payload)
unfolding add_blob
add_blob-packet_of bs b payload (pos, fits) h = ground (
  arith,
  take_whole b fits,
  inserted bs b payload h,
  reinit-packet_of (bs ++ (b ∷ [])) payload (packet_of bs payload).blobs
      (1 + length (encoding bs) + 2),
)

add_all-packet_of :
    (bs cs : List (List ℕ)) (payload : List ℕ)
    → All IsBlob bs
    → length cs + length bs < 256
    → add_all bs (packet_of cs payload) ≡ some (packet_of (cs ++ bs) payload)
add_all-packet_of [] cs payload w h = rw (append-nil cs) refl
add_all-packet_of (b ∷ bs) cs payload (wb, ws) h =
    let more = append_assoc cs (b ∷ []) bs in
    rw (add_all, add_blob-packet_of cs b payload wb (omega arith))
      (add_all-packet_of bs (cs ++ (b ∷ [])) payload ws (omega (arith, length-append cs (b ∷ [])))
        ∙ rw more refl)

-- At most 255 blobs, none of them empty or longer than 65535 bytes, that are added to a packet with a
-- payload are all there when its bytes are read, in their order, with the payload behind them.
pub open_packet-add_all :
    (bs : List (List ℕ)) (payload : List ℕ)
    → All IsBlob bs
    → length bs < 256
    → (p : Packet) × (add_all bs (new payload) ≡ some p)
      × (open_packet p.bytes ≡ some p)
      × (map (content p.bytes) p.blobs ≡ bs)
      × (get_payload p ≡ payload)
open_packet-add_all bs payload w h =
    let (opened, found, rest) = open_packet-bytes_of bs payload in
    (packet_of bs payload, add_all-packet_of bs [] payload w (omega arith), opened, found, rest)

-- The length of the bytes is the one that `wireLength` computes from the lengths of the payload and
-- of the blobs, none of which is empty.
pub length-bytes_of :
    (bs : List (List ℕ)) (payload : List ℕ)
    → All IsBlob bs
    → length (bytes_of bs payload) ≡ wire_length_all (length payload) (map length bs)
unfolding wire_length_all
length-bytes_of [] payload w = omega arith
length-bytes_of (b ∷ bs) payload ((pos, fits), w) = ground (
  arith,
  length-bytes_of bs payload w,
  length-append (sized b ++ encoding bs) payload,
  length-append (sized b) (encoding bs),
  length-append (encoding bs) payload,
)
