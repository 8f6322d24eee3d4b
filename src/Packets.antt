-- ===== src/Packets.antt =====
-- Packets: a counter, blobs with their sizes, and the payload (DataPacketT and HeaderPacketT of
-- cpp/src/network-data.hpp). A byte is a number below 256, and a vector of bytes is their list.
pub mod Blobs
pub mod Wire
pub mod Slices
pub mod Merging
pub mod Truncation
use ndnrtc.Base.{
  ℕ, zero, suc, ◌+◌, ◌-◌, ◌*◌, ◌/◌, ◌%◌, Bool, true, false, not, ◌&&◌, Option, none, some, List, [],
  ◌∷◌, ◌++◌, length, take, drop, map, ltb, ◌==◌, if◌then◌else◌,
}

abbrev pub get_elem? {ℓ} : {A : Type ℓ} → List A → ℕ → Option A
get_elem? [] i = none
get_elem? (x ∷ xs) zero = some x
get_elem? (x ∷ xs) (suc i) = get_elem? xs i

-- DataPacketT<T>::Blob: the positions of its two iterators.
pub record Blob : Type 0 where
  pub begin : ℕ
  pub end : ℕ

-- DataPacketT, with the members of NetworkDataT. `payload_begin` is a position.
pub record Packet : Type 0 where
  pub bytes : List ℕ
  pub is_valid : Bool
  pub blobs : List Blob
  pub payload_begin : ℕ

-- The bytes between the iterators of a blob.
abbrev pub content : List ℕ → Blob → List ℕ
content bytes b = take (b.end - b.begin) (drop b.begin bytes)

-- DataPacketT::getPayload
abbrev pub get_payload : Packet → List ℕ
get_payload p = drop p.payload_begin p.bytes

-- How the loop of reinit ends: at the payload, at a blob that does not fit, or by reading the size of
-- a blob behind the end of the vector, which is undefined.
pub data Scan : Type 0 where
  reached : List Blob → ℕ → Scan
  unfit : List Blob → Scan
  undefined : Scan

-- The loop of reinit for the `n` blobs from `p1` on.
unfoldable pub scan : List ℕ → ℕ → ℕ → List Blob → Scan
scan bytes zero p1 blobs = reached blobs p1
scan bytes (suc n) p1 blobs = elim (get_elem? bytes p1) [
  | none ↦ undefined
  | some b1 ↦ elim (get_elem? bytes (p1 + 1)) [
    | none ↦ undefined
    | some b2 ↦
        let size = b1 + b2 * 256 in
        let p2 = p1 + 2 + size in
        let rest = scan bytes n p2 (blobs ++ (record { begin = p1 + 2; end = p2 } ∷ [])) in
        if ltb (length bytes) (p1 + 1 + size) then unfit blobs else rest
  ]
]

-- The members after the loop; `none` is the undefined read.
abbrev pub settle : Packet → Scan → Option Packet
settle p (reached blobs p1) = some (record p { blobs = blobs; payload_begin = p1 })
settle p (unfit blobs) = some (record p { blobs = blobs; is_valid = false })
settle p undefined = none

-- DataPacketT::reinit
unfoldable pub reinit : Packet → Option Packet
unfolding scan
reinit p = elim p.bytes [
  | [] ↦ some (record p { blobs = []; is_valid = false })
  | n ∷ _ ↦ settle p (scan p.bytes n 1 [])
]

-- The constructor from a payload, and the one from the bytes of a packet.
abbrev pub new : List ℕ → Packet
new payload = record { bytes = 0 ∷ payload; is_valid = true; blobs = []; payload_begin = 1 }

unfoldable pub open_packet : List ℕ → Option Packet
unfolding reinit
open_packet bytes =
    reinit (record { bytes = bytes; is_valid = true; blobs = []; payload_begin = 0 })

-- `this->_data()[0]++`, of a byte.
abbrev pub count_blob : List ℕ → List ℕ
count_blob [] = []
count_blob (n ∷ bytes) = (n + 1) % 256 ∷ bytes

-- The two bytes of a size, and the blob behind them.
abbrev pub sized : List ℕ → List ℕ
sized blob = length blob % 256 ∷ length blob / 256 ∷ blob

-- DataPacketT::addBlob. Its length is a `uint16_t`.
unfoldable pub add_blob : List ℕ → Packet → Option Packet
unfolding reinit
add_blob blob p =
    let written = take (length blob % 65536) blob in
    let bytes = count_blob p.bytes in
    let more = take p.payload_begin bytes ++ (sized written ++ drop p.payload_begin bytes) in
    let added = reinit (record p { bytes = more; payload_begin = p.payload_begin + 2 }) in
    if length blob % 65536 == 0 then some p else added

-- DataPacketT::wireLength, of a payload and one blob, and of a payload and blobs.
unfoldable pub wire_length : ℕ → ℕ → ℕ
wire_length payload blob = if ltb 0 blob then 1 + payload + (2 + blob) else 1 + payload

unfoldable pub wire_length_all : ℕ → List ℕ → ℕ
wire_length_all payload [] = 1 + payload
wire_length_all payload (b ∷ bs) =
    let rest = wire_length_all payload bs in if ltb 0 b then rest + (2 + b) else rest
