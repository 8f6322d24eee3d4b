-- ===== src/Packets/Slices.antt =====
-- Data segments: a packet is cut into slices, each of which is sent with a header
-- (DataSegment and merge of cpp/src/frame-data.hpp and frame-data.cpp).
use ndnrtc.Base.{
  ℕ, zero, suc, ◌+◌, ◌-◌, ◌/◌, ◌%◌, Bool, false, Option, none, some, List, [], ◌∷◌, ◌++◌, length,
  take, drop, ltb, ◌==◌, if◌then◌else◌,
}
use ndnrtc.Packets.{Packet, Blob, content, get_payload, new, add_blob}

-- DataPacket::wireLength, of one blob.
abbrev pub blob_wire_length : ℕ → ℕ
blob_wire_length blob = if ltb 0 blob then blob + 2 else 0

-- DataSegment<Header>::payloadLength, where `header` is `sizeof(Header)`.
unfoldable pub payload_length : ℕ → ℕ → ℕ
payload_length header wire = wire - 1 - blob_wire_length header

-- DataSegment<Header>::numSlices; without room for a payload it divides by zero.
unfoldable pub num_slices : ℕ → ℕ → List ℕ → Option ℕ
unfolding payload_length
num_slices header wire bytes =
    let size = payload_length header wire in
    if size == 0
    then none
    else some (length bytes / size + (if length bytes % size == 0 then 0 else 1))

-- The loop of slice on what is left from `p1` on. A round takes `size` bytes while more than those
-- are left, so with fuel for as many rounds as there are bytes it ends by itself.
unfoldable pub slice_loop : ℕ → ℕ → List ℕ → List (List ℕ)
slice_loop zero size bytes = bytes ∷ []
slice_loop (suc fuel) size bytes =
    let rest = slice_loop fuel size (drop size bytes) in
    if ltb size (length bytes) then take size bytes ∷ rest else bytes ∷ []

-- DataSegment<Header>::slice
unfoldable pub slice : ℕ → ℕ → List ℕ → List (List ℕ)
unfolding payload_length slice_loop
slice header wire bytes =
    let size = payload_length header wire in
    if size == 0 then [] else slice_loop (length bytes) size bytes

-- DataSegment<Header>::getNetworkData: a HeaderPacket of the slice, and then setHeader. The header is
-- given by its bytes.
unfoldable pub get_network_data : List ℕ → List ℕ → Option (List ℕ)
get_network_data header slice = elim (add_blob header (new slice)) [
  | none ↦ none
  | some p ↦ some p.bytes
]

-- ImmutableHeaderPacket: it is valid if its last blob has the length of the header.
unfoldable pub last_blob : List Blob → Option Blob
last_blob [] = none
last_blob (b ∷ []) = some b
last_blob (_ ∷ b ∷ bs) = last_blob (b ∷ bs)

unfoldable pub is_header_set : ℕ → Packet → Bool
unfolding last_blob
is_header_set header p = elim (last_blob p.blobs) [
  | none ↦ false
  | some b ↦ if p.is_valid then b.end - b.begin == header else false
]

-- getHeader: the last blob.
unfoldable pub get_header : Packet → Option (List ℕ)
unfolding last_blob
get_header p = elim (last_blob p.blobs) [ none ↦ none | some b ↦ some (content p.bytes b) ]

-- merge: the payloads one after the other.
unfoldable pub merge : List Packet → List ℕ
merge [] = []
merge (p ∷ ps) = get_payload p ++ merge ps
