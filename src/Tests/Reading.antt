-- ===== src/Tests/Reading.antt =====
-- Concrete reads of slots, and the theorems about them at concrete inputs.
use ndnrtc.Base.{ℕ, ◌*◌, ◌≡◌, refl, true, false, Bool, List, [], ◌∷◌, ◌++◌, arith}
use ndnrtc.SlotReading.{
  Segment, packet, VideoFrameSlot, resize, fill, extract, read_packet, read_bundle,
}
use ndnrtc.SlotReading.Whole.{Holds, payloads, read_packet-Holds}
use ndnrtc.SlotReading.Bundles.{backwards, read_bundle-backwards}

abbrev segment : ℕ → List ℕ → Segment
segment n bytes = record { seg_no = n; slices_num = 2; payload = bytes }

-- A decoder that recovers nothing.
abbrev no_decoder : ℕ → ℕ → ℕ → List ℕ → List Bool → List ℕ × ℕ
no_decoder n m size storage ready = (storage, 0)

abbrev empty_slot : VideoFrameSlot
empty_slot = record { storage = []; fec_list = [] }

abbrev last_segment : Segment
last_segment = segment 1 (3 ∷ [])

whole_packet :
    (read_packet no_decoder true
      (segment 0 (1 ∷ 2 ∷ []) ∷ last_segment ∷ [])
      []
      false
      empty_slot).reading
    ≡ packet (1 ∷ 2 ∷ 3 ∷ 0 ∷ [])
unfolding read_packet extract fill
whole_packet = refl

read_packet-Holds_example :
    Holds
      (payloads (segment 0 (1 ∷ 2 ∷ []) ∷ last_segment ∷ []))
      (read_packet no_decoder true
        (segment 0 (1 ∷ 2 ∷ []) ∷ last_segment ∷ [])
        []
        false
        empty_slot).reading
read_packet-Holds_example =
    read_packet-Holds no_decoder (segment 0 (1 ∷ 2 ∷ [])) (last_segment ∷ []) [] false empty_slot
      (refl, (refl, tt)) (refl, omega arith) refl

-- The last segment of a bundle comes first.
read_bundle-backwards_example :
    let ss = segment 0 (1 ∷ 2 ∷ []) ∷ segment 1 (3 ∷ 4 ∷ []) ∷ [] in
    let bytes = payloads (backwards ss) ++ resize (2 * 2) [] in
    read_bundle true true ss [] ≡ (packet bytes, bytes)
read_bundle-backwards_example =
    read_bundle-backwards (segment 0 (1 ∷ 2 ∷ []) ∷ segment 1 (3 ∷ 4 ∷ []) ∷ []) []
