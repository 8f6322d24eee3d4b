-- ===== src/Packets/Merging.antt =====
-- The slices of a packet, sent as segments with their headers, merge to the packet
-- (cpp/src/frame-data.hpp, cpp/src/frame-data.cpp).
use ndnrtc.Base.{
  ℕ, zero, suc, ◌+◌, ◌-◌, ◌*◌, ◌/◌, ◌%◌, ◌<◌, ◌≤◌, ◌≡◌, refl, ap, ◌∙◌, true, Option, some, List, [],
  ◌∷◌, ◌++◌, length, take, drop, All, ltb, ◌==◌, arith, if◌then◌else◌, Bool-cases, inl, inr, ◌>>=◌,
}
use mathlib.Core.List.{append-nil}
use native.Mathlib.Nat.{div-add-mod', mod-lt}
use ndnrtc.Packets.{Packet, new, add_blob, open_packet}
use ndnrtc.Packets.Blobs.{bytes_of, packet_of, open_packet-bytes_of, get_payload-packet_of}
use ndnrtc.Packets.Wire.{IsBlob, add_blob-packet_of}
use ndnrtc.Packets.Slices.{
  payload_length, num_slices, slice_loop, slice, get_network_data, last_blob, is_header_set,
  get_header, merge,
}

module _ {ℓ} {A : Type ℓ} where
  abbrev pub concat : List (List A) → List A
  concat [] = []
  concat (xs ∷ xss) = xs ++ concat xss

  take-append-drop : (n : ℕ) (xs : List A) → take n xs ++ drop n xs ≡ xs
  take-append-drop zero xs = refl
  take-append-drop (suc n) [] = refl
  take-append-drop (suc n) (x ∷ xs) = ap (◌∷◌ x) (take-append-drop n xs)

  length-drop : (n : ℕ) (xs : List A) → length (drop n xs) ≡ length xs - n
  length-drop zero xs = omega arith
  length-drop (suc n) [] = omega arith
  length-drop (suc n) (x ∷ xs) = omega (arith, length-drop n xs)

  length-take : (n : ℕ) (xs : List A) → n ≤ length xs → length (take n xs) ≡ n
  length-take zero xs h = refl
  length-take (suc n) [] h = absurd (omega arith)
  length-take (suc n) (x ∷ xs) h = ap suc (length-take n xs (omega arith))

slice_loop-concat : (fuel size : ℕ) (bytes : List ℕ) → concat (slice_loop fuel size bytes) ≡ bytes
unfolding slice_loop
slice_loop-concat zero size bytes = append_nil bytes
  where
    append_nil : (xs : List ℕ) → xs ++ [] ≡ xs
    append_nil [] = refl
    append_nil (x ∷ xs) = ap (◌∷◌ x) (append_nil xs)
slice_loop-concat (suc fuel) size bytes = elim (Bool-cases (ltb size (length bytes))) [
  | inl more ↦ rw more (
      ap (λ (t : List ℕ). take size bytes ++ t) (slice_loop-concat fuel size (drop size bytes))
      ∙ take-append-drop size bytes)
  | inr last ↦ rw last (append-nil bytes)
]

-- Every slice fits, and every slice but the last is full.
slice_loop-fits :
    (fuel size : ℕ) (bytes : List ℕ)
    → 0 < size
    → length bytes ≤ fuel
    → All (λ s. length s ≤ size) (slice_loop fuel size bytes)
unfolding slice_loop
slice_loop-fits zero size bytes p h = omega arith
slice_loop-fits (suc fuel) size bytes p h = ground (
  arith,
  length-take size bytes,
  length-drop size bytes,
  slice_loop-fits fuel size (drop size bytes) p,
)

slice_loop-count :
    (fuel size : ℕ) (bytes : List ℕ)
    → 0 < size
    → 0 < length bytes
    → length bytes ≤ fuel
    → (n : ℕ) × (length (slice_loop fuel size bytes) ≡ suc n)
      × (n * size < length bytes)
      × (length bytes ≤ n * size + size)
unfolding slice_loop
slice_loop-count zero size bytes p q h = absurd (omega arith)
slice_loop-count (suc fuel) size bytes p q h = elim (Bool-cases (ltb size (length bytes))) [
  | inl more ↦
      let (n, e, lo, hi) =
        slice_loop-count fuel size (drop size bytes) p
          (ground (arith, length-drop size bytes, more))
          (ground (arith, length-drop size bytes, more)) in
      rw more (
        suc n,
        ap suc e,
        grind (arith, length-drop size bytes, more),
        grind (arith, length-drop size bytes, more),
      )
  | inr last ↦ rw last (0, refl, omega arith, ground (arith, last))
]

times_mono : (a b s : ℕ) → a ≤ b → a * s ≤ b * s
times_mono a b s h = grind arith

times_suc : (a s : ℕ) → suc a * s ≡ a * s + s
times_suc a s = grind arith

count_slices :
    (n l size : ℕ)
    → 0 < size
    → n * size < l
    → l ≤ n * size + size
    → l / size + (if l % size == 0 then 0 else 1) ≡ suc n
count_slices n l size p lo hi =
    let q = l / size in
    ground (
      arith,
      div-add-mod' l size,
      mod-lt l p,
      times_mono q n size,
      times_mono (suc q) n size,
      times_mono (suc n) q size,
      times_mono (suc (suc n)) q size,
      times_suc q size,
      times_suc n size,
      times_suc (suc n) size,
    )

slice-slice_loop :
    (header wire : ℕ) (bytes : List ℕ)
    → 0 < payload_length header wire
    → slice header wire bytes ≡ slice_loop (length bytes) (payload_length header wire) bytes
unfolding slice
slice-slice_loop header wire bytes p = ground (arith, p)

num_slices_room :
    (header wire : ℕ) (bytes : List ℕ)
    → 0 < payload_length header wire
    → num_slices header wire bytes
      ≡ some (
          length bytes / payload_length header wire
          + (if length bytes % payload_length header wire == 0 then 0 else 1))
unfolding num_slices
num_slices_room header wire bytes p = ground (arith, p)

-- With room for a payload, the slices of a packet that has bytes, put together, are the packet; each
-- of them fits, and there are as many as numSlices says.
pub slice-num_slices :
    (header wire : ℕ) (bytes : List ℕ)
    → 0 < payload_length header wire
    → 0 < length bytes
    → (concat (slice header wire bytes) ≡ bytes)
      × All (λ s. length s ≤ payload_length header wire) (slice header wire bytes)
      × (num_slices header wire bytes ≡ some (length (slice header wire bytes)))
slice-num_slices header wire bytes p h =
    let size = payload_length header wire in
    let (n, e, lo, hi) = slice_loop-count (length bytes) size bytes p h (omega arith) in
    rw (slice-slice_loop header wire bytes p, num_slices_room header wire bytes p)
      (
        slice_loop-concat (length bytes) size bytes,
        slice_loop-fits (length bytes) size bytes p (omega arith),
        cc (e, count_slices n (length bytes) size p lo hi),
      )

-- What the consumer holds of slices that were sent, the i-th with the header `header i`.
unfoldable pub send : (ℕ → List ℕ) → ℕ → List (List ℕ) → Option (List Packet)
send header i [] = some []
send header i (s ∷ ss) = do
  bytes ← get_network_data (header i) s
  p ← open_packet bytes
  ps ← send header (suc i) ss
  some (p ∷ ps)

module _ (header : ℕ → List ℕ) where
  received : ℕ → List (List ℕ) → List Packet
  received i [] = []
  received i (s ∷ ss) = packet_of (header i ∷ []) s ∷ received (suc i) ss

module _ (header : ℕ → List ℕ) (size : ℕ) where
  -- Every packet is valid with its header, and the header is the one that was set.
  unfoldable pub Carries : ℕ → List Packet → Type 0
  Carries i [] = Unit
  Carries i (p ∷ ps) =
      ((is_header_set size p ≡ true) × (get_header p ≡ some (header i))) × Carries (suc i) ps

module _ (header : ℕ → List ℕ) (size : ℕ) (w : (i : ℕ) → IsBlob (header i))
    (n : (i : ℕ) → length (header i) ≡ size) where
  get_network_data-bytes_of :
      (i : ℕ) (s : List ℕ) → get_network_data (header i) s ≡ some (bytes_of (header i ∷ []) s)
  unfolding get_network_data
  get_network_data-bytes_of i s =
      let e : add_blob (header i) (new s) ≡ some (packet_of (header i ∷ []) s) =
        add_blob-packet_of [] (header i) s (w i) (omega arith) in
      rw (get_network_data, e) refl

  send-received : (i : ℕ) (ss : List (List ℕ)) → send header i ss ≡ some (received header i ss)
  unfolding send received
  send-received i [] = refl
  send-received i (s ∷ ss) =
      rw
        (
          send,
          get_network_data-bytes_of i s,
          (open_packet-bytes_of (header i ∷ []) s).0,
          send-received (suc i) ss,
        )
        refl

  merge-received : (i : ℕ) (ss : List (List ℕ)) → merge (received header i ss) ≡ concat ss
  unfolding merge received
  merge-received i [] = refl
  merge-received i (s ∷ ss) =
      cc (get_payload-packet_of (header i ∷ []) s, merge-received (suc i) ss)

  packet_of-header :
      (i : ℕ) (s : List ℕ)
      → (is_header_set size (packet_of (header i ∷ []) s) ≡ true)
        × (get_header (packet_of (header i ∷ []) s) ≡ some (header i))
  unfolding is_header_set get_header last_blob
  packet_of-header i s =
      let (opened, found, rest) = open_packet-bytes_of (header i ∷ []) s in
      (ground (arith, n i), cc found)

  received-Carries : (i : ℕ) (ss : List (List ℕ)) → Carries header size i (received header i ss)
  unfolding Carries received
  received-Carries i [] = tt
  received-Carries i (s ∷ ss) = (packet_of-header i s, received-Carries (suc i) ss)

-- A packet that has room for a payload is cut into slices, which are sent as segments, each with a
-- header of its own of the length that the slices leave room for. Read by the consumer, each segment
-- is valid with its header, and the payloads merged in order are the packet.
pub merge-slice :
    (header : ℕ → List ℕ) (size wire : ℕ) (bytes : List ℕ)
    → ((i : ℕ) → IsBlob (header i))
    → ((i : ℕ) → length (header i) ≡ size)
    → 0 < payload_length size wire
    → (ps : List Packet) × (send header 0 (slice size wire bytes) ≡ some ps)
      × (merge ps ≡ bytes)
      × Carries header size 0 ps
merge-slice header size wire bytes w n p =
    let ss = slice size wire bytes in
    let whole : concat ss ≡ bytes =
      rw (slice-slice_loop size wire bytes p)
        (slice_loop-concat (length bytes) (payload_length size wire) bytes) in
    (
      received header 0 ss,
      send-received header size w n 0 ss,
      merge-received header size w n 0 ss ∙ whole,
      received-Carries header size w n 0 ss,
    )
