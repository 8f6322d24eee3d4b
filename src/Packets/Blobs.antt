-- ===== src/Packets/Blobs.antt =====
-- What reinit finds in the bytes of a packet (cpp/src/network-data.hpp).
use ndnrtc.Base.{
  ℕ, suc, ◌+◌, ◌-◌, ◌*◌, ◌/◌, ◌%◌, ◌≤◌, ◌≡◌, refl, sym, ap, ◌∙◌, true, some, List, [], ◌∷◌, ◌++◌,
  length, length-append, take-append, drop-length, map, arith,
}
use mathlib.Core.List.{append_assoc, append-nil}
use ndnrtc.Packets.{
  get_elem?, Blob, Packet, content, get_payload, reached, scan, reinit, open_packet, sized,
}

-- The sized blobs one after the other, and the places where they lie from `p` on.
abbrev pub encoding : List (List ℕ) → List ℕ
encoding [] = []
encoding (b ∷ bs) = sized b ++ encoding bs

abbrev pub places : ℕ → List (List ℕ) → List Blob
places p [] = []
places p (b ∷ bs) = record { begin = p + 2; end = p + 2 + length b } ∷ places (p + 2 + length b) bs

pub get_elem?-append {ℓ} :
    {A : Type ℓ} (xs : List A) (y : A) (ys : List A)
    → get_elem? (xs ++ (y ∷ ys)) (length xs) ≡ some y
get_elem?-append [] y ys = refl
get_elem?-append (x ∷ xs) y ys = get_elem?-append xs y ys

pub get_elem?_second {ℓ} :
    {A : Type ℓ} (xs : List A) (y z : A) (ys : List A)
    → get_elem? (xs ++ (y ∷ z ∷ ys)) (length xs + 1) ≡ some z
get_elem?_second [] y z ys = refl
get_elem?_second (x ∷ xs) y z ys =
    let e : suc (length xs) + 1 ≡ suc (length xs + 1) = omega arith in
    rw e (get_elem?_second xs y z ys)

size_bytes : (n : ℕ) → n % 256 + n / 256 * 256 ≡ n
size_bytes n = omega arith

length-sized :
    (front b rest : List ℕ)
    → length (front ++ (sized b ++ rest)) ≡ length front + (2 + (length b + length rest))
length-sized front b rest =
    omega (arith, length-append front (sized b ++ rest), length-append (sized b) rest)

-- One round of the loop, where the size is there and the blob fits.
scan_round :
    (bytes : List ℕ) (n p1 b1 b2 size : ℕ) (blobs : List Blob)
    → get_elem? bytes p1 ≡ some b1
    → get_elem? bytes (p1 + 1) ≡ some b2
    → b1 + b2 * 256 ≡ size
    → p1 + 1 + size ≤ length bytes
    → scan bytes (suc n) p1 blobs
      ≡ scan bytes n
          (p1 + 2 + size)
          (blobs ++ (record { begin = p1 + 2; end = p1 + 2 + size } ∷ []))
unfolding scan
scan_round bytes n p1 b1 b2 size blobs e1 e2 e h = ground (arith, e1, e2, e, h)

scan-sized :
    (front b rest : List ℕ) (n : ℕ) (blobs : List Blob)
    → scan (front ++ (sized b ++ rest)) (suc n) (length front) blobs
      ≡ scan
          (front ++ (sized b ++ rest))
          n
          (length front + 2 + length b)
          (blobs ++ (record { begin = length front + 2; end = length front + 2 + length b } ∷ []))
scan-sized front b rest n blobs =
    scan_round (front ++ (sized b ++ rest)) n (length front) (length b % 256) (length b / 256)
      (length b) blobs (get_elem?-append front (length b % 256) _)
      (get_elem?_second front (length b % 256) (length b / 256) _) (size_bytes (length b))
      (omega (arith, length-sized front b rest))

-- `front` grows by the blob that was read.
next_front : (front b rest : List ℕ) → front ++ (sized b ++ rest) ≡ (front ++ sized b) ++ rest
next_front front b rest = sym (append_assoc front (sized b) rest)

length_next : (front b : List ℕ) → length (front ++ sized b) ≡ length front + 2 + length b
length_next front b = omega (arith, length-append front (sized b))

-- On the encoding of blobs the loop finds each of them in its place.
pub scan-encoding :
    (bs : List (List ℕ)) (front payload : List ℕ) (blobs : List Blob)
    → scan (front ++ (encoding bs ++ payload)) (length bs) (length front) blobs
      ≡ reached (blobs ++ places (length front) bs) (length front + length (encoding bs))
unfolding scan
scan-encoding [] front payload blobs =
    let e : length front + 0 ≡ length front = omega arith in rw (append-nil blobs, e) refl
scan-encoding (b ∷ bs) front payload blobs =
    let here : Blob = record { begin = length front + 2; end = length front + 2 + length b } in
    let size : length front + length (sized b ++ encoding bs)
        ≡ length (front ++ sized b) + length (encoding bs) =
      omega (arith, length-append (sized b) (encoding bs), length_next front b) in
    cc (
      append_assoc (sized b) (encoding bs) payload,
      scan-sized front b (encoding bs ++ payload) (length bs) blobs,
      next_front front b (encoding bs ++ payload),
      length_next front b,
      scan-encoding bs (front ++ sized b) payload (blobs ++ (here ∷ [])),
      append_assoc blobs (here ∷ []) (places (length front + 2 + length b) bs),
      size,
    )

content-place :
    (front b rest : List ℕ)
    → content
        (front ++ (sized b ++ rest))
        (record { begin = length front + 2; end = length front + 2 + length b })
      ≡ b
content-place front b rest =
    let two : List ℕ = length b % 256 ∷ length b / 256 ∷ [] in
    let start : length front + 2 ≡ length (front ++ two) = omega (arith, length-append front two) in
    let size : length front + 2 + length b - (length front + 2) ≡ length b = omega arith in
    rw
      (
        size,
        start,
        sym (append_assoc front two (b ++ rest)),
        drop-length (front ++ two) (b ++ rest),
      )
      (take-append b rest)

-- The content of the places is what was written.
pub content-places :
    (bs : List (List ℕ)) (front payload : List ℕ)
    → map (content (front ++ (encoding bs ++ payload))) (places (length front) bs) ≡ bs
content-places [] front payload = refl
content-places (b ∷ bs) front payload =
    let rest : List ℕ = encoding bs ++ payload in
    let later : map (content (front ++ (sized b ++ rest))) (places (length front + 2 + length b) bs)
        ≡ bs =
      rw (next_front front b rest, sym (length_next front b))
        (content-places bs (front ++ sized b) payload) in
    let found : List Blob = places (length front) (b ∷ bs) in
    ap (λ (t : List ℕ). map (content (front ++ t)) found)
      (append_assoc (sized b) (encoding bs) payload)
    ∙ cc (content-place front b rest, later)

pub length-places : (p : ℕ) (bs : List (List ℕ)) → length (places p bs) ≡ length bs
length-places p [] = refl
length-places p (b ∷ bs) = ap suc (length-places (p + 2 + length b) bs)

-- The bytes of a packet with these blobs and this payload.
abbrev pub bytes_of : List (List ℕ) → List ℕ → List ℕ
bytes_of bs payload = length bs ∷ (encoding bs ++ payload)

-- The packet that reinit makes of them.
abbrev pub packet_of : List (List ℕ) → List ℕ → Packet
packet_of bs payload = record {
  bytes = bytes_of bs payload;
  is_valid = true;
  blobs = places 1 bs;
  payload_begin = 1 + length (encoding bs);
}

pub reinit-packet_of :
    (bs : List (List ℕ)) (payload : List ℕ) (blobs : List Blob) (p : ℕ)
    → reinit
        (record { bytes = bytes_of bs payload; is_valid = true; blobs = blobs; payload_begin = p })
      ≡ some (packet_of bs payload)
unfolding reinit
reinit-packet_of bs payload blobs p = rw (reinit, scan-encoding bs (length bs ∷ []) payload []) refl

pub get_payload-packet_of :
    (bs : List (List ℕ)) (payload : List ℕ) → get_payload (packet_of bs payload) ≡ payload
get_payload-packet_of bs payload =
    let e : 1 + length (encoding bs) ≡ suc (length (encoding bs)) = omega arith in
    rw e (drop-length (encoding bs) payload)

-- A packet with such bytes is read back: its blobs and its payload are found.
pub open_packet-bytes_of :
    (bs : List (List ℕ)) (payload : List ℕ)
    → (open_packet (bytes_of bs payload) ≡ some (packet_of bs payload))
      × (map (content (bytes_of bs payload)) (packet_of bs payload).blobs ≡ bs)
      × (get_payload (packet_of bs payload) ≡ payload)
unfolding open_packet
open_packet-bytes_of bs payload = (
  reinit-packet_of bs payload [] 0,
  content-places bs (length bs ∷ []) payload,
  get_payload-packet_of bs payload,
)
