-- ===== src/SlotReading/Whole.antt =====
-- What is read of a slot that has all its data segments (cpp/src/frame-buffer.cpp).
use ndnrtc.Base.{
  ℕ, zero, suc, ◌+◌, ◌-◌, ◌*◌, ◌≤◌, ◌≡◌, refl, sym, ap, ◌∙◌, Bool, true, false, ◌&&◌, List, [], ◌∷◌,
  ◌++◌, ++_nil, ++_assoc, length, length-append, take, take-append, drop-length, ltb, ◌==◌, arith,
}
use ndnrtc.SlotReading.{
  Segment, Reading, packet, VideoFrameSlot, repeat, resize, insert_at, slices_of_first, skip_to,
  fill, extract, is_without, read_packet, set_ready,
}

abbrev pub payloads : List Segment → List ℕ
payloads [] = []
payloads (s ∷ ss) = s.payload ++ payloads ss

-- Segments in order, from a number on, each as long as a size but the last, which is not longer.
abbrev pub IsNumbered : ℕ → List Segment → Type 0
IsNumbered k [] = Unit
IsNumbered k (s ∷ ss) = (s.seg_no ≡ k) × IsNumbered (k + 1) ss

abbrev pub IsEven : ℕ → List Segment → Type 0
IsEven size [] = Unit
IsEven size (s ∷ []) = length s.payload ≤ size
IsEven size (s ∷ t ∷ ss) = (length s.payload ≡ size) × IsEven size (t ∷ ss)

-- The packet that is read begins with the bytes.
pub record Holds (bytes : List ℕ) (r : Reading) : Type 0 where
  pub rest : List ℕ
  pub reading : r ≡ packet (bytes ++ rest)

self_equal : (k : ℕ) → (k == k) ≡ true
self_equal k = ground arith

skip_here :
    (base size gap offset expected fuel k : ℕ) (storage : List ℕ)
    → skip_to base size gap offset expected fuel k k storage ≡ (k, storage)
skip_here base size gap offset expected zero k storage = refl
skip_here base size gap offset expected (suc fuel) k storage = rw (self_equal k) refl

insert_behind :
    (n : ℕ) (pre ys old : List ℕ)
    → length pre ≡ n
    → insert_at n ys (pre ++ old) ≡ pre ++ (ys ++ old)
insert_behind n pre ys old e =
    rw (sym e, take-append pre old, drop-length pre old) (++_assoc pre ys old)

IsEven-payloads :
    (size : ℕ) (ss : List Segment) → IsEven size ss → length (payloads ss) ≤ length ss * size
IsEven-payloads size [] h = omega arith
IsEven-payloads size (s ∷ []) h = omega (arith, h, length-append s.payload [])
IsEven-payloads size (s ∷ t ∷ ss) (h, hs) =
    omega (arith, h, length-append s.payload (payloads (t ∷ ss)), IsEven-payloads size (t ∷ ss) hs)

take_past :
    (n : ℕ) (xs ys : List ℕ) → length xs ≤ n → take n (xs ++ ys) ≡ xs ++ take (n - length xs) ys
take_past n [] ys h = let e : n - 0 ≡ n = omega arith in rw e refl
take_past zero (x ∷ xs) ys h = let no : ⊥ = omega (arith, h) in elim no [ ]
take_past (suc n) (x ∷ xs) ys h =
    let e : suc n - suc (length xs) ≡ n - length xs = omega arith in
    rw e (ap (◌∷◌ x) (take_past n xs ys (omega (arith, h))))

module _ (size gap expected : ℕ) where
  -- A segment is written behind the bytes before it.
  written :
      (s : Segment) (k : ℕ) (storage pre old : List ℕ)
      → storage ≡ pre ++ old
      → length pre ≡ size * k
      → insert_at (0 + size * k) s.payload storage ≡ pre ++ (s.payload ++ old)
  written s k storage pre old hv hp =
      ap (insert_at (0 + size * k) s.payload) hv
      ∙ insert_behind (0 + size * k) pre s.payload old (omega (arith, hp))

  -- The loop writes the segments one behind the other.
  fill-payloads :
      (ss : List Segment) (k : ℕ) (v : VideoFrameSlot) (pre old : List ℕ)
      → v.storage ≡ pre ++ old
      → length pre ≡ size * k
      → IsNumbered k ss
      → IsEven size ss
      → length ss + k ≤ expected
      → (fill 0 size gap 0 expected ss k v).storage ≡ pre ++ (payloads ss ++ old)
  unfolding fill
  fill-payloads [] k v pre old hv hp hn he le = hv
  fill-payloads (s ∷ []) k v pre old hv hp (hk, hn) he le =
      let here = skip_here 0 size gap 0 expected expected k v.storage in
      let below : ltb k expected ≡ true = ground (arith, le) in
      rw (hk, here, below, ++_nil s.payload) (written s k v.storage pre old hv hp)
  fill-payloads (s ∷ t ∷ ss) k v pre old hv hp (hk, hn) (he, hs) le =
      let here = skip_here 0 size gap 0 expected expected k v.storage in
      let below : ltb k expected ≡ true = ground (arith, le) in
      let rest = payloads (t ∷ ss) in
      let next : VideoFrameSlot = record {
        storage = insert_at (0 + size * k) s.payload v.storage;
        fec_list = set_ready (0 + k) v.fec_list;
      } in
      let longer : length (pre ++ s.payload) ≡ size * (k + 1) =
        omega (arith, length-append pre s.payload, hp, he) in
      rw (hk, here, below)
        (fill-payloads (t ∷ ss) (k + 1) next (pre ++ s.payload) old
            (written s k v.storage pre old hv hp ∙ sym (++_assoc pre s.payload old)) longer hn hs
            (omega (arith, le))
          ∙ ++_assoc pre s.payload (rest ++ old)
          ∙ ap (λ xs. pre ++ xs) (sym (++_assoc s.payload rest old)))

-- What is kept begins with the bytes.
kept_lem :
    (n : ℕ) (bytes old storage : List ℕ)
    → storage ≡ bytes ++ old
    → length bytes ≤ n
    → Holds bytes (packet (resize n storage))
kept_lem n bytes old storage e le =
    let filler = repeat (n - length storage) 0 in
    record {
      rest = take (n - length bytes) old ++ filler;
      reading =
          ap (λ xs. packet (take n xs ++ filler)) e
          ∙ ap (λ xs. packet (xs ++ filler)) (take_past n bytes old le)
          ∙ ap packet (++_assoc bytes (take (n - length bytes) old) filler);
    }

both_false : (b : Bool) → (b && false) ≡ false
both_false true = refl
both_false false = refl

module _ (decode : ℕ → ℕ → ℕ → List ℕ → List Bool → List ℕ × ℕ) where
  -- A slot that has all its data segments, of one size but the last, which is not longer, gives a packet
  -- that begins with their payloads, whatever parity segments it has and whatever was read before; the
  -- decoder is not needed.
  pub read_packet-Holds :
      (d : Segment) (ds parity : List Segment) (recovered : Bool) (v : VideoFrameSlot)
      → IsNumbered 0 (d ∷ ds)
      → IsEven (length d.payload) (d ∷ ds)
      → length (d ∷ ds) ≡ d.slices_num
      → Holds (payloads (d ∷ ds)) (read_packet decode true (d ∷ ds) parity recovered v).reading
  unfolding read_packet extract
  read_packet-Holds d ds parity recovered v hn he e =
      let size = length d.payload in
      let n = d.slices_num in
      let m = slices_of_first parity in
      let old = resize (size * (n + m)) v.storage in
      let cleared : VideoFrameSlot = record { storage = old; fec_list = repeat (n + m) false } in
      let complete : ltb (length (d ∷ ds)) n ≡ false = ground (arith, e) in
      let filled =
        fill-payloads size size n (d ∷ ds) 0 cleared [] old refl (omega arith) hn he
          (omega (arith, e)) in
      let short : length (payloads (d ∷ ds)) ≤ n * size =
        rw (sym e) (IsEven-payloads size (d ∷ ds) he) in
      rw (complete, both_false (is_without parity))
        (kept_lem (n * size) (payloads (d ∷ ds)) old
          (fill 0 size size 0 n (d ∷ ds) 0 cleared).storage filled short)
