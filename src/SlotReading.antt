-- ===== src/SlotReading.antt =====
-- VideoFrameSlot and AudioBundleSlot: the packet of the segments that a slot holds
-- (cpp/src/frame-buffer.cpp).
pub mod Whole
pub mod Bundles
use ndnrtc.Base.{
  ℕ, zero, suc, ◌+◌, ◌-◌, ◌*◌, Bool, true, false, not, ◌&&◌, List, [], ◌∷◌, ◌++◌, length, take,
  drop, ltb, leb, ◌==◌, if◌then◌else◌,
}

-- What is read of a fetched segment.
pub record Segment : Type 0 where
  pub seg_no : ℕ
  pub slices_num : ℕ
  pub payload : List ℕ

-- Results. `undefined` is the read of a segment of an empty map.
pub data Reading : Type 0 where
  wrong_slot no_packet undefined : Reading
  packet : List ℕ → Reading

-- VideoFrameSlot. `fec_list` tells the segments that are ready. The packet shares the storage, so it
-- holds until the next call.
pub record VideoFrameSlot : Type 0 where
  pub storage : List ℕ
  pub fec_list : List Bool

-- The result of `readPacket`, the slot after it, and `recovered`.
pub record Outcome : Type 0 where
  pub reading : Reading
  pub slot : VideoFrameSlot
  pub recovered : Bool

-- `resize`, `insert` and `assign` of a vector.
abbrev pub repeat : {A : Type 0} → ℕ → A → List A
repeat zero x = []
repeat (suc n) x = x ∷ repeat n x

abbrev pub resize : ℕ → List ℕ → List ℕ
resize n xs = take n xs ++ repeat (n - length xs) 0

abbrev pub insert_at : ℕ → List ℕ → List ℕ → List ℕ
insert_at n ys xs = take n xs ++ ys ++ drop n xs

abbrev pub set_ready : ℕ → List Bool → List Bool
set_ready n [] = []
set_ready zero (b ∷ bs) = true ∷ bs
set_ready (suc n) (b ∷ bs) = b ∷ set_ready n bs

abbrev pub size_of_first : List Segment → ℕ
size_of_first [] = 0
size_of_first (s ∷ ss) = length s.payload

abbrev pub slices_of_first : List Segment → ℕ
slices_of_first [] = 0
slices_of_first (s ∷ ss) = s.slices_num

-- One of the two loops of readPacket. Segments start at `base`, each `size` long, `expected` of them;
-- a missing one is `gap` zeros, and `offset` is where they start in the list of what is ready.
module _ (base size gap offset expected : ℕ) where
  -- The inner loop, that ends within `expected` rounds.
  abbrev pub skip_to : ℕ → ℕ → ℕ → List ℕ → ℕ × List ℕ
  skip_to zero target seg_no storage = (seg_no, storage)
  skip_to (suc fuel) target seg_no storage =
      let rest =
        skip_to fuel target (seg_no + 1)
          (insert_at (base + size * seg_no) (repeat gap 0) storage) in
      if not (seg_no == target) && ltb seg_no expected then rest else (seg_no, storage)

  unfoldable pub fill : List Segment → ℕ → VideoFrameSlot → VideoFrameSlot
  fill [] seg_no v = v
  fill (s ∷ ss) seg_no v =
      let (at, storage) = skip_to expected s.seg_no seg_no v.storage in
      let written : VideoFrameSlot = record {
        storage = insert_at (base + size * at) s.payload storage;
        fec_list = set_ready (offset + at) v.fec_list;
      } in
      let next = fill ss (at + 1) written in
      let last = fill ss at (record v { storage = storage }) in
      if ltb at expected then next else last

abbrev pub is_without : List Segment → Bool
is_without [] = true
is_without (s ∷ ss) = false

-- `decode` is the decoder of OpenFEC: it is given the numbers of data and parity segments, their size,
-- the storage and what is ready, and it returns the storage and the number of segments that it recovers.
module _ (decode : ℕ → ℕ → ℕ → List ℕ → List Bool → List ℕ × ℕ) where
  -- The case in which data segments are missing.
  unfoldable pub recover : ℕ → ℕ → ℕ → List Segment → ℕ → VideoFrameSlot → Outcome
  recover n m size parity have v =
      let filled = fill (n * size) (size_of_first parity) size n m parity 0 v in
      let (storage, n_recovered) = decode n m size filled.storage filled.fec_list in
      let recovered = leb n (n_recovered + have) in
      let kept = resize (n * size) storage in
      record {
        reading = if recovered then packet kept else no_packet;
        slot = record filled { storage = kept };
        recovered = recovered;
      }

  -- readPacket, when it extracts.
  unfoldable pub extract : Segment → List Segment → List Segment → Bool → VideoFrameSlot → Outcome
  extract d ds parity recovered v =
      let size = length d.payload in
      let n = d.slices_num in
      let m = slices_of_first parity in
      let cleared : VideoFrameSlot = record {
        storage = resize (size * (n + m)) v.storage;
        fec_list = repeat (n + m) false;
      } in
      let filled = fill 0 size size 0 n (d ∷ ds) 0 cleared in
      let kept = resize (n * size) filled.storage in
      if ltb (length (d ∷ ds)) n then recover n m size parity (length (d ∷ ds)) filled else record {
        reading = packet kept;
        slot = record filled { storage = kept };
        recovered = recovered;
      }

  -- VideoFrameSlot::readPacket. `data_segments` and `parity` are the segments of the slot below and above
  -- the component of parity, by their names. The first test reads the first data segment before it is known that
  -- there is one.
  unfoldable pub read_packet : Bool → List Segment → List Segment → Bool → VideoFrameSlot → Outcome
  read_packet is_video data_segments parity recovered v =
      if not is_video
      then record { reading = wrong_slot; slot = v; recovered = recovered }
      else (elim data_segments [
        | [] ↦ record {
          reading = if is_without parity then undefined else no_packet;
          slot = v;
          recovered = if is_without parity then recovered else false;
        }
        | d ∷ ds ↦
            if is_without parity && ltb (length (d ∷ ds)) d.slices_num
            then record { reading = no_packet; slot = v; recovered = false }
            else extract d ds parity recovered v
      ])

-- The loop of readBundle.
abbrev pub insert_all : List Segment → List ℕ → List ℕ
insert_all [] storage = storage
insert_all (s ∷ ss) storage = insert_all ss (insert_at 0 s.payload storage)

-- AudioBundleSlot::readBundle, of a storage: the result and the storage after it. `is_assembled` is that
-- the assembled level is not below 1.
unfoldable pub read_bundle : Bool → Bool → List Segment → List ℕ → Reading × List ℕ
read_bundle is_audio is_assembled segments storage =
    let sized = resize (size_of_first segments * slices_of_first segments) storage in
    let read = insert_all segments sized in
    if not is_audio
    then (wrong_slot, storage)
    else (if is_assembled then (packet read, read) else (no_packet, storage))
