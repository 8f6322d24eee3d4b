-- ===== src/FrameBuffer/Buffer.antt =====
-- SlotPool and Buffer (cpp/src/frame-buffer.cpp). The observers of a buffer are in
-- FrameBuffer.Queue; the averages of the assembling time and the log are left out.
pub mod Conservation
pub mod Contents
pub mod Lifetime
use ndnrtc.Base.{
  ℕ, zero, suc, ◌+◌, Bool, true, false, ◌&&◌, not, Option, none, some, List, [], ◌∷◌, ltb, leb,
  if◌then◌else◌, length, ◌++◌,
}
use ndnrtc.FrameBuffer.Names.{Order, SampleClass, key, SegmentKey, Info, Interest, WireSegment}
use ndnrtc.FrameBuffer.SampleMap.{find, put, erase}
use ndnrtc.FrameBuffer.Slot.{
  State, free, new, assembling, ready, locked, state_bit, Error, bad_interest_name, not_requested,
  Attempt, returns, raises, Slot, blank_slot, clear, segments_requested, segment_received,
}
use ndnrtc.FrameBuffer.Slot.Queries.{toggle_lock}

-- SlotPool; the head of the list is the back of the vector.
pub record Pool (K : Type 0) : Type 0 where
  pub capacity : ℕ
  pub slots : List (Slot K)

-- The indicators of the statistics storage that count.
pub record Counters : Type 0 where
  pub assembled_num : ℕ
  pub assembled_key_num : ℕ
  pub dropped_num : ℕ
  pub dropped_key_num : ℕ
  pub incomplete_num : ℕ
  pub incomplete_key_num : ℕ
  pub acquired_num : ℕ
  pub acquired_key_num : ℕ

pub record Buffer (K : Type 0) : Type 0 where
  pub pool : Pool K
  pub active_slots : List (K × Slot K)
  pub reserved_slots : List (K × Slot K)
  pub counters : Counters

-- BufferReceipt; the segment is `none` where the pointer is null.
pub record Receipt (K : Type 0) : Type 0 where
  pub slot : Slot K
  pub segment : Option SegmentKey
  pub old_state : State

newly_ready : State → State → Bool
newly_ready ready t = false
newly_ready _ ready = true
newly_ready _ _ = false

module _ {K : Type 0} where
  make_slots : ℕ → List (Slot K)
  unfolding blank_slot
  make_slots zero = []
  make_slots (suc n) = blank_slot n ∷ make_slots n

  -- A buffer with a new pool.
  unfoldable pub create : ℕ → Buffer K
  unfolding make_slots
  create capacity = record {
    pool = record { capacity = capacity; slots = make_slots capacity };
    active_slots = [];
    reserved_slots = [];
    counters = record {
      assembled_num = 0;
      assembled_key_num = 0;
      dropped_num = 0;
      dropped_key_num = 0;
      incomplete_num = 0;
      incomplete_key_num = 0;
      acquired_num = 0;
      acquired_key_num = 0;
    };
  }

  unfoldable pub pop : Pool K → Option (Slot K × Pool K)
  pop p = elim p.slots [ [] ↦ none | s ∷ ss ↦ some (s, record p { slots = ss }) ]

  -- A slot that finds the pool full is dropped.
  unfoldable pub push : Pool K → Slot K → Pool K × Bool
  push p s =
      if ltb (length p.slots) p.capacity
      then (record p { slots = clear s ∷ p.slots }, true)
      else (p, false)

  is_key_sample : Slot K → Bool
  is_key_sample s = elim s.name_info [
    | none ↦ false
    | some i ↦ elim i.sample_class [ key ↦ true | _ ↦ false ]
  ]

  -- The counters of a slot that leaves the buffer unplayed.
  count_dropped : Slot K → Counters → Counters
  unfolding is_key_sample
  count_dropped s c =
      let incomplete = if leb (state_bit s.state) (state_bit assembling) then 1 else 0 in
      let is_key = is_key_sample s in
      record c {
        dropped_num = c.dropped_num + 1;
        incomplete_num = c.incomplete_num + incomplete;
        dropped_key_num = c.dropped_key_num + (if is_key then 1 else 0);
        incomplete_key_num = c.incomplete_key_num + (if is_key then incomplete else 0);
      }

  count_assembled : Slot K → Counters → Counters
  unfolding is_key_sample
  count_assembled s c = record c {
    assembled_num = c.assembled_num + 1;
    assembled_key_num = c.assembled_key_num + (if is_key_sample s then 1 else 0);
  }

  push_all : Pool K → List (K × Slot K) → Pool K
  unfolding push
  push_all p [] = p
  push_all p ((k, s) ∷ m) = push_all (push p s).0 m

  -- Slots that are reserved stay so.
  unfoldable pub reset : Buffer K → Buffer K
  unfolding push_all
  reset b = record b { pool = push_all b.pool b.active_slots; active_slots = [] }

  module _ ⦃o : Order K⦄ where
    append_to : K → Interest K → List (K × List (Interest K)) → List (K × List (Interest K))
    append_to k i m = elim (find k m) [
      | none ↦ put k (i ∷ []) m
      | some is ↦ put k (is ++ (i ∷ [])) m
    ]

    -- The Interests of each sample, in their order; `none` is the exception for a bad name.
    by_sample :
        List (Interest K) → List (K × List (Interest K)) → Option (List (K × List (Interest K)))
    unfolding append_to
    by_sample [] m = some m
    by_sample (i ∷ is) m = elim i.info [
      | none ↦ none
      | some info ↦ by_sample is (append_to info.prefix i m)
    ]

    -- The slot of a sample; a new one is taken from the pool, if there is one.
    claim : Buffer K → K → Option (Slot K × Buffer K)
    unfolding pop
    claim b k = elim (find k b.active_slots) [
      | some s ↦ some (s, b)
      | none ↦ elim (pop b.pool) [
        | none ↦ none
        | some (s, p) ↦ some (s, record b { pool = p; active_slots = put k s b.active_slots })
      ]
    ]

    store : Buffer K → K → Slot K → Buffer K
    store b k s = record b { active_slots = put k s b.active_slots }

    request_sample : Buffer K → K → List (Interest K) → ℕ → Attempt (Buffer K) Bool
    unfolding claim store
    request_sample b k is now = elim (claim b k) [
      | none ↦ returns b false
      | some (s, c) ↦ elim (segments_requested s is now) [
        | returns t _ ↦ returns (store c k t) true
        | raises t e ↦ raises (store c k t) e
      ]
    ]

    request_samples : Buffer K → List (K × List (Interest K)) → ℕ → Attempt (Buffer K) Bool
    unfolding request_sample
    request_samples b [] now = returns b true
    request_samples b ((k, is) ∷ m) now = elim (request_sample b k is now) [
      | returns c true ↦ request_samples c m now
      | returns c false ↦ returns c false
      | raises c e ↦ raises c e
    ]

    unfoldable pub requested : Buffer K → List (Interest K) → ℕ → Attempt (Buffer K) Bool
    unfolding by_sample request_samples
    requested b is now = elim (by_sample is []) [
      | none ↦ raises b bad_interest_name
      | some m ↦ request_samples b m now
    ]

    -- What happens up to the calls of the observers.
    unfoldable pub received : Buffer K → WireSegment K → ℕ → Attempt (Buffer K) (Receipt K)
    unfolding store newly_ready count_assembled
    received b w now = elim (find w.info.prefix b.active_slots) [
      | none ↦ raises b not_requested
      | some s ↦ elim (segment_received s w now) [
        | raises t e ↦ raises (store b w.info.prefix t) e
        | returns t k ↦
            let c = store b w.info.prefix t in
            let counted =
              if newly_ready s.state t.state
              then record c { counters = count_assembled t c.counters }
              else c in
            returns counted (record { slot = t; segment = k; old_state = s.state })
      ]
    ]

    unfoldable pub is_requested : Buffer K → WireSegment K → Bool
    is_requested b w = elim (find w.info.prefix b.active_slots) [ none ↦ false | some s ↦ true ]

    -- `none` is the failed assertion.
    unfoldable pub invalidate : Buffer K → K → Option (Buffer K)
    unfolding push count_dropped
    invalidate b k = elim (find k b.active_slots) [
      | none ↦ none
      | some s ↦ some (record b {
        pool = (push b.pool s).0;
        active_slots = erase k b.active_slots;
        counters = count_dropped s b.counters;
      })
    ]

    -- The slots from the first on go until the key is not below `k`, which is where the loop of the
    -- code, that compares with `lower_bound`, ends.
    drop_below : K → Pool K → Counters → List (K × Slot K) → Pool K × Counters × List (K × Slot K)
    unfolding push count_dropped
    drop_below k p c [] = (p, c, [])
    drop_below k p c ((j, s) ∷ m) =
        let rest = drop_below k (push p s).0 (count_dropped s c) m in
        if o.lt j k then rest else (p, c, (j, s) ∷ m)

    unfoldable pub invalidate_previous : Buffer K → K → Buffer K
    unfolding drop_below
    invalidate_previous b k =
        let (p, c, m) = drop_below k b.pool b.counters b.active_slots in
        record b { pool = p; counters = c; active_slots = m }

    pub move_to_reserved : Buffer K → K → Slot K → Buffer K
    move_to_reserved b k s = record b {
      active_slots = erase k b.active_slots;
      reserved_slots = put k s b.reserved_slots;
    }

    -- The slot that is reserved under the prefix already, if there is one, is overwritten.
    unfoldable pub reserve_slot : Buffer K → K → Attempt (Buffer K) (Unit {0})
    unfolding move_to_reserved
    reserve_slot b k = elim (find k b.active_slots) [
      | none ↦ returns b tt
      | some s ↦ elim (toggle_lock s) [
        | returns t _ ↦ returns (move_to_reserved b k t) tt
        | raises t e ↦ raises (move_to_reserved b k t) e
      ]
    ]

    unfoldable pub release_slot : Buffer K → K → Buffer K
    unfolding push
    release_slot b k = elim (find k b.reserved_slots) [
      | none ↦ b
      | some s ↦ record b { pool = (push b.pool s).0; reserved_slots = erase k b.reserved_slots }
    ]
