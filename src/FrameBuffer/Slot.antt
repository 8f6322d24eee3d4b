-- ===== src/FrameBuffer/Slot.antt =====
-- SlotSegment and BufferSlot (cpp/src/frame-buffer.cpp).
pub mod Assembly
pub mod Delivery
pub mod Header
pub mod History
pub mod Unseen
pub mod Queries
pub use ndnrtc.FrameBuffer.SlotState.{
  State, free, new, assembling, ready, locked, state_bit, Verification, unverified, failed,
  verified, Error, wrong_interest_name, slot_ready_or_locked, rightmost_interest, names_differ,
  incorrect_name, not_requested, not_ready, no_header, bad_interest_name, Attempt, returns, raises,
  end_of, Attempt-cases, SlotSegment, Slot,
}
use ndnrtc.Base.{
  ◌≡◌, ◌⊎◌, inl, inr, refl, ℕ, zero, suc, ◌+◌, ◌-◌, ◌*◌, Bool, true, false, not, ◌&&◌, ◌||◌, Option,
  none, some, List, [], ◌∷◌, ◌++◌, leb, ltb, ◌==◌, if◌then◌else◌,
}
use ndnrtc.FrameBuffer.Names.{
  Order, SampleClass, unknown_sample, SegmentClass, unknown_segment, data_segment, parity,
  SegmentKey, data_key, parity_key, same_key, Info, segment_key, Interest, CommonHeader,
  WireSegment, segment_weight, lookup, insert,
}

abbrev pub contains : SegmentKey → List SegmentKey → Bool
contains k [] = false
contains k (j ∷ js) = same_key j k || contains k js

is_blocked : State → Bool
is_blocked ready = true
is_blocked locked = true
is_blocked _ = false

become_new : State → State
become_new free = new
become_new s = s

is_locked : State → Bool
is_locked locked = true
is_locked _ = false

module _ {K : Type 0} where
  -- `BufferSlot` as its constructor leaves it. The default name info is `none`.
  unfoldable pub blank_slot : ℕ → Slot K
  blank_slot id = record {
    id = id;
    name = none;
    name_info = none;
    requested = [];
    fetched = [];
    last_fetched = none;
    segment_meta = false;
    header_meta = false;
    n_rtx = 0;
    assembled_size = 0;
    n_data_segments = 0;
    n_parity_segments = 0;
    has_original_segments = false;
    state = free;
    request_time_usec = 0;
    first_segment_time_usec = 0;
    assembled_time_usec = 0;
    assembled = 0;
    asm_level = (0, 1);
    verification = unverified;
  }

  unfoldable pub clear : Slot K → Slot K
  unfolding blank_slot
  clear s = blank_slot s.id

  -- The constructor of SlotSegment, for an Interest whose name is good.
  unfoldable pub slot_segment : Interest K → ℕ → SlotSegment K
  slot_segment i now = record {
    interest = i;
    received = none;
    request_time_usec = now;
    arrival_time_usec = 0;
    request_no = 1;
  }

  -- `getRoundTripDelayUsec`; `none` is -1.
  unfoldable pub round_trip_delay_usec : SlotSegment K → Option ℕ
  round_trip_delay_usec g =
      if g.arrival_time_usec == 0 then none else some (g.arrival_time_usec - g.request_time_usec)

  module _ ⦃o : Order K⦄ where
    name_matches : Option K → K → Bool
    name_matches none p = true
    name_matches (some n) p = o.eqb n p

    -- The key of an Interest enters `requested_`, or is counted as a retransmission.
    add_request : Slot K → SegmentKey → SlotSegment K → Slot K
    unfolding become_new
    add_request s k g = elim (lookup k s.requested) [
      | none ↦ record s { requested = insert k g s.requested; state = become_new s.state }
      | some old ↦ record s {
        n_rtx = s.n_rtx + 1;
        requested = insert k (record old { request_no = old.request_no + 1 }) s.requested;
        state = become_new s.state;
      }
    ]

    -- The slot takes the name of its first Interest.
    take_name : Slot K → Info K → ℕ → Slot K
    take_name s i now = elim s.name [
      | none ↦ record s { name = some i.prefix; name_info = some i; request_time_usec = now }
      | some n ↦ s
    ]

    request_key : Slot K → Info K → SegmentKey → Interest K → ℕ → Attempt (Slot K) (Unit {0})
    unfolding name_matches add_request take_name slot_segment
    request_key s info k i now =
        if name_matches s.name info.prefix
        then returns (add_request (take_name s info now) k (slot_segment i now)) tt
        else raises s names_differ

    -- One round of the loop of `segmentsRequested`.
    unfoldable pub request_one : Slot K → Interest K → ℕ → Attempt (Slot K) (Unit {0})
    unfolding request_key
    request_one s i now = elim i.info [
      | none ↦ raises s wrong_interest_name
      | some info ↦ elim (segment_key info) [
        | none ↦ raises s rightmost_interest
        | some k ↦
            if info.has_seq_no then request_key s info k i now else raises s rightmost_interest
      ]
    ]

    pub request_all : Slot K → List (Interest K) → ℕ → Attempt (Slot K) (Unit {0})
    unfolding is_blocked become_new request_one
    request_all s [] now = returns s tt
    request_all s (i ∷ is) now = elim (request_one s i now) [
      | returns t _ ↦ request_all t is now
      | raises t e ↦ raises t e
    ]

    -- The clock is read once for a call.
    unfoldable pub segments_requested : Slot K → List (Interest K) → ℕ → Attempt (Slot K) (Unit {0})
    unfolding request_all
    segments_requested s is now =
        if is_blocked s.state then raises s slot_ready_or_locked else request_all s is now

    -- The weights of what was fetched, added up.
    abbrev pub weight_of : Option (SlotSegment K) → ℕ
    weight_of none = 0
    weight_of (some g) = elim g.received [ none ↦ 0 | some w ↦ segment_weight w ]

    abbrev pub total_weight : List SegmentKey → List (SegmentKey × SlotSegment K) → ℕ
    total_weight [] m = 0
    total_weight (k ∷ ks) m = weight_of (lookup k m) + total_weight ks m

    -- The counters that a segment of each class sets.
    note_meta : Slot K → WireSegment K → Slot K
    note_meta s w = elim w.info.segment_class [
      | data_segment ↦ record s {
        segment_meta = true;
        n_data_segments = w.slices_num;
        header_meta = s.header_meta || w.info.seg_no == 0;
      }
      | parity ↦ record s { n_parity_segments = w.slices_num }
      | _ ↦ s
    ]

    note_first : State → Slot K → WireSegment K → ℕ → Slot K
    note_first new s w now = record s {
      name_info = some (let i = w.info in record i { seg_no = 0 });
      first_segment_time_usec = now;
    }
    note_first _ s w now = s

    note_weight : Slot K → WireSegment K → Slot K
    note_weight s w = record s {
      assembled_size = s.assembled_size + w.content_size;
      has_original_segments = w.is_original;
      assembled = s.assembled + segment_weight w;
    }

    -- `updateAssembledLevel` and the new state.
    note_level : Slot K → Slot K
    note_level s =
        if s.segment_meta
        then record s {
          asm_level = (total_weight s.fetched s.requested, 2 * s.n_data_segments);
          state = if leb (2 * s.n_data_segments) s.assembled then ready else assembling;
        }
        else s

    note_ready : State → Slot K → ℕ → Slot K
    note_ready ready s now = record s { assembled_time_usec = now }
    note_ready _ s now = s

    unfoldable pub update_consistency_state : Slot K → WireSegment K → ℕ → Slot K
    unfolding note_meta note_first note_weight note_level note_ready
    update_consistency_state s w now =
        let t = note_level (note_weight (note_meta (note_first s.state s w now) w) w) in
        note_ready t.state t now

    -- `setData`, and the entry in `fetched_`.
    fetch : Slot K → SegmentKey → SlotSegment K → WireSegment K → ℕ → Slot K
    fetch s k g w now = record s {
      requested = insert k (record g { received = some w; arrival_time_usec = now }) s.requested;
      fetched = k ∷ s.fetched;
      last_fetched = some k;
    }

    receive_key : Slot K → SegmentKey → WireSegment K → ℕ → Attempt (Slot K) (Option SegmentKey)
    unfolding fetch update_consistency_state
    receive_key s k w now = elim (lookup k s.requested) [
      | none ↦ raises s not_requested
      | some g ↦
          if contains k s.fetched
          then returns s (some k)
          else returns (update_consistency_state (fetch s k g w now) w now) (some k)
    ]

    receive_named : Slot K → WireSegment K → ℕ → Attempt (Slot K) (Option SegmentKey)
    unfolding receive_key
    receive_named s w now =
        if w.info.has_seq_no
        then elim (segment_key w.info) [
          | none ↦ raises s not_requested
          | some k ↦ receive_key s k w now
        ]
        else raises s not_requested

    -- The result is the key of the SlotSegment that is returned; `none` is the null pointer.
    unfoldable pub segment_received :
        Slot K → WireSegment K → ℕ → Attempt (Slot K) (Option SegmentKey)
    unfolding is_locked name_matches receive_named
    segment_received s w now =
        if is_locked s.state
        then returns s none
        else if name_matches s.name w.info.prefix
        then receive_named s w now
        else raises s incorrect_name
