-- ===== src/SegmentController.antt =====
-- cpp/src/segment-controller.cpp with the timer of cpp/src/periodic.cpp. Observers are told apart by
-- what they are notified of; attaching and detaching them, and the log, are left out.
pub mod Starvation
use ndnrtc.Base.{
  ℕ, ◌+◌, ◌-◌, Bool, true, false, not, Option, none, some, List, [], ◌∷◌, leb, ◌==◌, if◌then◌else◌,
}

-- The counters in the statistics storage.
pub record Counters : Type 0 where
  pub app_nack_num : ℕ
  pub segments_received_num : ℕ
  pub bytes_received : ℕ
  pub raw_bytes_received : ℕ
  pub timeouts_num : ℕ
  pub nacks_num : ℕ

-- SegmentControllerImpl; `due` is when the timer goes off while the invocation is running.
pub record Controller : Type 0 where
  pub active : Bool
  pub max_idle_time_ms : ℕ
  pub last_data_timestamp_ms : ℕ
  pub starvation_fired : Bool
  pub is_running : Bool
  pub due : ℕ
  pub counters : Counters

-- What the callbacks of the face get of a Data packet: whether its type is an application's nack,
-- the segment that its name and the Interest give if the name is good, and the sizes.
pub record Data (S : Type 0) : Type 0 where
  pub is_app_nack : Bool
  pub segment : Option S
  pub is_valid : Bool
  pub content_size : ℕ
  pub wire_size : ℕ

-- `is_other_code` tells whether the reason is the library's code for a reason of another kind.
pub record NetworkNack : Type 0 where
  pub is_other_code : Bool
  pub reason : ℕ
  pub other_reason_code : ℕ

-- ISegmentControllerObserver
pub data Notice (S I : Type 0) : Type 0 where
  segment_arrived : S → Notice S I
  segment_request_timeout : I → Notice S I
  segment_nack : ℕ → I → Notice S I
  segment_starvation : Notice S I

-- The constructor.
unfoldable pub create : ℕ → Controller
create max_idle_time_ms = record {
  active = false;
  max_idle_time_ms = max_idle_time_ms;
  last_data_timestamp_ms = 0;
  starvation_fired = false;
  is_running = false;
  due = 0;
  counters = record {
    app_nack_num = 0;
    segments_received_num = 0;
    bytes_received = 0;
    raw_bytes_received = 0;
    timeouts_num = 0;
    nacks_num = 0;
  };
}

-- `none` is the exception of `setupInvocation` when the timer runs already.
unfoldable pub setup_invocation : Controller → ℕ → ℕ → Option Controller
setup_invocation c interval_ms now =
    if c.is_running then none else some (record c { is_running = true; due = now + interval_ms })

unfoldable pub cancel_invocation : Controller → Controller
cancel_invocation c = record c { is_running = false }

unfoldable pub set_is_active : Controller → Bool → ℕ → Option Controller
unfolding setup_invocation cancel_invocation
set_is_active c false now = some (cancel_invocation (record c { active = false }))
set_is_active c true now =
    setup_invocation (record c { active = true; last_data_timestamp_ms = now }) c.max_idle_time_ms
      now

count_app_nack : Controller → Controller
count_app_nack c =
    let n = c.counters in record c { counters = record n { app_nack_num = n.app_nack_num + 1 } }

count_received : {S : Type 0} → Controller → Data S → Controller
count_received c d =
    let n = c.counters in
    record c {
      counters = record n {
        segments_received_num = n.segments_received_num + 1;
        bytes_received = n.bytes_received + d.content_size;
        raw_bytes_received = n.raw_bytes_received + d.wire_size;
      };
    }

nack_reason : NetworkNack → ℕ
nack_reason k = if k.is_other_code then k.other_reason_code else k.reason

module _ {S I : Type 0} where
  -- The work function: the controller, the next interval, and the notices. The comparison and the
  -- difference of the code are written without the idle time, which may be negative.
  unfoldable pub periodic_invocation : Controller → ℕ → Controller × ℕ × List (Notice S I)
  periodic_invocation c now =
      let limit = c.last_data_timestamp_ms + c.max_idle_time_ms in
      if leb limit now
      then (
        record c { starvation_fired = true },
        c.max_idle_time_ms,
        (if c.starvation_fired then [] else segment_starvation ∷ []),
      )
      else (c, limit - now, [])

  -- PeriodicImpl::fire, without an error.
  unfoldable pub fire : Controller → ℕ → Controller × List (Notice S I)
  unfolding periodic_invocation cancel_invocation
  fire c now =
      if c.is_running
      then (let (d, interval_ms, notices) = periodic_invocation c now in
          (
            (if interval_ms == 0
                then cancel_invocation d
                else record d { due = now + interval_ms }),
            notices,
          ))
      else (c, [])

  unfoldable pub on_data : Controller → Data S → ℕ → Controller × List (Notice S I)
  unfolding count_app_nack count_received
  on_data c d now =
      let fed = record c { last_data_timestamp_ms = now; starvation_fired = false } in
      if not c.active
      then (c, [])
      else if d.is_app_nack
      then (count_app_nack c, [])
      else elim d.segment [
        | none ↦ (fed, [])
        | some s ↦ if d.is_valid then (count_received fed d, segment_arrived s ∷ []) else (fed, [])
      ]

  -- The Interest is `none` when its name is bad.
  unfoldable pub on_timeout : Controller → Option I → Controller × List (Notice S I)
  on_timeout c none = (c, [])
  on_timeout c (some i) =
      let n = c.counters in
      if c.active
      then (
        record c { counters = record n { timeouts_num = n.timeouts_num + 1 } },
        segment_request_timeout i ∷ [],
      )
      else (c, [])

  unfoldable pub on_network_nack :
      Controller → Option I → NetworkNack → Controller × List (Notice S I)
  unfolding nack_reason
  on_network_nack c none k = (c, [])
  on_network_nack c (some i) k =
      let n = c.counters in
      if c.active
      then (
        record c { counters = record n { nacks_num = n.nacks_num + 1 } },
        segment_nack (nack_reason k) i ∷ [],
      )
      else (c, [])
