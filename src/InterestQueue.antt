-- ===== src/InterestQueue.antt =====
-- InterestQueue: Interests wait in a priority queue, by the deadlines of their data, until they are
-- expressed on the thread of the face (cpp/src/interest-queue.cpp).
pub mod Heaps
pub mod Draining
pub mod Serving
pub mod Ordering
use ndnrtc.Base.{
  ℕ, zero, suc, ◌+◌, Bool, true, false, not, List, [], ◌∷◌, ◌++◌, length, ltb, ◌==◌, if◌then◌else◌,
  ℤ, pos, negsuc, ◌+ℤ◌, ◌-ℤ◌, ltb_ℤ,
}

-- DeadlinePriority
pub record DeadlinePriority : Type 0 where
  pub arrival_delay_ms : ℤ
  pub enqueued_ms : ℕ

-- The objects that the shared pointers to DeadlinePriority lead to.
abbrev pub Priorities : Type 0
Priorities = ℕ → DeadlinePriority

-- DeadlinePriority::setEnqueueTimestamp, of the object that `p` points to. Every entry with that pointer
-- has the new timestamp.
unfoldable pub set_enqueue_timestamp : ℕ → ℕ → Priorities → Priorities
set_enqueue_timestamp p now priorities n =
    if n == p then record (priorities n) { enqueued_ms = now } else priorities n

-- DeadlinePriority::fromNow: a new object, at the place `p`.
unfoldable pub from_now : ℕ → ℤ → Priorities → Priorities
from_now p delay priorities n =
    if n == p then record { arrival_delay_ms = delay; enqueued_ms = 0 } else priorities n

-- DeadlinePriority::getArrivalDeadlineFromEnqueue
unfoldable pub get_arrival_deadline_from_enqueue : DeadlinePriority → ℤ
get_arrival_deadline_from_enqueue p =
    if p.enqueued_ms == 0 then negsuc 0 else pos p.enqueued_ms +ℤ p.arrival_delay_ms

-- DeadlinePriority::getValue
unfoldable pub get_value : ℕ → DeadlinePriority → ℤ
unfolding get_arrival_deadline_from_enqueue
get_value now p = get_arrival_deadline_from_enqueue p -ℤ pos now

-- InterestQueue::QueueEntry. `priority` is a pointer, and `interest` has the callbacks.
pub record QueueEntry (I : Type 0) : Type 0 where
  pub interest : I
  pub priority : ℕ

-- QueueEntry::Comparator, inverted, on what the priorities are when it is called.
unfoldable pub comes_after : {I : Type 0} → ℕ → Priorities → QueueEntry I → QueueEntry I → Bool
comes_after now priorities e f =
    not (ltb_ℤ (get_value now (priorities e.priority)) (get_value now (priorities f.priority)))

-- std::priority_queue with a comparator: `push`, and `top` with `pop` of a queue `e ∷ es`. How it
-- arranges the entries the standard leaves open.
pub record PriorityQueue (E : Type 0) : Type 0 where
  pub push : (E → E → Bool) → E → List E → List E
  pub pop : (E → E → Bool) → E → List E → E × List E

-- InterestQueue. `drains` is the number of the calls of `safeDrain` that the thread of the face has yet to
-- make. `expressed` has what the face was given, and `issued` what the observer was told, latest first.
pub record InterestQueue (I : Type 0) : Type 0 where
  pub priorities : Priorities
  pub queue : List (QueueEntry I)
  pub is_draining_queue : Bool
  pub has_observer : Bool
  pub drains : ℕ
  pub expressed : List (QueueEntry I)
  pub issued : List I
  pub queue_size : ℕ
  pub interests_sent_num : ℕ

module _ {I : Type 0} where
  -- InterestQueue::InterestQueue
  abbrev pub create : Priorities → InterestQueue I
  create priorities = record {
    priorities = priorities;
    queue = [];
    is_draining_queue = false;
    has_observer = false;
    drains = 0;
    expressed = [];
    issued = [];
    queue_size = 0;
    interests_sent_num = 0;
  }

  -- InterestQueue::registerObserver and InterestQueue::unregisterObserver
  abbrev pub observe : Bool → InterestQueue I → InterestQueue I
  observe b q = record q { has_observer = b }

  -- InterestQueue::reset
  abbrev pub reset : InterestQueue I → InterestQueue I
  reset q = record q { queue = [] }

  -- `queue_.size() > 0`
  abbrev pub is_filled : List (QueueEntry I) → Bool
  is_filled [] = false
  is_filled (e ∷ es) = true

  -- InterestQueue::processEntry
  abbrev pub process_entry : QueueEntry I → InterestQueue I → InterestQueue I
  process_entry e q = record q {
    expressed = e ∷ q.expressed;
    issued = if q.has_observer then e.interest ∷ q.issued else q.issued;
    queue_size = length q.queue;
    interests_sent_num = q.interests_sent_num + 1;
  }

  -- An object of DeadlinePriority is made.
  abbrev pub make_priority : ℕ → ℤ → InterestQueue I → InterestQueue I
  make_priority p delay q = record q { priorities = from_now p delay q.priorities }

module _ {I : Type 0} (H : PriorityQueue (QueueEntry I)) where
  -- A round of the loop of drainQueue, at a time of its own.
  abbrev pub drain_one : ℕ → QueueEntry I → List (QueueEntry I) → InterestQueue I → InterestQueue I
  drain_one now e es q =
      let (top, rest) = H.pop (comes_after now q.priorities) e es in
      record (process_entry top q) { queue = rest; is_draining_queue = is_filled rest }

  -- The loop, for as many rounds as there are entries.
  unfoldable pub drain_loop : ℕ → ℕ → InterestQueue I → InterestQueue I
  drain_loop now zero q = q
  drain_loop now (suc fuel) q = elim q.queue [
    | [] ↦ q
    | e ∷ es ↦ drain_loop now fuel (drain_one now e es q)
  ]

  -- InterestQueue::drainQueue
  unfoldable pub drain_queue : ℕ → InterestQueue I → InterestQueue I
  drain_queue now q =
      drain_loop now (length q.queue) (record q { is_draining_queue = is_filled q.queue })

  -- InterestQueue::safeDrain, one of the calls that wait.
  unfoldable pub safe_drain : ℕ → InterestQueue I → InterestQueue I
  safe_drain now q = elim q.drains [ zero ↦ q | suc n ↦ drain_queue now (record q { drains = n }) ]

  -- InterestQueue::enqueueInterest, with the priority that `p` points to. It is stamped first, which
  -- changes the deadlines of the entries in the queue that share it.
  unfoldable pub enqueue_interest : ℕ → I → ℕ → InterestQueue I → InterestQueue I
  enqueue_interest now i p q =
      let entry : QueueEntry I = record { interest = i; priority = p } in
      let stamped = set_enqueue_timestamp p now q.priorities in
      let pushed = record q {
        priorities = stamped;
        queue = H.push (comes_after now stamped) entry q.queue;
      } in
      if q.is_draining_queue
      then (if ltb 10 (length pushed.queue) then drain_queue now pushed else pushed)
      else record pushed { is_draining_queue = true; drains = q.drains + 1 }
