-- ===== src/InterestQueue/Ordering.antt =====
-- When the entries of the queue stay a heap for their deadlines (cpp/src/interest-queue.cpp).
use ndnrtc.Base.{ℕ, ◌≡◌, refl, sym, subst, inl, inr, Bool, false, List, [], ◌∷◌, All, ◌==◌}
use ndnrtc.InterestQueue.{
  Priorities, set_enqueue_timestamp, QueueEntry, comes_after, PriorityQueue, InterestQueue,
  drain_queue, enqueue_interest,
}
use ndnrtc.InterestQueue.Heaps.{HeapLaws, Agree, comes_after-IsPreorder}
use ndnrtc.InterestQueue.Draining.{IsArranged, drain_queue-Drained}
use ndnrtc.InterestQueue.Serving.{pushed, enqueue_cases}

unstamped :
    (p now n : ℕ) (priorities : Priorities)
    → (n == p) ≡ false
    → set_enqueue_timestamp p now priorities n ≡ priorities n
unfolding set_enqueue_timestamp
unstamped p now n priorities h = rw h refl

module _ {I : Type 0} where
  -- No entry has the priority that `p` points to.
  abbrev pub IsUnshared : ℕ → List (QueueEntry I) → Type 0
  IsUnshared p es = All (λ e. (e.priority == p) ≡ false) es

  same_comparison :
      (p now : ℕ) (priorities : Priorities) (a b : QueueEntry I)
      → (a.priority == p) ≡ false
      → (b.priority == p) ≡ false
      → comes_after now priorities a b
        ≡ comes_after now (set_enqueue_timestamp p now priorities) a b
  unfolding comes_after
  same_comparison p now priorities a b ha hb =
      rw (unstamped p now a.priority priorities ha, unstamped p now b.priority priorities hb) refl

  stamped-Agree :
      (p now : ℕ) (priorities : Priorities) (es : List (QueueEntry I))
      → IsUnshared p es
      → Agree
          (comes_after now priorities)
          (comes_after now (set_enqueue_timestamp p now priorities))
          es
  stamped-Agree p now priorities es h = outer es h
    where
      inner :
          (a : QueueEntry I)
          → (a.priority == p) ≡ false
          → (bs : List (QueueEntry I)) → IsUnshared p bs
          → All
              (λ b.
                comes_after now priorities a b
                ≡ comes_after now (set_enqueue_timestamp p now priorities) a b)
              bs
      inner a ha [] k = tt
      inner a ha (b ∷ bs) (hb, k) = (same_comparison p now priorities a b ha hb, inner a ha bs k)

      outer :
          (bs : List (QueueEntry I))
          → IsUnshared p bs
          → All
              (λ a.
                All
                  (λ b.
                    comes_after now priorities a b
                    ≡ comes_after now (set_enqueue_timestamp p now priorities) a b)
                  es)
              bs
      outer [] k = tt
      outer (a ∷ bs) (ha, k) = (inner a ha es h, outer bs k)

  module _ (H : PriorityQueue (QueueEntry I))
      (IsHeap : (QueueEntry I → QueueEntry I → Bool) → List (QueueEntry I) → Type 0)
      (laws : HeapLaws H IsHeap) where
    pushed-IsArranged :
        (now : ℕ) (i : I) (p : ℕ) (q : InterestQueue I)
        → IsUnshared p q.queue
        → IsArranged H IsHeap laws now q
        → IsArranged H IsHeap laws now (pushed H IsHeap laws now i p q)
    pushed-IsArranged now i p q h k =
        let stamped = set_enqueue_timestamp p now q.priorities in
        laws.push_heap (comes_after now stamped) (record { interest = i; priority = p }) q.queue
          (comes_after-IsPreorder stamped now)
          (laws.local (comes_after now q.priorities) (comes_after now stamped) q.queue
            (stamped-Agree p now q.priorities q.queue h) k)

    -- An Interest that enters with a priority which no entry in the queue shares leaves the entries a heap for their
    -- deadlines.
    pub enqueue_interest-IsArranged :
        (now : ℕ) (i : I) (p : ℕ) (q : InterestQueue I)
        → IsUnshared p q.queue
        → IsArranged H IsHeap laws now q
        → IsArranged H IsHeap laws now (enqueue_interest H now i p q)
    enqueue_interest-IsArranged now i p q h k = elim (enqueue_cases H IsHeap laws now i p q) [
      | inl (f, e) ↦
          let d = drain_queue-Drained H IsHeap laws now (pushed H IsHeap laws now i p q) in
          let after =
            comes_after now (drain_queue H now (pushed H IsHeap laws now i p q)).priorities in
          subst (IsArranged H IsHeap laws now) (sym e)
            (subst (IsHeap after) (sym d.emptied) (laws.empty_heap after))
      | inr (inl (f, le, e)) ↦
          subst (IsArranged H IsHeap laws now) (sym e) (pushed-IsArranged now i p q h k)
      | inr (inr (f, e)) ↦
          subst (IsArranged H IsHeap laws now) (sym e) (pushed-IsArranged now i p q h k)
    ]
