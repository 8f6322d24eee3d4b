-- ===== src/InterestQueue/Serving.antt =====
-- No Interest stays in the queue: while there is one, the thread of the face has a call to make that
-- drains it (cpp/src/interest-queue.cpp).
use ndnrtc.Base.{
  ℕ, zero, suc, ◌+◌, ◌≤◌, ◌≡◌, refl, sym, ap, subst, ◌∙◌, ◌⊎◌, inl, inr, Bool, true, false, List,
  [], ◌∷◌, length, ℤ, arith,
}
use ndnrtc.InterestQueue.{
  Priorities, set_enqueue_timestamp, comes_after, make_priority, PriorityQueue, QueueEntry,
  InterestQueue, create, observe, reset, is_filled, drain_queue, safe_drain, enqueue_interest,
}
use ndnrtc.InterestQueue.Heaps.{HeapLaws, length-Permᴰ}
use ndnrtc.InterestQueue.Draining.{Drained, drain_queue-Drained}

module _ {I : Type 0} (H : PriorityQueue (QueueEntry I)) where
  -- A priority is made, an Interest enters with one, a call that waits is made, the queue is reset, an observer comes or goes.
  pub data Step : InterestQueue I → InterestQueue I → Type 0 where
    enqueued :
        (now : ℕ) (i : I) (p : ℕ) (q : InterestQueue I) → Step q (enqueue_interest H now i p q)
    prioritized : (p : ℕ) (delay : ℤ) (q : InterestQueue I) → Step q (make_priority p delay q)
    drained : (now : ℕ) (q : InterestQueue I) → Step q (safe_drain H now q)
    flushed : (q : InterestQueue I) → Step q (reset q)
    observed : (b : Bool) (q : InterestQueue I) → Step q (observe b q)

  pub data Reach : InterestQueue I → Type 0 where
    start : (priorities : Priorities) → Reach (create priorities)
    step : {q r : InterestQueue I} → Reach q → Step q r → Reach r

module _ {I : Type 0} where
  -- A drain waits while there is an Interest or the flag is set, and at most ten Interests wait.
  pub record IsLive (q : InterestQueue I) : Type 0 where
    pub flagged : is_filled q.queue ≡ true → q.is_draining_queue ≡ true
    pub awaited : q.is_draining_queue ≡ true → 1 ≤ q.drains
    pub short : length q.queue ≤ 10

module _ {I : Type 0} (H : PriorityQueue (QueueEntry I))
    (IsHeap : (QueueEntry I → QueueEntry I → Bool) → List (QueueEntry I) → Type 0)
    (laws : HeapLaws H IsHeap) where
  Drained-IsLive : (now : ℕ) (q r : InterestQueue I) → Drained H IsHeap laws now q r → IsLive r
  Drained-IsLive now q r d = record {
    flagged = λ h. let no = sym h ∙ ap is_filled d.emptied in ground (arith, no);
    awaited = λ h. let no = sym h ∙ d.stopped in ground (arith, no);
    short = let e = ap length d.emptied in omega (arith, e);
  }

  drain_queue-IsLive : (now : ℕ) (q : InterestQueue I) → IsLive (drain_queue H now q)
  drain_queue-IsLive now q =
      Drained-IsLive now q (drain_queue H now q) (drain_queue-Drained H IsHeap laws now q)

  safe_drain-IsLive : (now : ℕ) (q : InterestQueue I) → IsLive q → IsLive (safe_drain H now q)
  unfolding safe_drain
  safe_drain-IsLive now q k = by_drains q.drains
    where
      by_drains :
          (n : ℕ)
          → IsLive (elim n [ zero ↦ q | suc n ↦ drain_queue H now (record q { drains = n }) ])
      by_drains zero = k
      by_drains (suc n) = drain_queue-IsLive now (record q { drains = n })

  abbrev pub pushed : ℕ → I → ℕ → InterestQueue I → InterestQueue I
  pushed now i p q =
      let stamped = set_enqueue_timestamp p now q.priorities in
      record q {
        priorities = stamped;
        queue = H.push (comes_after now stamped) (record { interest = i; priority = p }) q.queue;
      }

  pushed-length :
      (now : ℕ) (i : I) (p : ℕ) (q : InterestQueue I)
      → length (pushed now i p q).queue ≡ suc (length q.queue)
  pushed-length now i p q =
      let x : QueueEntry I = record { interest = i; priority = p } in
      sym (
        length-Permᴰ (x ∷ q.queue) _
          (laws.push_same (comes_after now (set_enqueue_timestamp p now q.priorities)) x q.queue))

  pub enqueue_cases :
      (now : ℕ) (i : I) (p : ℕ) (q : InterestQueue I)
      → (q.is_draining_queue ≡ true
          × enqueue_interest H now i p q ≡ drain_queue H now (pushed now i p q))
        ⊎ (q.is_draining_queue ≡ true
            × length (pushed now i p q).queue ≤ 10
            × enqueue_interest H now i p q ≡ pushed now i p q)
        ⊎ (q.is_draining_queue ≡ false
            × enqueue_interest H now i p q
              ≡ record (pushed now i p q) { is_draining_queue = true; drains = q.drains + 1 })
  unfolding enqueue_interest
  enqueue_cases now i p q = ground arith

  filled_or_empty : (xs : List (QueueEntry I)) → (is_filled xs ≡ true) ⊎ (length xs ≡ 0)
  filled_or_empty [] = inr refl
  filled_or_empty (x ∷ xs) = inl refl

  idle_queue : (q : InterestQueue I) → IsLive q → q.is_draining_queue ≡ false → length q.queue ≡ 0
  idle_queue q k h = elim (filled_or_empty q.queue) [
    | inl f ↦ let no = sym (k.flagged f) ∙ h in ground (arith, no)
    | inr e ↦ e
  ]

  enqueue_interest-IsLive :
      (now : ℕ) (i : I) (p : ℕ) (q : InterestQueue I)
      → IsLive q
      → IsLive (enqueue_interest H now i p q)
  enqueue_interest-IsLive now i p q k = elim (enqueue_cases now i p q) [
    | inl (h, e) ↦ subst IsLive (sym e) (drain_queue-IsLive now (pushed now i p q))
    | inr (inl (h, le, e)) ↦
        subst IsLive (sym e) record { flagged = λ f. h; awaited = k.awaited; short = le }
    | inr (inr (h, e)) ↦ subst IsLive (sym e) record {
      flagged = λ f. refl;
      awaited = λ f. omega arith;
      short = omega (arith, idle_queue q k h, pushed-length now i p q);
    }
  ]

  Step-IsLive : (q r : InterestQueue I) → Step H q r → IsLive q → IsLive r
  Step-IsLive _ _ (enqueued now i p q) k = enqueue_interest-IsLive now i p q k
  Step-IsLive _ _ (drained now q) k = safe_drain-IsLive now q k
  Step-IsLive _ _ (flushed q) k = record {
    flagged = λ f. ground (arith, f);
    awaited = k.awaited;
    short = omega arith;
  }
  Step-IsLive _ _ (prioritized p delay q) k = record {
    flagged = k.flagged;
    awaited = k.awaited;
    short = k.short;
  }
  Step-IsLive _ _ (observed b q) k = record {
    flagged = k.flagged;
    awaited = k.awaited;
    short = k.short;
  }

  -- In every state of a queue, an Interest that waits has a drain to come, that is flagged, and at most
  -- ten wait.
  pub Reach-IsLive : (q : InterestQueue I) → Reach H q → IsLive q
  Reach-IsLive _ (start priorities) = record {
    flagged = λ f. f;
    awaited = λ h. ground (arith, h);
    short = omega arith;
  }
  Reach-IsLive _ (step {q} {r} reach s) = Step-IsLive q r s (Reach-IsLive q reach)
