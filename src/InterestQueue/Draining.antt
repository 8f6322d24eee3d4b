-- ===== src/InterestQueue/Draining.antt =====
-- What a drain of the queue expresses, and in which order (cpp/src/interest-queue.cpp).
use mathlib.Core.List.{Permᴰ}
use ndnrtc.Base.{
  ℕ, zero, suc, ◌+◌, ◌≡◌, refl, sym, ap, subst, ◌∙◌, Bool, true, false, List, [], ◌∷◌, ◌++◌,
  ++_assoc, length, length-append, All, arith,
}
use ndnrtc.InterestQueue.{
  Priorities, QueueEntry, comes_after, PriorityQueue, InterestQueue, is_filled, drain_one,
  drain_loop, drain_queue,
}
use ndnrtc.InterestQueue.Heaps.{
  HeapLaws, IsFirst, IsFirst-Permᴰ, IsServed, IsServed-snoc, after_is_later, comes_after-IsPreorder,
  snoc-Permᴰ, length-Permᴰ,
}

module _ {I : Type 0} (H : PriorityQueue (QueueEntry I))
    (IsHeap : (QueueEntry I → QueueEntry I → Bool) → List (QueueEntry I) → Type 0)
    (laws : HeapLaws H IsHeap) where
  -- The container is a heap for the deadlines that its entries have.
  abbrev pub IsArranged : ℕ → InterestQueue I → Type 0
  IsArranged now q = IsHeap (comes_after now q.priorities) q.queue

  -- The state that draining leads to from another.
  pub record Drained (now : ℕ) (q r : InterestQueue I) : Type 0 where
    pub served : List (QueueEntry I)
    pub expressed : r.expressed ≡ served ++ q.expressed
    pub same : Permᴰ q.queue served
    pub in_order : IsArranged now q → IsServed q.priorities served
    pub sent : r.interests_sent_num ≡ q.interests_sent_num + length served
    pub emptied : r.queue ≡ []
    pub stopped : r.is_draining_queue ≡ false
    pub drains : r.drains ≡ q.drains

  none_left :
      (now : ℕ) (q : InterestQueue I)
      → q.queue ≡ []
      → q.is_draining_queue ≡ is_filled q.queue
      → Drained now q q
  none_left now q e h = record {
    served = [];
    expressed = refl;
    same = subst (λ xs. Permᴰ xs []) (sym e) Permᴰ.nil;
    in_order = λ k. tt;
    sent = omega arith;
    emptied = e;
    stopped = h ∙ ap is_filled e;
    drains = refl;
  }

  popped-IsFirst :
      (now : ℕ) (priorities : Priorities) (top : QueueEntry I) (es : List (QueueEntry I))
      → All (λ f. comes_after now priorities f top ≡ true) es
      → IsFirst priorities top es
  popped-IsFirst now priorities top [] h = tt
  popped-IsFirst now priorities top (f ∷ es) (k, h) =
      (after_is_later priorities now f top k, popped-IsFirst now priorities top es h)

  after_one :
      (now : ℕ) (e : QueueEntry I) (es : List (QueueEntry I)) (q r : InterestQueue I)
      → q.queue ≡ e ∷ es
      → Drained now (drain_one H now e es q) r
      → Drained now q r
  after_one now e es q r hq d =
      let after = comes_after now q.priorities in
      let (top, rest) = H.pop after e es in
      let same = laws.pop_same after e es in
      let ordered = comes_after-IsPreorder q.priorities now in
      record {
        served = d.served ++ top ∷ [];
        expressed = d.expressed ∙ sym (++_assoc d.served (top ∷ []) q.expressed);
        same =
            subst (λ xs. Permᴰ xs (d.served ++ top ∷ [])) (sym hq)
              (Permᴰ.trans same (Permᴰ.trans (Permᴰ.cons refl d.same) (snoc-Permᴰ top d.served)));
        in_order = λ k.
            let heap : IsHeap after (e ∷ es) = subst (IsHeap after) hq k in
            let first =
              popped-IsFirst now q.priorities top rest (laws.pop_first after e es ordered heap) in
            IsServed-snoc q.priorities d.served top
              (d.in_order (laws.pop_heap after e es ordered heap))
              (IsFirst-Permᴰ q.priorities top rest d.served d.same first);
        sent = omega (arith, d.sent, length-append d.served (top ∷ []));
        emptied = d.emptied;
        stopped = d.stopped;
        drains = d.drains;
      }

  drain_loop_lem :
      (now fuel : ℕ) (x : QueueEntry I) (xs : List (QueueEntry I)) (q : InterestQueue I)
      → q.queue ≡ x ∷ xs
      → drain_loop H now (suc fuel) q ≡ drain_loop H now fuel (drain_one H now x xs q)
  unfolding drain_loop
  drain_loop_lem now fuel x xs q hq =
      let after : List (QueueEntry I) → InterestQueue I =
        λ ys. elim ys [ [] ↦ q | e ∷ es ↦ drain_loop H now fuel (drain_one H now e es q) ] in
      ap after hq

  drain_loop-Drained :
      (now fuel : ℕ) (q : InterestQueue I) (xs : List (QueueEntry I))
      → q.queue ≡ xs
      → length xs ≡ fuel
      → q.is_draining_queue ≡ is_filled q.queue
      → Drained now q (drain_loop H now fuel q)
  unfolding drain_loop
  drain_loop-Drained now zero q [] hq e h = none_left now q hq h
  drain_loop-Drained now zero q (x ∷ xs) hq e h = let no : ⊥ = omega (arith, e) in elim no [ ]
  drain_loop-Drained now (suc fuel) q [] hq e h = let no : ⊥ = omega (arith, e) in elim no [ ]
  drain_loop-Drained now (suc fuel) q (x ∷ xs) hq e h =
      let next = drain_one H now x xs q in
      let size : length next.queue ≡ fuel =
        omega (arith, e, length-Permᴰ _ _ (laws.pop_same (comes_after now q.priorities) x xs)) in
      subst (Drained now q) (sym (drain_loop_lem now fuel x xs q hq)) (
        after_one now x xs q (drain_loop H now fuel next) hq
          (drain_loop-Drained now fuel next next.queue refl size refl))

  pub drain_queue-Drained : (now : ℕ) (q : InterestQueue I) → Drained now q (drain_queue H now q)
  unfolding drain_queue
  drain_queue-Drained now q =
      let r = record q { is_draining_queue = is_filled q.queue } in
      let d = drain_loop-Drained now (length q.queue) r q.queue refl refl refl in
      record {
        served = d.served;
        expressed = d.expressed;
        same = d.same;
        in_order = d.in_order;
        sent = d.sent;
        emptied = d.emptied;
        stopped = d.stopped;
        drains = d.drains;
      }
