-- ===== src/Tests/Queueing.antt =====
-- Concrete runs of the Interest queue, and the theorems about it at concrete inputs.
use mathlib.Core.List.{Permᴰ}
use mathlib.Core.List.Permᴰ as Permutation
use ndnrtc.Base.{
  ℕ, ◌≡◌, refl, sym, inl, inr, Bool, true, false, List, [], ◌∷◌, map, pos, ◌+ℤ◌, ◌-ℤ◌, All,
  if◌then◌else◌, Bool-cases,
}
use ndnrtc.InterestQueue.{
  Priorities, PriorityQueue, get_arrival_deadline_from_enqueue, get_value, comes_after,
  InterestQueue, create, make_priority, set_enqueue_timestamp, from_now, drain_loop, drain_queue,
  safe_drain, enqueue_interest,
}
use ndnrtc.InterestQueue.Heaps.{IsPreorder, HeapLaws, Agree}
use ndnrtc.InterestQueue.Serving.{enqueued, drained, start, step, IsLive, Reach-IsLive}

-- A priority queue that keeps its entries sorted.
module _ {E : Type 0} where
  abbrev insert : (E → E → Bool) → E → List E → List E
  insert c x [] = x ∷ []
  insert c x (y ∷ ys) = let rest = insert c x ys in if c x y then y ∷ rest else x ∷ y ∷ ys

  abbrev sorted : PriorityQueue E
  sorted = record { push = insert; pop = λ c e es. (e, es) }

  abbrev AreAfter : (E → E → Bool) → E → List E → Type 0
  AreAfter c x ys = All (λ y. c y x ≡ true) ys

  abbrev IsSorted : (E → E → Bool) → List E → Type 0
  IsSorted c [] = Unit
  IsSorted c (x ∷ xs) = AreAfter c x xs × IsSorted c xs

  insert-Permᴰ : (c : E → E → Bool) (x : E) (xs : List E) → Permᴰ (x ∷ xs) (insert c x xs)
  insert-Permᴰ c x [] = Permutation.refl (x ∷ [])
  insert-Permᴰ c x (y ∷ ys) = elim (Bool-cases (c x y)) [
    | inl h ↦ rw h (Permᴰ.trans (Permᴰ.swap refl refl) (Permᴰ.cons refl (insert-Permᴰ c x ys)))
    | inr h ↦ rw h (Permutation.refl (x ∷ y ∷ ys))
  ]

  insert-AreAfter :
      (c : E → E → Bool) (z x : E) (ys : List E)
      → c x z ≡ true
      → AreAfter c z ys
      → AreAfter c z (insert c x ys)
  insert-AreAfter c z x [] h k = (h, tt)
  insert-AreAfter c z x (y ∷ ys) h (k, ks) = elim (Bool-cases (c x y)) [
    | inl e ↦ rw e (k, insert-AreAfter c z x ys h ks)
    | inr e ↦ rw e (h, (k, ks))
  ]

  AreAfter-later :
      (c : E → E → Bool) (x y : E) (ys : List E)
      → IsPreorder c
      → c y x ≡ true
      → AreAfter c y ys
      → AreAfter c x ys
  AreAfter-later c x y [] o h k = tt
  AreAfter-later c x y (z ∷ zs) o h (k, ks) =
      (o.transitive z y x k h, AreAfter-later c x y zs o h ks)

  before : (c : E → E → Bool) (x y : E) → IsPreorder c → c x y ≡ false → c y x ≡ true
  before c x y o h = elim (o.total x y) [ inl k ↦ cc | inr k ↦ k ]

  insert-IsSorted :
      (c : E → E → Bool) (x : E) (xs : List E)
      → IsPreorder c
      → IsSorted c xs
      → IsSorted c (insert c x xs)
  insert-IsSorted c x [] o s = (tt, tt)
  insert-IsSorted c x (y ∷ ys) o (k, s) = elim (Bool-cases (c x y)) [
    | inl h ↦ rw h (insert-AreAfter c y x ys h k, insert-IsSorted c x ys o s)
    | inr h ↦
        let first = before c x y o h in rw h ((first, AreAfter-later c x y ys o first k), (k, s))
  ]

  agree_after :
      (c d : E → E → Bool) (x : E) (ys : List E)
      → All (λ y. c y x ≡ d y x) ys
      → AreAfter c x ys
      → AreAfter d x ys
  agree_after c d x [] a k = tt
  agree_after c d x (y ∷ ys) (e, a) (k, ks) = (rw (sym e) k, agree_after c d x ys a ks)

  firsts :
      (c d : E → E → Bool) (x : E) (xs ys : List E)
      → All (λ a. All (λ b. c a b ≡ d a b) (x ∷ xs)) ys
      → All (λ a. c a x ≡ d a x) ys
  firsts c d x xs [] a = tt
  firsts c d x xs (y ∷ ys) ((e, es), a) = (e, firsts c d x xs ys a)

  rests :
      (c d : E → E → Bool) (x : E) (xs ys : List E)
      → All (λ a. All (λ b. c a b ≡ d a b) (x ∷ xs)) ys
      → All (λ a. All (λ b. c a b ≡ d a b) xs) ys
  rests c d x xs [] a = tt
  rests c d x xs (y ∷ ys) ((e, es), a) = (es, rests c d x xs ys a)

  local-IsSorted : (c d : E → E → Bool) (xs : List E) → Agree c d xs → IsSorted c xs → IsSorted d xs
  local-IsSorted c d [] a s = tt
  local-IsSorted c d (x ∷ xs) (a, more) (k, s) = (
    agree_after c d x xs (firsts c d x xs xs more) k,
    local-IsSorted c d xs (rests c d x xs xs more) s,
  )

  sorted-HeapLaws : HeapLaws {E = E} sorted IsSorted
  sorted-HeapLaws = record {
    push_same = insert-Permᴰ;
    pop_same = λ c e es. Permutation.refl (e ∷ es);
    empty_heap = λ c. tt;
    push_heap = insert-IsSorted;
    pop_heap = λ c e es o s. s.1;
    pop_first = λ c e es o s. s.0;
    local = local-IsSorted;
  }

abbrev priorities : Priorities
priorities = λ n. record { arrival_delay_ms = pos 0; enqueued_ms = 0 }

-- The second of three Interests is due first.
abbrev three : InterestQueue ℕ
three = enqueue_interest sorted 102 3 2 (
    enqueue_interest sorted 101 2 1 (
      enqueue_interest sorted 100 1 0 (
        make_priority 2 (pos 60)
          (make_priority 1 (pos 40) (make_priority 0 (pos 50) (create priorities))))))

in_order : map (λ e. e.interest) (safe_drain sorted 103 three).expressed ≡ 3 ∷ 1 ∷ 2 ∷ []
unfolding safe_drain drain_queue drain_loop enqueue_interest comes_after get_value from_now
    set_enqueue_timestamp get_arrival_deadline_from_enqueue ◌+ℤ◌ ◌-ℤ◌
in_order = refl

-- The first and the third Interest share a priority. Stamping it again makes the first due at 158, after the
-- second, which is due at 152; but the first is still expressed first.
abbrev shared : InterestQueue ℕ
shared = enqueue_interest sorted 108 3 0 (
    enqueue_interest sorted 101 2 1 (
      enqueue_interest sorted 100 1 0
        (make_priority 1 (pos 51) (make_priority 0 (pos 50) (create priorities)))))

out_of_order : map (λ e. e.interest) (safe_drain sorted 109 shared).expressed ≡ 3 ∷ 2 ∷ 1 ∷ []
unfolding safe_drain drain_queue drain_loop enqueue_interest comes_after get_value from_now
    set_enqueue_timestamp get_arrival_deadline_from_enqueue ◌+ℤ◌ ◌-ℤ◌
out_of_order = refl

abbrev one : InterestQueue ℕ
one = enqueue_interest sorted 100 1 0 (create priorities)

Reach-IsLive_example : IsLive (safe_drain sorted 101 one)
Reach-IsLive_example =
    Reach-IsLive sorted IsSorted sorted-HeapLaws (safe_drain sorted 101 one)
      (step (step (start priorities) (enqueued 100 1 0 (create priorities))) (drained 101 one))
