-- ===== src/InterestQueue/Heaps.antt =====
-- Deadlines, orders of Interests by them, and what is relied on of std::priority_queue
-- (cpp/src/interest-queue.cpp).
use mathlib.Core.List.{Permᴰ}
use ndnrtc.Base.{
  not, ℕ, suc, ◌≡◌, refl, sym, ap, subst, ◌∙◌, ◌⊎◌, inl, inr, Bool, true, false, List, [], ◌∷◌,
  ◌++◌, length, All, ℤ, pos, ◌-ℤ◌, ◌≤ℤ◌, ltb_ℤ, arith,
}
use ndnrtc.InterestQueue.{
  Priorities, QueueEntry, get_arrival_deadline_from_enqueue, get_value, comes_after, PriorityQueue,
}

-- A comparison that holds of two elements in one order at least, and is transitive.
pub record IsPreorder {E : Type 0} (cmp : E → E → Bool) : Type 0 where
  pub total : (a b : E) → (cmp a b ≡ true) ⊎ (cmp b a ≡ true)
  pub transitive : (a b c : E) → cmp a b ≡ true → cmp b c ≡ true → cmp a c ≡ true

-- Both comparisons agree on the elements of a list.
abbrev pub Agree : {E : Type 0} → (E → E → Bool) → (E → E → Bool) → List E → Type 0
Agree c d xs = All (λ a. All (λ b. c a b ≡ d a b) xs) xs

-- What a std::priority_queue does: whatever the comparison, its entries are what was pushed and not
-- popped; where they are a heap for the comparison, they stay one, and the top comes after none.
pub record HeapLaws {E : Type 0} (H : PriorityQueue E) (IsHeap : (E → E → Bool) → List E → Type 0)
    : Type 0 where
  pub push_same : (c : E → E → Bool) (x : E) (xs : List E) → Permᴰ (x ∷ xs) (H.push c x xs)
  pub pop_same :
      (c : E → E → Bool) (e : E) (es : List E)
      → Permᴰ (e ∷ es) ((H.pop c e es).0 ∷ (H.pop c e es).1)
  pub empty_heap : (c : E → E → Bool) → IsHeap c []
  pub push_heap :
      (c : E → E → Bool) (x : E) (xs : List E)
      → IsPreorder c
      → IsHeap c xs
      → IsHeap c (H.push c x xs)
  pub pop_heap :
      (c : E → E → Bool) (e : E) (es : List E)
      → IsPreorder c
      → IsHeap c (e ∷ es)
      → IsHeap c (H.pop c e es).1
  pub pop_first :
      (c : E → E → Bool) (e : E) (es : List E)
      → IsPreorder c
      → IsHeap c (e ∷ es)
      → All (λ f. c f (H.pop c e es).0 ≡ true) (H.pop c e es).1
  pub local : (c d : E → E → Bool) (xs : List E) → Agree c d xs → IsHeap c xs → IsHeap d xs

shifted : (x y t : ℤ) → ltb_ℤ (x -ℤ t) (y -ℤ t) ≡ ltb_ℤ x y
unfolding ◌-ℤ◌
shifted x y t = ground arith

not_below : (x y : ℤ) → ltb_ℤ x y ≡ false → y ≤ℤ x
not_below x y h = ground arith

≤ℤ_trans : (x y z : ℤ) → x ≤ℤ y → y ≤ℤ z → x ≤ℤ z
≤ℤ_trans x y z h k = omega (arith, h, k)

negated : (b : Bool) → not b ≡ true → b ≡ false
negated false h = refl
negated true h = sym h

not_later : (x y : ℤ) → y ≤ℤ x → not (ltb_ℤ x y) ≡ true
not_later x y h = ground arith

≤ℤ_total : (x y : ℤ) → (x ≤ℤ y) ⊎ (y ≤ℤ x)
≤ℤ_total x y = ground arith

pub is_true : (b : Bool) → (b ≡ true) ⊎ (b ≡ false)
is_true true = inl refl
is_true false = inr refl

module _ {I : Type 0} (priorities : Priorities) where
  abbrev pub deadline : QueueEntry I → ℤ
  deadline e = get_arrival_deadline_from_enqueue (priorities e.priority)

  -- The entry's deadline is not after any of theirs.
  abbrev pub IsFirst : QueueEntry I → List (QueueEntry I) → Type 0
  IsFirst e es = All (λ f. deadline e ≤ℤ deadline f) es

  -- The comparison at a time is that of the deadlines.
  comes_after_lem :
      (now : ℕ) (e f : QueueEntry I)
      → comes_after now priorities e f ≡ not (ltb_ℤ (deadline e) (deadline f))
  unfolding comes_after get_value
  comes_after_lem now e f = ap not (shifted (deadline e) (deadline f) (pos now))

  pub after_is_later :
      (now : ℕ) (e f : QueueEntry I)
      → comes_after now priorities e f ≡ true
      → deadline f ≤ℤ deadline e
  after_is_later now e f h =
      not_below (deadline e) (deadline f) (negated _ (sym (comes_after_lem now e f) ∙ h))

  later_is_after :
      (now : ℕ) (e f : QueueEntry I)
      → deadline f ≤ℤ deadline e
      → comes_after now priorities e f ≡ true
  later_is_after now e f h = comes_after_lem now e f ∙ not_later (deadline e) (deadline f) h

  pub comes_after-IsPreorder : (now : ℕ) → IsPreorder (comes_after {I = I} now priorities)
  comes_after-IsPreorder now = record {
    total = λ a b. elim (≤ℤ_total (deadline b) (deadline a)) [
      | inl h ↦ inl (later_is_after now a b h)
      | inr h ↦ inr (later_is_after now b a h)
    ];
    transitive = λ a b c h k. later_is_after now a c (
        ≤ℤ_trans (deadline c) (deadline b) (deadline a) (after_is_later now b c k)
          (after_is_later now a b h));
  }

  -- The time of a comparison does not matter.
  pub comes_after_now :
      (now later : ℕ) (e f : QueueEntry I)
      → comes_after now priorities e f ≡ comes_after later priorities e f
  comes_after_now now later e f = comes_after_lem now e f ∙ sym (comes_after_lem later e f)

  pub IsFirst-Permᴰ :
      (e : QueueEntry I) (xs ys : List (QueueEntry I)) → Permᴰ xs ys → IsFirst e xs → IsFirst e ys
  IsFirst-Permᴰ e _ _ Permᴰ.nil k = tt
  IsFirst-Permᴰ e _ _ (Permᴰ.cons {l₁ = xs} {l₂ = ys} p r) (k, ks) =
      (subst (λ f. deadline e ≤ℤ deadline f) p k, IsFirst-Permᴰ e xs ys r ks)
  IsFirst-Permᴰ e _ _ (Permᴰ.swap p q) (k, (l, ks)) =
      (subst (λ f. deadline e ≤ℤ deadline f) q l, (subst (λ f. deadline e ≤ℤ deadline f) p k, ks))
  IsFirst-Permᴰ e _ _ (Permᴰ.trans {l₁ = xs} {l₂ = ys} {l₃ = zs} r t) k =
      IsFirst-Permᴰ e ys zs t (IsFirst-Permᴰ e xs ys r k)

  -- Expressed in the order of the deadlines, latest first in the list.
  abbrev pub IsServed : List (QueueEntry I) → Type 0
  IsServed [] = Unit
  IsServed (e ∷ es) = All (λ f. deadline f ≤ℤ deadline e) es × IsServed es

  pub IsServed-snoc :
      (es : List (QueueEntry I)) (e : QueueEntry I)
      → IsServed es
      → IsFirst e es
      → IsServed (es ++ e ∷ [])
  IsServed-snoc [] e s k = (tt, tt)
  IsServed-snoc (f ∷ es) e (h, s) (k, ks) = (after_all es h, IsServed-snoc es e s ks)
    where
      after_all :
          (xs : List (QueueEntry I))
          → All (λ g. deadline g ≤ℤ deadline f) xs
          → All (λ g. deadline g ≤ℤ deadline f) (xs ++ e ∷ [])
      after_all [] h = (k, tt)
      after_all (x ∷ xs) (h, hs) = (h, after_all xs hs)

module _ {I : Type 0} where
  pub snoc-Permᴰ : (e : QueueEntry I) (es : List (QueueEntry I)) → Permᴰ (e ∷ es) (es ++ e ∷ [])
  snoc-Permᴰ e [] = Permᴰ.cons refl Permᴰ.nil
  snoc-Permᴰ e (f ∷ es) = Permᴰ.trans (Permᴰ.swap refl refl) (Permᴰ.cons refl (snoc-Permᴰ e es))

  pub length-Permᴰ : (xs ys : List (QueueEntry I)) → Permᴰ xs ys → length xs ≡ length ys
  length-Permᴰ _ _ Permᴰ.nil = refl
  length-Permᴰ _ _ (Permᴰ.cons {l₁ = xs} {l₂ = ys} p r) = ap suc (length-Permᴰ xs ys r)
  length-Permᴰ _ _ (Permᴰ.swap p q) = refl
  length-Permᴰ _ _ (Permᴰ.trans {l₁ = xs} {l₂ = ys} {l₃ = zs} r t) =
      length-Permᴰ xs ys r ∙ length-Permᴰ ys zs t
