-- ===== src/Pipeliner/Filling.antt =====
-- What `fillUpPipeline` requests (cpp/src/pipeliner.cpp).
use ndnrtc.Base.{
  ℕ, zero, suc, ◌+◌, ◌-◌, ◌<◌, ◌≡◌, ◌≢◌, inl, inr, refl, false, none, some, List, [], ◌∷◌, ◌++◌,
  map, if◌then◌else◌, int_lt, int_mod, arith, ltb, ap, sym, subst, Bool-cases,
}
use ndnrtc.FrameBuffer.Names.{SampleClass, delta, Order, Interest}
use ndnrtc.FrameBuffer.Slot.{Attempt-cases, returns}
use ndnrtc.InterestControl.Defs.{increment, room}
use ndnrtc.Pipeliner.{
  Outside, Pipeliner, is_delta_class, counter, request, advance, get_batch, place, fill_one,
  fill_up_pipeline,
}

module _ {ℓ κ} {A : Type ℓ} {B : Type κ} where
  map_fst :
      (xs : List (A × B)) (ys : List A) (b : B)
      → map (λ p. p.0) (xs ++ map (λ a. (a, b)) ys) ≡ map (λ p. p.0) xs ++ ys
  map_fst [] [] b = refl
  map_fst [] (y ∷ ys) b = ap (λ zs. y ∷ zs) (map_fst [] ys b)
  map_fst (x ∷ xs) ys b = ap (λ zs. x.0 ∷ zs) (map_fst xs ys b)

module _ {ℓ} {A : Type ℓ} where
  append_assoc : (xs ys zs : List A) → (xs ++ ys) ++ zs ≡ xs ++ (ys ++ zs)
  append_assoc [] ys zs = refl
  append_assoc (x ∷ xs) ys zs = ap (λ us. x ∷ us) (append_assoc xs ys zs)

  append_nil : (xs : List A) → xs ++ [] ≡ xs
  append_nil [] = refl
  append_nil (x ∷ xs) = ap (λ us. x ∷ us) (append_nil xs)

module _ {K : Type 0} (O : Outside K) where
  -- The Interests of `n` samples, the first one of the given class and the others of Delta.
  abbrev pub batches : ℕ → SampleClass → ℕ → ℕ → List (Interest K)
  batches zero c d k = []
  batches (suc n) c d k =
      let is_delta = is_delta_class c in
      get_batch O (O.sample_name c (if is_delta then d else k)) c false
      ++ batches n delta (d + (if is_delta then 1 else 0)) (k + (if is_delta then 0 else 1))

module _ {K F : Type 0} where
  abbrev pub free_room : Pipeliner K F → ℕ
  free_room p = p.interest_control.limit - p.interest_control.pipeline

  -- The window is one of `int`s.
  pub record IsSmall (p : Pipeliner K F) : Type 0 where
    pub small_limit : p.interest_control.limit < int_mod
    pub small_pipeline : p.interest_control.pipeline < int_mod

  room_free :
      (p : Pipeliner K F) → IsSmall p → int_lt 0 (room p.interest_control) ≡ ltb 0 (free_room p)
  unfolding room
  room_free p v = ground arith

  module _ (O : Outside K) ⦃o : Order K⦄ where
    record Advanced (p q : Pipeliner K F) : Type 0 where
      small : IsSmall q
      less_room : suc (free_room q) ≡ free_room p
      one_more : q.interest_control.pipeline ≡ suc p.interest_control.pipeline
      delta_next : q.next_sample_priority ≡ delta
      delta_up :
          q.seq_delta ≡ p.seq_delta + (if is_delta_class p.next_sample_priority then 1 else 0)
      key_up : q.seq_key ≡ p.seq_key + (if is_delta_class p.next_sample_priority then 0 else 1)
      counted : q.requested_num ≡ suc p.requested_num
      one_batch :
          map (λ e. e.0) q.sent
          ≡ map (λ e. e.0) p.sent
            ++ get_batch O
                (O.sample_name p.next_sample_priority (counter p))
                p.next_sample_priority
                false

    -- The window of `q` is full, and for each sample that `p` had room for one batch was sent: the
    -- first one of the class that was asked for, the others of Delta, with consecutive numbers.
    pub record Filled (p q : Pipeliner K F) : Type 0 where
      pub full : free_room q ≡ 0
      pub filled_by : q.interest_control.pipeline ≡ p.interest_control.pipeline + free_room p
      pub requested_by : q.requested_num ≡ p.requested_num + free_room p
      pub sent_batches :
          map (λ e. e.0) q.sent
          ≡ map (λ e. e.0) p.sent
            ++ batches O (free_room p) p.next_sample_priority p.seq_delta p.seq_key

    no_batch : (p : Pipeliner K F) → free_room p ≡ 0 → Filled p p
    no_batch p z = record {
      full = z;
      filled_by = omega (arith, z);
      requested_by = omega (arith, z);
      sent_batches = rw (z, batches) (sym (append_nil (map (λ e. e.0) p.sent)));
    }

    batch_and_rest : (p t q : Pipeliner K F) → Advanced p t → Filled t q → Filled p q
    unfolding counter
    batch_and_rest p t q a f =
        let c = p.next_sample_priority in
        let d = p.seq_delta + (if is_delta_class c then 1 else 0) in
        let k = p.seq_key + (if is_delta_class c then 0 else 1) in
        let head = get_batch O (O.sample_name c (counter p)) c false in
        let rest = batches O (free_room t) delta d k in
        let opened : batches O (suc (free_room t)) c p.seq_delta p.seq_key ≡ head ++ rest = refl in
        record {
          full = f.full;
          filled_by = omega (arith, a.one_more, a.less_room, f.filled_by);
          requested_by = omega (arith, a.counted, a.less_room, f.requested_by);
          sent_batches = cc (
            f.sent_batches,
            a.one_batch,
            a.delta_next,
            a.delta_up,
            a.key_up,
            a.less_room,
            opened,
            append_assoc (map (λ e. e.0) p.sent) head rest,
          );
        }

    fill_one-advances :
        (p q : Pipeliner K F) (now : ℕ)
        → IsSmall p
        → 0 < free_room p
        → fill_one O p now ≡ returns q tt
        → Advanced p q
    unfolding fill_one place request advance increment counter
    fill_one-advances p q now v r e =
        let c = p.next_sample_priority in
        let batch = get_batch O (O.sample_name c (counter p)) c false in
        ground (arith, e, map_fst p.sent batch (O.queue_size p.buffer))

    -- With a window of `int`s, fuel for one round more than there is room is enough: the loop
    -- ends, or an exception ends it.
    pub fill_up_ends :
        (fuel : ℕ) (p : Pipeliner K F) (now : ℕ)
        → IsSmall p
        → free_room p < fuel
        → fill_up_pipeline O fuel p now ≢ none
    unfolding fill_up_pipeline
    fill_up_ends zero p now v r = ground arith
    fill_up_ends (suc fuel) p now v r = elim (Bool-cases (ltb 0 (free_room p))) [
      | inr full ↦ ground (arith, room_free p v, full)
      | inl more ↦ elim (Attempt-cases (fill_one O p now)) [
        | inl (q, _, e) ↦
            let a = fill_one-advances p q now v (ground (arith, more)) e in
            let less : free_room q < fuel = omega (arith, a.less_room, r) in
            ground (arith, room_free p v, more, e, fill_up_ends fuel q now a.small less)
        | inr (q, x, e) ↦ ground (arith, room_free p v, more, e)
      ]
    ]

    -- With a window of `int`s, when the loop ends without an exception, the window is full, and
    -- for each sample that there was room for one batch was sent, whether the buffer had a slot
    -- for it or not: the first of the class that was asked for, the others of Delta, with
    -- consecutive numbers.
    pub fill_up_fills :
        (fuel : ℕ) (p q : Pipeliner K F) (now : ℕ)
        → IsSmall p
        → fill_up_pipeline O fuel p now ≡ some (returns q tt)
        → Filled p q
    unfolding fill_up_pipeline
    fill_up_fills zero p q now v e = ground (arith, e)
    fill_up_fills (suc fuel) p q now v e = elim (Bool-cases (ltb 0 (free_room p))) [
      | inr full ↦
          let none_left : free_room p ≡ 0 = ground (arith, full) in
          let same : p ≡ q = ground (arith, room_free p v, full, e) in
          subst (Filled p) same (no_batch p none_left)
      | inl more ↦ elim (Attempt-cases (fill_one O p now)) [
        | inl (t, _, f) ↦
            let step = fill_one-advances p t now v (ground (arith, more)) f in
            let rest : fill_up_pipeline O fuel t now ≡ some (returns q tt) =
              ground (arith, room_free p v, more, e, f) in
            batch_and_rest p t q step (fill_up_fills fuel t q now step.small rest)
        | inr (t, x, f) ↦ ground (arith, room_free p v, more, e, f)
      ]
    ]
