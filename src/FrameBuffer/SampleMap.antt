-- ===== src/FrameBuffer/SampleMap.antt =====
-- A std::map from the names of samples, as a sorted list (the maps of Buffer in
-- cpp/src/frame-buffer.hpp).
use ndnrtc.Base.{
  suc, ◌≡◌, refl, true, Option, none, some, List, [], ◌∷◌, arith, if◌then◌else◌, length, All,
}
use ndnrtc.FrameBuffer.Names.{Order}

module _ {ℓ} {K : Type 0} {V : Type ℓ} where
  module _ ⦃o : Order K⦄ where
    unfoldable pub find : K → List (K × V) → Option V
    find k [] = none
    find k ((j, v) ∷ m) = if o.eqb j k then some v else find k m

    unfoldable pub put : K → V → List (K × V) → List (K × V)
    put k v [] = (k, v) ∷ []
    put k v ((j, w) ∷ m) =
        let rest = put k v m in
        if o.eqb j k then (k, v) ∷ m else if o.lt k j then (k, v) ∷ (j, w) ∷ m else (j, w) ∷ rest

    unfoldable pub erase : K → List (K × V) → List (K × V)
    erase k [] = []
    erase k ((j, w) ∷ m) = let rest = erase k m in if o.eqb j k then m else (j, w) ∷ rest

    -- The keys are in strictly increasing order.
    abbrev pub IsSorted : List (K × V) → Type ℓ
    IsSorted [] = Unit
    IsSorted ((j, v) ∷ m) = All (λ p. o.lt j p.0 ≡ true) m × IsSorted m

    pub find-put :
        (k j : K) (v : V) (m : List (K × V))
        → find j (put k v m) ≡ (if o.eqb k j then some v else find j m)
    unfolding find put
    find-put k j v [] = refl
    find-put k j v ((i, w) ∷ m) =
        grind (arith, o.eqb_iff i k, o.eqb_iff i j, o.eqb_iff k j, find-put k j v m)

    pub length-put :
        (k : K) (v : V) (m : List (K × V)) → find k m ≡ none → length (put k v m) ≡ suc (length m)
    unfolding find put
    length-put k v [] h = refl
    length-put k v ((i, w) ∷ m) h = ground (arith, length-put k v m)

    pub length-erase :
        (k : K) (v : V) (m : List (K × V)) → find k m ≡ some v → suc (length (erase k m)) ≡ length m
    unfolding find erase
    length-erase k v [] h = ground arith
    length-erase k v ((i, w) ∷ m) h = ground (arith, length-erase k v m)

    All-weaken :
        (i j : K) (m : List (K × V))
        → o.lt i j ≡ true
        → All (λ p. o.lt j p.0 ≡ true) m
        → All (λ p. o.lt i p.0 ≡ true) m
    All-weaken i j [] l a = tt
    All-weaken i j ((k, v) ∷ m) l a = (o.lt_trans i j k l a.0, All-weaken i j m l a.1)

    All-put :
        (i k : K) (v : V) (m : List (K × V))
        → o.lt i k ≡ true
        → All (λ p. o.lt i p.0 ≡ true) m
        → All (λ p. o.lt i p.0 ≡ true) (put k v m)
    unfolding put
    All-put i k v [] l a = (l, tt)
    All-put i k v ((j, w) ∷ m) l a = ground (arith, All-put i k v m l)

    pub put-IsSorted : (k : K) (v : V) (m : List (K × V)) → IsSorted m → IsSorted (put k v m)
    unfolding put
    put-IsSorted k v [] s = (tt, tt)
    put-IsSorted k v ((j, w) ∷ m) s = ground (
      arith,
      put-IsSorted k v m,
      All-put j k v m,
      All-weaken k j m,
      o.lt_total k j,
      o.eqb_iff j k,
    )

    All-erase :
        (i k : K) (m : List (K × V))
        → All (λ p. o.lt i p.0 ≡ true) m
        → All (λ p. o.lt i p.0 ≡ true) (erase k m)
    unfolding erase
    All-erase i k [] a = tt
    All-erase i k ((j, w) ∷ m) a = ground (arith, All-erase i k m)

    pub erase-IsSorted : (k : K) (m : List (K × V)) → IsSorted m → IsSorted (erase k m)
    unfolding erase
    erase-IsSorted k [] s = tt
    erase-IsSorted k ((j, w) ∷ m) s = ground (arith, erase-IsSorted k m, All-erase j k m)

    pub find-below : (k : K) (m : List (K × V)) → All (λ p. o.lt k p.0 ≡ true) m → find k m ≡ none
    unfolding find
    find-below k [] a = refl
    find-below k ((j, w) ∷ m) a = ground (arith, find-below k m, o.eqb_iff j k, o.lt_irrefl k)

    pub find-erase :
        (k j : K) (m : List (K × V))
        → IsSorted m
        → find j (erase k m) ≡ (if o.eqb k j then none else find j m)
    unfolding find erase
    find-erase k j [] s = ground arith
    find-erase k j ((i, w) ∷ m) s =
        grind (arith, o.eqb_iff i k, o.eqb_iff i j, o.eqb_iff k j, find-erase k j m, find-below i m)

    pub length-put_again :
        (k : K) (v w : V) (m : List (K × V))
        → IsSorted m
        → find k m ≡ some w
        → length (put k v m) ≡ length m
    unfolding find put
    length-put_again k v w [] s h = ground arith
    length-put_again k v w ((i, u) ∷ m) s h =
        ground (arith, length-put_again k v w m, find-below k m, All-weaken k i m)
