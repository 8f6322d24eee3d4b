-- ===== src/Estimators/Steps.antt =====
-- One more sample reaches an average (cpp/src/estimators.cpp).
use ndnrtc.Base.{
  ℕ, zero, suc, ◌+◌, ◌-◌, ◌*◌, ◌≤◌, ◌≡◌, refl, sym, ap, subst, ◌∙◌, ◌⊎◌, inl, inr, Bool, true,
  false, List, [], ◌∷◌, ◌++◌, ++_assoc, map, length, length-append, length-map, All, ℤ, ◌-ℤ◌, arith,
}
use ndnrtc.Estimators.{
  Doubles, Window, sample_window, is_limit_reached, Average, new_value, size_of,
}
use ndnrtc.Estimators.Sums.{
  Arrival, amount, total, number, mean, IsExact, IsWithin, abs_+ℤ, abs_-ℤ, total-mass, total-snoc,
  slide, mass-window, All-snoc, map-snoc, append_snoc,
}

-- What a counter of samples answers.
pub tick_lem :
    (now n r : ℕ)
    → 1 ≤ r
    → r ≤ n
    → (r ≡ 1 × is_limit_reached now (sample_window n r) ≡ (sample_window n n, true))
      ⊎ (2 ≤ r × is_limit_reached now (sample_window n r) ≡ (sample_window n (r - 1), false))
unfolding is_limit_reached
tick_lem now n zero h le = ground arith
tick_lem now n (suc zero) h le = inl (refl, ground arith)
tick_lem now n (suc (suc r)) h le = inr (omega arith, ground arith)

module _ {D : Type 0} (F : Doubles D) (b n : ℕ) where
  -- The average holds the window `kept` at the end of the arrivals `h`; `left` more fill it.
  pub record Tracks (h : List Arrival) (a : Average D) : Type 0 where
    pub older : List Arrival
    pub kept : List Arrival
    pub left : ℕ
    pub split : h ≡ older ++ kept
    pub window : a.window ≡ sample_window n left
    pub positive : 1 ≤ left
    pub bounded : left ≤ n
    pub samples : a.samples ≡ map (number F) kept
    pub sum : a.accumulated_sum ≡ F.of_int (total kept)
    pub within : All (IsWithin b) kept
    pub phase :
        (a.limit_reached ≡ true × length kept ≡ n)
        ⊎ (a.limit_reached ≡ false × older ≡ [] × length kept + left ≡ n)
    pub value : kept ≡ [] ⊎ a.value ≡ mean F kept

  -- A value arrives while the window fills, and when it is full.
  fills :
      (t : ℕ) (x : D) (a : Average D) (left : ℕ) (w : Window) (reached : Bool)
      → a.window ≡ sample_window n left
      → is_limit_reached t (sample_window n left) ≡ (w, reached)
      → a.limit_reached ≡ false
      → let c = new_value F t x a in
        c.window ≡ w
        × c.limit_reached ≡ reached
        × c.samples ≡ a.samples ++ x ∷ []
        × c.accumulated_sum ≡ F.add a.accumulated_sum x
        × c.value ≡ F.quot (F.add a.accumulated_sum x) (size_of F (a.samples ++ x ∷ []))
  unfolding new_value
  fills t x a left w reached hw hr hl = rw (hw, hr, hl) (refl, refl, refl, refl, refl)

  slides :
      (t : ℕ) (x : D) (a : Average D) (left : ℕ) (w : Window) (reached : Bool) (y : D) (ys : List D)
      → a.window ≡ sample_window n left
      → is_limit_reached t (sample_window n left) ≡ (w, reached)
      → a.limit_reached ≡ true
      → a.samples ≡ y ∷ ys
      → let c = new_value F t x a in
        c.window ≡ w
        × c.limit_reached ≡ true
        × c.samples ≡ ys ++ x ∷ []
        × c.accumulated_sum ≡ F.add a.accumulated_sum (F.sub x y)
        × c.value ≡ F.quot (F.add a.accumulated_sum (F.sub x y)) (size_of F (ys ++ x ∷ []))
  unfolding new_value
  slides t x a left w reached y ys hw hr hl hs = rw (hw, hr, hl, hs) (refl, refl, refl, refl, refl)

  value-mean :
      (kept : List Arrival) (s : D) (xs : List D)
      → s ≡ F.of_int (total kept)
      → xs ≡ map (number F) kept
      → F.quot s (size_of F xs) ≡ mean F kept
  value-mean kept s xs es ex = rw (es, ex, size_of, mean, length-map kept (number F)) refl

  module _ (m : ℕ) (exact : IsExact F m) (room : n * b + b + b ≤ m) where
    filled_sum :
        (kept : List Arrival) (v : Arrival) (left : ℕ)
        → All (IsWithin b) kept
        → IsWithin b v
        → length kept + left ≡ n
        → F.add (F.of_int (total kept)) (number F v) ≡ F.of_int (total (kept ++ v ∷ []))
    filled_sum kept v left hk hv e =
        let small = mass-window b n left kept hk e in
        let whole = total-mass kept in
        let step = abs_+ℤ (total kept) (amount v) in
        rw (total-snoc kept v) (
          exact.add_int (total kept) (amount v) (omega (arith, room, small, whole))
            (omega (arith, room, hv)) (omega (arith, room, small, whole, hv, step)))

    slid_exactly :
        (u : Arrival) (kept : List Arrival) (v : Arrival)
        → All (IsWithin b) (u ∷ kept)
        → IsWithin b v
        → length (u ∷ kept) ≡ n
        → F.add (F.of_int (total (u ∷ kept))) (F.sub (number F v) (number F u))
          ≡ F.of_int (total (kept ++ v ∷ []))
    slid_exactly u kept v (hu, hk) hv e =
        let small = mass-window b n 0 (u ∷ kept) (hu, hk) (omega (arith, e)) in
        let whole = total-mass (u ∷ kept) in
        let rest = total-mass kept in
        let step = abs_+ℤ (total kept) (amount v) in
        let gap = abs_-ℤ (amount v) (amount u) in
        let e₁ =
          exact.sub_int (amount v) (amount u) (omega (arith, room, hv)) (omega (arith, room, hu))
            (omega (arith, room, hu, hv, gap)) in
        let e₂ = slide (amount u) (total kept) (amount v) in
        rw (e₁, total-snoc kept v)
          (exact.add_int (total (u ∷ kept)) (amount v -ℤ amount u)
              (omega (arith, room, small, whole)) (omega (arith, room, hu, hv, gap))
              (rw e₂ (omega (arith, room, small, whole, rest, hv, step)))
            ∙ ap F.of_int e₂)

    pub fills-Tracks :
        (h : List Arrival) (t : ℕ) (x : ℤ) (a : Average D)
        → (k : Tracks h a) → IsWithin b (t, x)
        → a.limit_reached ≡ false
        → length k.kept + k.left ≡ n
        → (left : ℕ) (reached : Bool)
        → is_limit_reached t (sample_window n k.left) ≡ (sample_window n left, reached)
        → 1 ≤ left
        → left ≤ n
        → (reached ≡ true × length k.kept + 1 ≡ n)
          ⊎ (reached ≡ false × k.older ≡ [] × length k.kept + 1 + left ≡ n)
        → Tracks (h ++ (t, x) ∷ []) (new_value F t (F.of_int x) a)
    fills-Tracks h t x a k hv hl e left reached q positive bounded phase =
        let v : Arrival = (t, x) in
        let kept = k.kept ++ v ∷ [] in
        let (ew, el, es, ea, ev) =
          fills t (F.of_int x) a k.left (sample_window n left) reached k.window q hl in
        let samples : a.samples ++ F.of_int x ∷ [] ≡ map (number F) kept =
          rw k.samples (sym (map-snoc (number F) k.kept v)) in
        let sum : F.add a.accumulated_sum (F.of_int x) ≡ F.of_int (total kept) =
          rw k.sum (filled_sum k.kept v k.left k.within hv e) in
        let long = length-append k.kept (v ∷ []) in
        record {
          older = k.older;
          kept = kept;
          left = left;
          split = rw k.split (++_assoc k.older k.kept (v ∷ []));
          window = ew;
          positive = positive;
          bounded = bounded;
          samples = es ∙ samples;
          sum = ea ∙ sum;
          within = All-snoc b k.kept v k.within hv;
          phase = elim phase [
            | inl (er, ek) ↦ inl (el ∙ er, long ∙ ek)
            | inr (er, eo, ek) ↦ inr (el ∙ er, eo, omega (arith, long, ek))
          ];
          value = inr (ev ∙ value-mean kept _ _ sum samples);
        }

    pub slides-Tracks :
        (h : List Arrival) (t : ℕ) (x : ℤ) (a : Average D)
        → (k : Tracks h a) → IsWithin b (t, x)
        → a.limit_reached ≡ true
        → (u : Arrival) (rest : List Arrival) → k.kept ≡ u ∷ rest
        → length k.kept ≡ n
        → (left : ℕ) (reached : Bool)
        → is_limit_reached t (sample_window n k.left) ≡ (sample_window n left, reached)
        → 1 ≤ left
        → left ≤ n
        → Tracks (h ++ (t, x) ∷ []) (new_value F t (F.of_int x) a)
    slides-Tracks h t x a k hv hl u rest ek e left reached q positive bounded =
        let v : Arrival = (t, x) in
        let kept = rest ++ v ∷ [] in
        let within : All (IsWithin b) (u ∷ rest) = subst (All (IsWithin b)) ek k.within in
        let long : length (u ∷ rest) ≡ n = ap length (sym ek) ∙ e in
        let (ew, el, es, ea, ev) =
          slides t (F.of_int x) a k.left (sample_window n left) reached (number F u)
            (map (number F) rest) k.window q hl (k.samples ∙ ap (map (number F)) ek) in
        let samples : map (number F) rest ++ F.of_int x ∷ [] ≡ map (number F) kept =
          sym (map-snoc (number F) rest v) in
        let sum : F.add a.accumulated_sum (F.sub (F.of_int x) (number F u))
            ≡ F.of_int (total kept) =
          rw (k.sum, ek) (slid_exactly u rest v within hv long) in
        record {
          older = k.older ++ u ∷ [];
          kept = kept;
          left = left;
          split = rw (k.split, ek) (append_snoc k.older rest u v);
          window = ew;
          positive = positive;
          bounded = bounded;
          samples = es ∙ samples;
          sum = ea ∙ sum;
          within = All-snoc b rest v (let (hu, hr) = within in hr) hv;
          phase = inl (el, length-append rest (v ∷ []) ∙ omega (arith, long));
          value = inr (ev ∙ value-mean kept _ _ sum samples);
        }
