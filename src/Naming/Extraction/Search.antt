-- ===== src/Naming/Extraction/Search.antt =====
-- The search of extractInfo for the application's component (cpp/src/name-components.cpp).
use Prim.Native.String.{String}
use ndnrtc.Base.{
  ℕ, zero, suc, ◌+◌, ◌-◌, ◌≡◌, ◌≢◌, refl, ◌∙◌, true, false, some, List, [], ◌∷◌, ◌++◌, length,
  length-append, take, drop, take-append, drop-append, drop-length, arith,
}
use ndnrtc.Naming.{app_component, Components, ComponentLaws, NamespaceInfo}
use ndnrtc.Naming.Extraction.{is_text, extract_library, starts_with_app, find_app, extract_info}

module _ {C : Type 0} (N : Components C) where
  -- None of the first `n` components is the application's.
  unfoldable pub NoApp : ℕ → List C → Type 0
  NoApp zero name = Unit
  NoApp (suc n) [] = Unit
  NoApp (suc n) (c ∷ name) = (is_text N c app_component ≡ false) × NoApp n name

  NoApp-last :
      (n : ℕ) (name : List C)
      → NoApp (suc n) name
      → (starts_with_app N (drop n name) ≡ false) × NoApp n name
  unfolding NoApp
  NoApp-last zero [] h = (refl, tt)
  NoApp-last (suc n) [] h = (refl, tt)
  NoApp-last zero (c ∷ name) (h, t) = (h, tt)
  NoApp-last (suc n) (c ∷ name) (h, t) = let (a, b) = NoApp-last n name t in (a, (h, b))

  find_app_skip :
      (name : List C) (m : ℕ)
      → starts_with_app N (drop (suc m) name) ≡ false
      → find_app N name (suc m) ≡ find_app N name m
  unfolding find_app
  find_app_skip name m h = rw h refl

  extract_info_found :
      (name : List C) (k : ℕ) (i : NamespaceInfo C)
      → find_app N name (length name - 2) ≡ some k
      → extract_info N name i
        ≡ extract_library N (drop k name) (record i { base_prefix = take k name })
  unfolding extract_info extract_library
  extract_info_found name k i h = rw (extract_info, h) refl

  module _ (L : ComponentLaws C N) where
    pub text_self : (s : String) → is_text N (N.text s) s ≡ true
    text_self s = (L.same_iff (N.text s) (N.text s)).1 refl

    pub text_other : (c : C) (s : String) → c ≢ N.text s → is_text N c s ≡ false
    text_other c s h = ground (arith, L.same_iff c (N.text s), h)

    pub text_distinct : (s t : String) → s ≢ t → is_text N (N.text s) t ≡ false
    text_distinct s t h = ground (arith, L.same_iff (N.text s) (N.text t), L.text_injective s t, h)

    -- The search stops at the component behind the base prefix.
    find_app_append :
        (base name : List C) (n : ℕ)
        → base ≢ []
        → NoApp n name
        → find_app N (base ++ (N.text app_component ∷ name)) (n + length base) ≡ some (length base)
    unfolding find_app NoApp
    find_app_append [] name n h f = absurd (h refl)
    find_app_append (b ∷ base) name zero h f =
        let here = drop-append (b ∷ base) (N.text app_component ∷ name) 0 in
        ground (arith, here, text_self app_component)
    find_app_append (b ∷ base) name (suc n) h f =
        let whole : List C = (b ∷ base) ++ (N.text app_component ∷ name) in
        let (last, before) = NoApp-last n name f in
        let there = drop-append (b ∷ base) (N.text app_component ∷ name) (suc n) in
        let e : suc n + length (b ∷ base) ≡ suc (n + length (b ∷ base)) = omega arith in
        let missed : starts_with_app N (drop (suc (n + length (b ∷ base))) whole) ≡ false =
          cc (there, last, e) in
        rw e (
          find_app_skip whole (n + length (b ∷ base)) missed
          ∙ find_app_append (b ∷ base) name n h before)

    pub extract_info_append :
        (base name : List C) (c : C) (i : NamespaceInfo C)
        → base ≢ []
        → NoApp (length name) (c ∷ name)
        → extract_info N (base ++ (N.text app_component ∷ c ∷ name)) i
          ≡ extract_library N (N.text app_component ∷ c ∷ name) (record i { base_prefix = base })
    extract_info_append base name c i h f =
        let whole : List C = N.text app_component ∷ c ∷ name in
        let e : length (base ++ whole) - 2 ≡ length name + length base =
          omega (arith, length-append base whole) in
        extract_info_found (base ++ whole) (length base) i
          (rw e (find_app_append base (c ∷ name) (length name) h f))
        ∙ rw (take-append base whole, drop-length base whole) refl
