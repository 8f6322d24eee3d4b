-- ===== src/PacketPublisher/Cleaning.antt =====
-- How often the pending Interests of a whole stream are cleaned (cpp/src/packet-publisher.hpp).
use ndnrtc.Base.{ℕ, ◌≡◌, refl, sym, ap, ◌∙◌, Bool, true, false, List, [], ◌∷◌, if◌then◌else◌}
use ndnrtc.Naming.{Components, NamespaceInfo}
use ndnrtc.Naming.Extraction.{Outcome, said, threw, extract_info}
use ndnrtc.Naming.Assembly.{prefix_stream, get_prefix}
use ndnrtc.PacketPublisher.{
  Publisher, create, publish_nack, nack_all, nack_if_older, deep_clean, nack_older, deep_clean_pit,
  clean_pit,
}

nack_all-full_pit_clean :
    {C : Type 0} (names : List (List C)) (p : Publisher C)
    → (nack_all names p).full_pit_clean ≡ p.full_pit_clean
nack_all-full_pit_clean [] p = refl
nack_all-full_pit_clean (name ∷ names) p = nack_all-full_pit_clean names (publish_nack name p)

nacked_or_not :
    {C : Type 0} (b : Bool) (name : List C) (p : Publisher C)
    → (if b then publish_nack name p else p).full_pit_clean ≡ p.full_pit_clean
nacked_or_not true name p = refl
nacked_or_not false name p = refl

same_counter :
    {C : Type 0} (p : Publisher C) → p.full_pit_clean ≡ 0 → record p { full_pit_clean = 0 } ≡ p
same_counter p h = ap (λ n. record p { full_pit_clean = n }) (sym h)

module _ {C : Type 0} (N : Components C) (blank : NamespaceInfo C)
    (pending : List C → List (List C)) where
  nack_if_older-full_pit_clean :
      (info : NamespaceInfo C) (o : Outcome C) (name : List C) (p : Publisher C)
      → (nack_if_older N blank pending info o name p).0.full_pit_clean ≡ p.full_pit_clean
  nack_if_older-full_pit_clean info (threw i) name p = refl
  nack_if_older-full_pit_clean info (said false i) name p = refl
  nack_if_older-full_pit_clean info (said true i) name p = nacked_or_not _ name p

  either :
      (b : Bool) (x y : Publisher C × Bool) (n : ℕ)
      → x.0.full_pit_clean ≡ n
      → y.0.full_pit_clean ≡ n
      → (if b then x else y).0.full_pit_clean ≡ n
  either true x y n h k = h
  either false x y n h k = k

  nack_older-full_pit_clean :
      (info : NamespaceInfo C) (names : List (List C)) (p : Publisher C)
      → (nack_older N blank pending info names p).0.full_pit_clean ≡ p.full_pit_clean
  unfolding nack_older
  nack_older-full_pit_clean info [] p = refl
  nack_older-full_pit_clean info (name ∷ names) p =
      let r = nack_if_older N blank pending info (extract_info N name blank) name p in
      let kept = nack_if_older-full_pit_clean info (extract_info N name blank) name p in
      either r.1 (r.0, true) (nack_older N blank pending info names r.0) p.full_pit_clean kept
        (nack_older-full_pit_clean info names r.0 ∙ kept)

  deep_clean-full_pit_clean :
      (o : Outcome C) (p : Publisher C)
      → (deep_clean N blank pending o p).0.full_pit_clean ≡ p.full_pit_clean
  unfolding deep_clean
  deep_clean-full_pit_clean (threw i) p = refl
  deep_clean-full_pit_clean (said false i) p = refl
  deep_clean-full_pit_clean (said true i) p =
      let names = pending (get_prefix N i prefix_stream) in
      either i.is_meta (p, false) (nack_older N blank pending i names p) p.full_pit_clean refl
        (nack_older-full_pit_clean i names p)

  clean_pit_unforced :
      (name : List C) (p : Publisher C)
      → p.full_pit_clean ≡ 0
      → clean_pit N blank pending name false p
        ≡ deep_clean_pit N blank pending name (nack_all (pending name) p)
  unfolding clean_pit
  clean_pit_unforced name p h =
      let nacked = nack_all-full_pit_clean (pending name) p ∙ h in
      rw nacked
        (ap (deep_clean_pit N blank pending name) (same_counter (nack_all (pending name) p) nacked))

  -- Packets are published one after the other, without forcing a clean.
  abbrev pub clean_all : List (List C) → Publisher C → Publisher C
  clean_all [] p = p
  clean_all (name ∷ names) p = clean_all names (clean_pit N blank pending name false p).0

  clean_all-full_pit_clean :
      (names : List (List C)) (p : Publisher C)
      → p.full_pit_clean ≡ 0
      → (clean_all names p).full_pit_clean ≡ 0
  clean_all-full_pit_clean [] p h = h
  clean_all-full_pit_clean (name ∷ names) p h =
      let q = nack_all (pending name) p in
      clean_all-full_pit_clean names (clean_pit N blank pending name false p).0 (
        ap (λ r. r.0.full_pit_clean) (clean_pit_unforced name p h)
        ∙ deep_clean-full_pit_clean (extract_info N name blank) q
        ∙ nack_all-full_pit_clean (pending name) p
        ∙ h)

  -- After any packets, none of which forced it, publishing cleans the whole stream, and not only every
  -- thousandth time: the counter is 0 again each time.
  pub every_clean_is_deep :
      (names : List (List C)) (name : List C)
      → let p = clean_all names create in
        clean_pit N blank pending name false p
        ≡ deep_clean_pit N blank pending name (nack_all (pending name) p)
  every_clean_is_deep names name =
      clean_pit_unforced name (clean_all names create) (clean_all-full_pit_clean names create refl)
