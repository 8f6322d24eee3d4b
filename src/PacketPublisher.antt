-- ===== src/PacketPublisher.antt =====
-- PacketPublisher: how pending Interests are cleaned after a packet was published
-- (cpp/src/packet-publisher.hpp).
pub mod Cleaning
use ndnrtc.Base.{
  ℕ, ◌+◌, ◌%◌, Bool, true, false, not, ◌&&◌, ◌||◌, List, [], ◌∷◌, ltb, ◌==◌, if◌then◌else◌, u32,
}
use ndnrtc.Media.{is_same_sample}
use ndnrtc.Naming.{Components, NamespaceInfo}
use ndnrtc.Naming.Extraction.{Outcome, said, threw, extract_info}
use ndnrtc.Naming.Assembly.{prefix_stream, get_prefix}

-- FULL_PIT_FREQUENCY
abbrev pub full_pit_frequency : ℕ
full_pit_frequency = 1000

-- PacketPublisher, as far as cleaning reads and writes it. `nacks` are the calls of publishNack, latest
-- first; what they build is not given to the cache.
pub record Publisher (C : Type 0) : Type 0 where
  pub full_pit_clean : ℕ
  pub nacks : List (List C)

-- PacketPublisher::PacketPublisher
abbrev pub create : {C : Type 0} → Publisher C
create = record { full_pit_clean = 0; nacks = [] }

-- PacketPublisher::publishNack
abbrev pub publish_nack : {C : Type 0} → List C → Publisher C → Publisher C
publish_nack name p = record p { nacks = name ∷ p.nacks }

abbrev pub nack_all : {C : Type 0} → List (List C) → Publisher C → Publisher C
nack_all [] p = p
nack_all (name ∷ names) p = nack_all names (publish_nack name p)

-- `pending` are the names of the Interests that the cache has pending under a prefix, and `blank` is
-- what a NamespaceInfo is before a name is extracted. The second component of a result is that an
-- exception left the call.
module _ {C : Type 0} (N : Components C) (blank : NamespaceInfo C)
    (pending : List C → List (List C)) where
  -- A round of the loop of deepCleanPit, and the loop.
  abbrev pub nack_if_older : NamespaceInfo C → Outcome C → List C → Publisher C → Publisher C × Bool
  nack_if_older info (threw i) name p = (p, true)
  nack_if_older info (said false i) name p = (p, false)
  nack_if_older info (said true i) name p =
      let is_older =
        is_same_sample i.sample_class info.sample_class && ltb i.sample_no info.sample_no in
      (if is_older then publish_nack name p else p, false)

  unfoldable pub nack_older : NamespaceInfo C → List (List C) → Publisher C → Publisher C × Bool
  nack_older info [] p = (p, false)
  nack_older info (name ∷ names) p =
      let (next, thrown) = nack_if_older info (extract_info N name blank) name p in
      let rest = nack_older info names next in if thrown then (next, true) else rest

  -- PacketPublisher::deepCleanPit, of what the name says.
  unfoldable pub deep_clean : Outcome C → Publisher C → Publisher C × Bool
  deep_clean (threw i) p = (p, true)
  deep_clean (said false i) p = (p, false)
  deep_clean (said true i) p =
      let older = nack_older i (pending (get_prefix N i prefix_stream)) p in
      if i.is_meta then (p, false) else older

  abbrev pub deep_clean_pit : List C → Publisher C → Publisher C × Bool
  deep_clean_pit name p = deep_clean (extract_info N name blank) p

  -- PacketPublisher::cleanPit. The counter is an `unsigned int`.
  unfoldable pub clean_pit : List C → Bool → Publisher C → Publisher C × Bool
  clean_pit name force p =
      let nacked = nack_all (pending name) p in
      let counted = record nacked { full_pit_clean = u32 (nacked.full_pit_clean + 1) } in
      let deep =
        deep_clean_pit name (if force then counted else record counted { full_pit_clean = 0 }) in
      if nacked.full_pit_clean % full_pit_frequency == 0 || force then deep else (counted, false)
