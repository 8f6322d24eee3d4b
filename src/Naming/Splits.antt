-- ===== src/Naming/Splits.antt =====
-- Every place at which a name can be cut into a prefix and a suffix.
use ndnrtc.Base.{ℕ, ◌≡◌, true, false, ◌++◌, arith}
use mathlib.Core.List.{append_assoc}
use ndnrtc.Naming.{Components, NamespaceInfo}
use ndnrtc.Naming.Assembly.{
  prefix_base, prefix_library, prefix_stream_ts, prefix_thread, prefix_sample, prefix_segment,
  suffix_segment, suffix_sample, suffix_thread, suffix_stream, suffix_library, get_prefix,
  get_suffix,
}

-- The prefix filters with the suffix filters that start where they end.
pub data Cut : ℕ → ℕ → Type 0 where
  at_library : Cut prefix_base suffix_library
  at_stream : Cut prefix_library suffix_stream
  at_thread : Cut prefix_stream_ts suffix_thread
  at_sample : Cut prefix_thread suffix_sample
  at_segment : Cut prefix_sample suffix_segment

module _ {C : Type 0} (N : Components C) where
  -- For a name that is not one of meta data and that has a segment number, the prefix and the
  -- suffix at every cut make up the whole name.
  pub get_prefix-append-get_suffix :
      (i : NamespaceInfo C) {p s : ℕ}
      → i.is_meta ≡ false
      → i.has_seg_no ≡ true
      → Cut p s
      → get_prefix N i p ++ get_suffix N i s ≡ get_prefix N i prefix_segment
  unfolding get_prefix get_suffix
  get_prefix-append-get_suffix i m h at_library = grind (arith, append_assoc)
  get_prefix-append-get_suffix i m h at_stream = grind (arith, append_assoc)
  get_prefix-append-get_suffix i m h at_thread = grind (arith, append_assoc)
  get_prefix-append-get_suffix i m h at_sample = grind (arith, append_assoc)
  get_prefix-append-get_suffix i m h at_segment = grind (arith, append_assoc)
