-- ===== src/Naming/Assembly.antt =====
-- From the parts to a name: NamespaceInfo::getPrefix and getSuffix (cpp/src/name-components.cpp).
use Prim.Native.Nat.{bit_and}
use ndnrtc.Base.{ℕ, Bool, true, false, not, ◌&&◌, ◌||◌, List, [], ◌∷◌, ◌++◌, ◌==◌, if◌then◌else◌}
use ndnrtc.Media.{SampleClass, delta}
use ndnrtc.Naming.{
  StreamType, audio, video, app_component, audio_component, video_component, meta_component,
  delta_component, key_component, parity_component, Components, NamespaceInfo, is_empty,
}

-- prefix_filter and suffix_filter: each filter has the bits of the shorter ones.
abbrev pub prefix_base : ℕ
prefix_base = 1

abbrev pub prefix_library : ℕ
prefix_library = 3

abbrev pub prefix_stream : ℕ
prefix_stream = 7

abbrev pub prefix_stream_ts : ℕ
prefix_stream_ts = 15

abbrev pub prefix_thread_nt : ℕ
prefix_thread_nt = 31

abbrev pub prefix_thread : ℕ
prefix_thread = 63

abbrev pub prefix_sample : ℕ
prefix_sample = 127

abbrev pub prefix_segment : ℕ
prefix_segment = 255

abbrev pub suffix_segment : ℕ
suffix_segment = 1

abbrev pub suffix_sample : ℕ
suffix_sample = 3

abbrev pub suffix_thread : ℕ
suffix_thread = 7

abbrev pub suffix_stream : ℕ
suffix_stream = 15

abbrev pub suffix_library : ℕ
suffix_library = 31

-- `filter & bits` as a condition.
abbrev has : ℕ → ℕ → Bool
has filter bits = not (bit_and filter bits == 0)

abbrev is_video : StreamType → Bool
is_video video = true
is_video _ = false

abbrev is_delta_class : SampleClass → Bool
is_delta_class delta = true
is_delta_class _ = false

module _ {C : Type 0} (N : Components C) where
  abbrev when : Bool → List C → List C
  when b name = if b then name else []

  abbrev type_component : StreamType → C
  type_component audio = N.text audio_component
  type_component _ = N.text video_component

  abbrev class_component : SampleClass → C
  class_component c = if is_delta_class c then N.text delta_component else N.text key_component

  -- NamespaceInfo::getPrefix. The source's second test for the thread's component,
  -- `filter & 16 & (streamType_ == video)`, is 0 for every filter: `==` binds tighter than `&`.
  unfoldable pub get_prefix : NamespaceInfo C → ℕ → List C
  get_prefix i filter =
      let threaded = not (is_empty i.thread_name) in
      let library = when (has filter 2) (N.text app_component ∷ N.version i.api_version ∷ []) in
      let stream = when (has filter 4) (type_component i.stream_type ∷ N.text i.stream_name ∷ []) in
      let stamp = when (has filter 8 && threaded) (N.timestamp i.stream_timestamp ∷ []) in
      let thread = when (threaded && has filter 48) (N.text i.thread_name ∷ []) in
      let meta =
        when (has filter 192) (N.text meta_component ∷ [])
        ++ when (has filter 128) (N.version i.meta_version ∷ N.segment i.seg_no ∷ []) in
      let media =
        when (has filter 32 && threaded && is_video i.stream_type)
          (class_component i.sample_class ∷ [])
        ++ (when (has filter 64) (N.sequence i.sample_no ∷ [])
            ++ (when (has filter 128 && i.is_parity) (N.text parity_component ∷ [])
                ++ when (has filter 128) (N.segment i.seg_no ∷ []))) in
      if filter == 0
      then i.base_prefix
      else i.base_prefix
        ++ (library ++ (stream ++ (stamp ++ (thread ++ (if i.is_meta then meta else media)))))

  -- NamespaceInfo::getSuffix
  unfoldable pub get_suffix : NamespaceInfo C → ℕ → List C
  get_suffix i filter =
      let threaded = not (is_empty i.thread_name) in
      let library = when (has filter 16) (N.text app_component ∷ N.version i.api_version ∷ []) in
      let stream =
        when (has filter 8) (type_component i.stream_type ∷ N.text i.stream_name ∷ [])
        ++ when (has filter 8 && threaded) (N.timestamp i.stream_timestamp ∷ []) in
      let thread = when (has filter 4 && threaded) (N.text i.thread_name ∷ []) in
      let meta =
        when (i.is_meta && ((has filter 4 && threaded) || has filter 8))
          (N.text meta_component ∷ []) in
      let class =
        when (has filter 4 && threaded && is_video i.stream_type && not i.is_meta)
          (class_component i.sample_class ∷ []) in
      let sample =
        when (has filter 2)
          ((if i.is_meta then N.version i.meta_version else N.sequence i.sample_no) ∷ []) in
      let segment =
        when (has filter 1 && i.has_seg_no && i.is_parity) (N.text parity_component ∷ [])
        ++ when (has filter 1 && i.has_seg_no) (N.segment i.seg_no ∷ []) in
      if filter == 0
      then []
      else library ++ (stream ++ (thread ++ (meta ++ (class ++ (sample ++ segment)))))
