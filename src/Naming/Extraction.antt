-- ===== src/Naming/Extraction.antt =====
-- From a name to its parts: extractMeta, extractVideoStreamInfo, extractAudioStreamInfo and
-- NameComponents::extractInfo (cpp/src/name-components.cpp).
pub mod Search
pub mod Paths
pub mod Steps
pub mod RoundTrip
use Prim.Native.String.{String}
use ndnrtc.Base.{
  ℕ, zero, suc, ◌-◌, Bool, true, false, ◌||◌, Option, none, some, List, [], ◌∷◌, length, take, drop,
  if◌then◌else◌, u32,
}
use ndnrtc.Media.{unknown_sample, key, delta, unknown_segment, data_segment, parity, manifest, meta}
use ndnrtc.Naming.{
  audio, video, app_component, audio_component, video_component, meta_component, delta_component,
  key_component, parity_component, manifest_component, Components, NamespaceInfo,
}

-- How an extraction ends: it returns a Boolean, or a std::runtime_error leaves it. Either way the
-- caller's NamespaceInfo has changed.
pub data Outcome (C : Type 0) : Type 0 where
  said : Bool → NamespaceInfo C → Outcome C
  threw : NamespaceInfo C → Outcome C

-- `a; return true;` for a call `a` whose answer is dropped.
abbrev regardless : {C : Type 0} → Outcome C → Outcome C
regardless (said b i) = said true i
regardless (threw i) = threw i

-- A number read outside a `try` block, and inside one whose handler returns false.
abbrev reading : {C : Type 0} → Option ℕ → NamespaceInfo C → (ℕ → Outcome C) → Outcome C
reading none i k = threw i
reading (some n) i k = k n

abbrev trying : {C : Type 0} → Option ℕ → NamespaceInfo C → (ℕ → Outcome C) → Outcome C
trying none i k = said false i
trying (some n) i k = k n

module _ {C : Type 0} (N : Components C) where
  abbrev pub is_text : C → String → Bool
  is_text c s = N.same c (N.text s)

  unfoldable pub meta_segment : List C → NamespaceInfo C → Outcome C
  meta_segment [] i = said true (record i { has_seg_no = false })
  meta_segment (c ∷ _) i =
      reading (N.to_segment c) i λ n. said true (record i { seg_no = u32 n; has_seg_no = true })

  -- extractMeta
  unfoldable pub extract_meta : List C → NamespaceInfo C → Outcome C
  unfolding meta_segment
  extract_meta [] i = said false i
  extract_meta (c ∷ name) i =
      if N.is_version c
      then reading (N.to_version c) i (λ n. meta_segment name (record i { meta_version = u32 n }))
      else said false i

  unfoldable pub parity_segment : List C → NamespaceInfo C → Outcome C
  parity_segment [] i = said false i
  parity_segment (c ∷ _) i =
      let j : NamespaceInfo C = record i { segment_class = parity } in
      trying (N.to_segment c) j λ n. said true (record j { seg_no = u32 n })

  unfoldable pub video_segment : List C → NamespaceInfo C → Outcome C
  unfolding parity_segment
  video_segment [] i = said true (record i { segment_class = unknown_segment; has_seg_no = false })
  video_segment (c ∷ name) i =
      let j : NamespaceInfo C = record i {
        is_parity = is_text c parity_component;
        has_seg_no = true;
      } in
      let d : NamespaceInfo C = record j { segment_class = data_segment } in
      if is_text c parity_component
      then parity_segment name j
      else if is_text c manifest_component
      then said true (record j { segment_class = manifest })
      else trying (N.to_segment c) d λ n. said true (record d { seg_no = u32 n })

  unfoldable pub video_sample : List C → NamespaceInfo C → Outcome C
  unfolding video_segment
  video_sample [] i = said true (record i { has_seq_no = false })
  video_sample (c ∷ name) i =
      trying (N.to_sequence c) i
        λ n. video_segment name (record i { sample_no = u32 n; has_seq_no = true })

  unfoldable pub video_thread : List C → NamespaceInfo C → Outcome C
  unfolding video_sample extract_meta
  video_thread [] i = said true i
  video_thread (c ∷ name) i =
      let j : NamespaceInfo C = record i { is_meta = is_text c meta_component } in
      if is_text c meta_component
      then regardless (extract_meta name (record j { segment_class = meta }))
      else if is_text c delta_component || is_text c key_component
      then video_sample name (record j {
        is_delta = is_text c delta_component;
        sample_class = if is_text c delta_component then delta else key;
      })
      else said false j

  -- A stream's name, and a stream's name with its timestamp: the two short forms.
  stream_only : C → NamespaceInfo C → NamespaceInfo C
  stream_only s i = record i { stream_name = N.escaped s }

  with_timestamp : C → C → NamespaceInfo C → Outcome C
  unfolding stream_only
  with_timestamp s t i =
      reading (N.to_timestamp t) (stream_only s i)
        λ n. said true (record (stream_only s i) { stream_timestamp = n })

  -- The steps up to the thread, which are the same for audio and video; `next` reads what follows.
  unfoldable pub thread_of :
      C → C → C → List C → NamespaceInfo C → (List C → NamespaceInfo C → Outcome C) → Outcome C
  unfolding extract_meta
  thread_of s m x name i next =
      let j : NamespaceInfo C = record i {
        stream_name = N.escaped s;
        is_meta = is_text m meta_component;
      } in
      let blank : NamespaceInfo C = record j {
        sample_class = unknown_sample;
        segment_class = unknown_segment;
      } in
      if is_text m meta_component
      then extract_meta (x ∷ name) (record j { segment_class = meta; thread_name = "" })
      else reading (N.to_timestamp m) blank
          λ n. next name (record blank { stream_timestamp = n; thread_name = N.escaped x })

  -- extractVideoStreamInfo
  unfoldable pub extract_video : List C → NamespaceInfo C → Outcome C
  unfolding stream_only with_timestamp thread_of video_thread
  extract_video [] i = said false i
  extract_video (s ∷ []) i = said true (stream_only s i)
  extract_video (s ∷ t ∷ []) i = if N.is_timestamp t then with_timestamp s t i else said false i
  extract_video (s ∷ m ∷ x ∷ name) i = thread_of s m x name i video_thread

  unfoldable pub audio_segment : List C → NamespaceInfo C → Outcome C
  audio_segment [] i = said true (record i { has_seg_no = false })
  audio_segment (c ∷ _) i =
      let d : NamespaceInfo C = record i { has_seg_no = true; segment_class = data_segment } in
      if is_text c manifest_component
      then said true (record i { segment_class = manifest })
      else trying (N.to_segment c) d λ n. said true (record d { seg_no = u32 n })

  unfoldable pub audio_thread : List C → NamespaceInfo C → Outcome C
  unfolding audio_segment extract_meta
  audio_thread [] i = said true (record i { has_seq_no = false })
  audio_thread (c ∷ name) i =
      let j : NamespaceInfo C = record i { is_meta = is_text c meta_component } in
      let d : NamespaceInfo C = record j { is_delta = true; sample_class = delta } in
      if is_text c meta_component
      then regardless (extract_meta name (record j { segment_class = meta }))
      else trying (N.to_sequence c) d
          λ n. audio_segment name (record d { sample_no = u32 n; has_seq_no = true })

  -- extractAudioStreamInfo. A name of two components has no thread: reading past its end throws.
  unfoldable pub extract_audio : List C → NamespaceInfo C → Outcome C
  unfolding stream_only with_timestamp thread_of audio_thread
  extract_audio [] i = said false i
  extract_audio (s ∷ []) i = said true (stream_only s i)
  extract_audio (s ∷ t ∷ []) i =
      let j : NamespaceInfo C = record i {
        stream_name = N.escaped s;
        is_meta = is_text t meta_component;
      } in
      let blank : NamespaceInfo C = record j {
        sample_class = unknown_sample;
        segment_class = unknown_segment;
      } in
      if N.is_timestamp t
      then with_timestamp s t i
      else if is_text t meta_component
      then said false (record j { segment_class = meta })
      else reading (N.to_timestamp t) blank λ n. threw (record blank { stream_timestamp = n })
  extract_audio (s ∷ m ∷ x ∷ name) i = thread_of s m x name i audio_thread

  -- `subName[2]` and the rest of the name.
  unfoldable pub extract_stream : List C → NamespaceInfo C → Outcome C
  unfolding extract_audio extract_video
  extract_stream [] i = said false i
  extract_stream (c ∷ name) i =
      if is_text c audio_component
      then extract_audio name (record i { stream_type = audio })
      else if is_text c video_component
      then extract_video name (record i { stream_type = video })
      else said false i

  -- `subName`, which starts with the application's component and has another one.
  unfoldable pub extract_library : List C → NamespaceInfo C → Outcome C
  unfolding extract_stream
  extract_library (_ ∷ v ∷ name) i =
      if N.is_version v
      then reading (N.to_version v) i (λ n. extract_stream name (record i { api_version = u32 n }))
      else said false i
  extract_library _ i = said false i

  -- `ndnrtcSubName.match(subName)`
  abbrev pub starts_with_app : List C → Bool
  starts_with_app [] = false
  starts_with_app (c ∷ _) = is_text c app_component

  -- The loop of extractInfo, from index `i` down to 1: the last place of the application's component.
  unfoldable pub find_app : List C → ℕ → Option ℕ
  find_app name zero = none
  find_app name (suc i) =
      let rest = find_app name i in
      if starts_with_app (drop (suc i) name) then some (suc i) else rest

  -- NameComponents::extractInfo
  unfoldable pub extract_info : List C → NamespaceInfo C → Outcome C
  unfolding find_app extract_library
  extract_info name i = elim (find_app name (length name - 2)) [
    | none ↦ said false i
    | some k ↦ extract_library (drop k name) (record i { base_prefix = take k name })
  ]
