-- ===== src/Naming/Extraction/Steps.antt =====
-- The steps of extractInfo on the components that getPrefix writes (cpp/src/name-components.cpp).
use ndnrtc.Base.{ℕ, ◌^◌, ◌<◌, ◌≡◌, true, false, List, [], ◌∷◌, arith, u32}
use ndnrtc.Media.{unknown_sample, key, delta, data_segment, parity, meta, unknown_segment}
use ndnrtc.Naming.{
  audio_component, video_component, audio, video, app_component, meta_component, delta_component,
  key_component, parity_component, Components, ComponentLaws, NamespaceInfo,
}
use ndnrtc.Naming.Extraction.{
  said, extract_meta, extract_audio, extract_video, extract_library, extract_stream, thread_of,
  video_thread, video_sample, video_segment, audio_thread, audio_segment, parity_segment,
  meta_segment, Outcome,
}
use ndnrtc.Naming.Extraction.Search.{text_self, text_other, text_distinct}
use ndnrtc.Naming.Extraction.Paths.{
  Stem, IsPlain, video_not_audio, delta_not_meta, key_not_meta, key_not_delta,
}

module _ {C : Type 0} (N : Components C) (L : ComponentLaws C N) (p : Stem C)
    (w : IsPlain N p) where
  u32_small : (n : ℕ) → n < 2 ^ 32 → u32 n ≡ n
  u32_small n h = omega arith

  u64_small : (n : ℕ) → n < 2 ^ 32 → n < 2 ^ 64
  u64_small n h = omega arith

  -- The steps of the extraction on the components that every name has.
  pub extract_library-audio :
      (rest : List C) (i : NamespaceInfo C)
      → extract_library N
          (N.text app_component ∷ N.version p.api_version ∷ N.text audio_component ∷ rest)
          i
        ≡ extract_audio N rest (record i { api_version = p.api_version; stream_type = audio })
  unfolding extract_library extract_stream
  extract_library-audio rest i = simp (
    L.is_version-version,
    L.to_version-version p.api_version (u64_small _ w.api_version_fits),
    text_self N L,
    u32_small p.api_version w.api_version_fits,
  )

  pub extract_library-video :
      (rest : List C) (i : NamespaceInfo C)
      → extract_library N
          (N.text app_component ∷ N.version p.api_version ∷ N.text video_component ∷ rest)
          i
        ≡ extract_video N rest (record i { api_version = p.api_version; stream_type = video })
  unfolding extract_library extract_stream
  extract_library-video rest i = simp (
    L.is_version-version,
    L.to_version-version p.api_version (u64_small _ w.api_version_fits),
    text_self N L,
    text_distinct N L _ _ video_not_audio,
    u32_small p.api_version w.api_version_fits,
  )

  pub thread_of_thread :
      (rest : List C) (i : NamespaceInfo C) (next : List C → NamespaceInfo C → Outcome C)
      → thread_of N
          (N.text p.stream_name)
          (N.timestamp p.stream_timestamp)
          (N.text p.thread_name)
          rest
          i
          next
        ≡ next rest (record i {
          stream_name = p.stream_name;
          thread_name = p.thread_name;
          is_meta = false;
          sample_class = unknown_sample;
          segment_class = unknown_segment;
          stream_timestamp = p.stream_timestamp;
        })
  unfolding thread_of
  thread_of_thread rest i next = simp (
    text_other N L _ _ (L.timestamp_not_meta p.stream_timestamp),
    L.to_timestamp-timestamp p.stream_timestamp w.timestamp_fits,
    w.stream_escaped,
    w.thread_escaped,
  )

  -- The two numbers at the end of a name of meta data.
  pub extract_meta_numbers :
      (v k : ℕ) (i : NamespaceInfo C)
      → v < 2 ^ 32
      → k < 2 ^ 32
      → extract_meta N (N.version v ∷ N.segment k ∷ []) i
        ≡ said true (record i { meta_version = v; seg_no = k; has_seg_no = true })
  unfolding extract_meta meta_segment
  extract_meta_numbers v k i hv hk = simp (
    L.is_version-version,
    L.to_version-version v (u64_small v hv),
    L.to_segment-segment k (u64_small k hk),
    u32_small v hv,
    u32_small k hk,
  )

  pub thread_of_meta :
      (v k : ℕ) (i : NamespaceInfo C) (next : List C → NamespaceInfo C → Outcome C)
      → v < 2 ^ 32
      → k < 2 ^ 32
      → thread_of N
          (N.text p.stream_name)
          (N.text meta_component)
          (N.version v)
          (N.segment k ∷ [])
          i
          next
        ≡ said true (record i {
          stream_name = p.stream_name;
          thread_name = "";
          is_meta = true;
          segment_class = meta;
          meta_version = v;
          seg_no = k;
          has_seg_no = true;
        })
  unfolding thread_of
  thread_of_meta v k i next hv hk =
      simp (text_self N L, w.stream_escaped, extract_meta_numbers v k _ hv hk)

  pub video_segment_data :
      (k : ℕ) (i : NamespaceInfo C)
      → k < 2 ^ 32
      → video_segment N (N.segment k ∷ []) i
        ≡ said true (record i {
          is_parity = false;
          has_seg_no = true;
          segment_class = data_segment;
          seg_no = k;
        })
  unfolding video_segment
  video_segment_data k i h = simp (
    text_other N L _ _ (L.segment_not_parity k),
    text_other N L _ _ (L.segment_not_manifest k),
    L.to_segment-segment k (u64_small k h),
    u32_small k h,
  )

  pub video_segment-parity :
      (k : ℕ) (i : NamespaceInfo C)
      → k < 2 ^ 32
      → video_segment N (N.text parity_component ∷ N.segment k ∷ []) i
        ≡ said true
            (record i { is_parity = true; has_seg_no = true; segment_class = parity; seg_no = k })
  unfolding video_segment parity_segment
  video_segment-parity k i h =
      simp (text_self N L, L.to_segment-segment k (u64_small k h), u32_small k h)

  pub video_thread-delta :
      (n : ℕ) (rest : List C) (i : NamespaceInfo C)
      → n < 2 ^ 32
      → video_thread N (N.text delta_component ∷ N.sequence n ∷ rest) i
        ≡ video_segment N rest (record i {
          is_meta = false;
          is_delta = true;
          sample_class = delta;
          sample_no = n;
          has_seq_no = true;
        })
  unfolding video_thread video_sample
  video_thread-delta n rest i h = simp (
    text_distinct N L _ _ delta_not_meta,
    text_self N L,
    L.to_sequence-sequence n (u64_small n h),
    u32_small n h,
  )

  pub video_thread-key :
      (n : ℕ) (rest : List C) (i : NamespaceInfo C)
      → n < 2 ^ 32
      → video_thread N (N.text key_component ∷ N.sequence n ∷ rest) i
        ≡ video_segment N rest (record i {
          is_meta = false;
          is_delta = false;
          sample_class = key;
          sample_no = n;
          has_seq_no = true;
        })
  unfolding video_thread video_sample
  video_thread-key n rest i h = simp (
    text_distinct N L _ _ key_not_meta,
    text_distinct N L _ _ key_not_delta,
    text_self N L,
    L.to_sequence-sequence n (u64_small n h),
    u32_small n h,
  )

  pub video_thread-meta :
      (v k : ℕ) (i : NamespaceInfo C)
      → v < 2 ^ 32
      → k < 2 ^ 32
      → video_thread N (N.text meta_component ∷ N.version v ∷ N.segment k ∷ []) i
        ≡ said true (record i {
          is_meta = true;
          segment_class = meta;
          meta_version = v;
          seg_no = k;
          has_seg_no = true;
        })
  unfolding video_thread
  video_thread-meta v k i hv hk = simp (text_self N L, extract_meta_numbers v k _ hv hk)

  pub audio_thread-meta :
      (v k : ℕ) (i : NamespaceInfo C)
      → v < 2 ^ 32
      → k < 2 ^ 32
      → audio_thread N (N.text meta_component ∷ N.version v ∷ N.segment k ∷ []) i
        ≡ said true (record i {
          is_meta = true;
          segment_class = meta;
          meta_version = v;
          seg_no = k;
          has_seg_no = true;
        })
  unfolding audio_thread
  audio_thread-meta v k i hv hk = simp (text_self N L, extract_meta_numbers v k _ hv hk)

  pub audio_thread_data :
      (n k : ℕ) (i : NamespaceInfo C)
      → n < 2 ^ 32
      → k < 2 ^ 32
      → audio_thread N (N.sequence n ∷ N.segment k ∷ []) i
        ≡ said true (record i {
          is_meta = false;
          is_delta = true;
          sample_class = delta;
          sample_no = n;
          has_seq_no = true;
          has_seg_no = true;
          segment_class = data_segment;
          seg_no = k;
        })
  unfolding audio_thread audio_segment
  audio_thread_data n k i hn hk = simp (
    text_other N L _ _ (L.sequence_not_meta n),
    text_other N L _ _ (L.segment_not_manifest k),
    L.to_sequence-sequence n (u64_small n hn),
    L.to_segment-segment k (u64_small k hk),
    u32_small n hn,
    u32_small k hk,
  )
