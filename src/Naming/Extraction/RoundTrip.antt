-- ===== src/Naming/Extraction/RoundTrip.antt =====
-- extractInfo reads back every name that getPrefix writes (cpp/src/name-components.cpp).
use ndnrtc.Base.{ℕ, ◌≡◌, refl, ◌∙◌, Bool, true, ◌∷◌}
use ndnrtc.Naming.{StreamType, app_component, Components, ComponentLaws, new}
use ndnrtc.Naming.Extraction.{said, extract_audio, extract_video, extract_library, extract_info}
use ndnrtc.Naming.Extraction.Search.{extract_info_append}
use ndnrtc.Naming.Extraction.Paths.{
  Leaf, delta_segment, delta_parity, key_segment, key_parity, audio_data, audio_meta, video_meta,
  audio_thread_meta, video_thread_meta, Stem, info_of, Fits, IsPlain, path_of, get_prefix-path_of,
  path_of-NoApp,
}
use ndnrtc.Naming.Extraction.Steps.{
  extract_library-audio, extract_library-video, thread_of_thread, thread_of_meta,
  video_segment_data, video_segment-parity, video_thread-delta, video_thread-key, video_thread-meta,
  audio_thread-meta, audio_thread_data,
}
use ndnrtc.Naming.Assembly.{prefix_segment, get_prefix}

module _ {C : Type 0} (N : Components C) (L : ComponentLaws C N) (p : Stem C)
    (w : IsPlain N p) where
  extract_library-path_of :
      (leaf : Leaf) (g : StreamType) (b : Bool) (stamp : ℕ)
      → Fits leaf
      → extract_library N
          (N.text app_component ∷ N.version p.api_version ∷ path_of N p leaf)
          (record (new g b stamp) { base_prefix = p.base_prefix })
        ≡ said true (info_of p leaf stamp)
  unfolding extract_video extract_audio
  extract_library-path_of (delta_segment n k) g b stamp (hn, hk) =
      rw
        (
          extract_library-video N L p w,
          thread_of_thread N L p w,
          video_thread-delta N L p w n _ _ hn,
          video_segment_data N L p w k _ hk,
        )
        refl
  extract_library-path_of (delta_parity n k) g b stamp (hn, hk) =
      rw
        (
          extract_library-video N L p w,
          thread_of_thread N L p w,
          video_thread-delta N L p w n _ _ hn,
          video_segment-parity N L p w k _ hk,
        )
        refl
  extract_library-path_of (key_segment n k) g b stamp (hn, hk) =
      rw
        (
          extract_library-video N L p w,
          thread_of_thread N L p w,
          video_thread-key N L p w n _ _ hn,
          video_segment_data N L p w k _ hk,
        )
        refl
  extract_library-path_of (key_parity n k) g b stamp (hn, hk) =
      rw
        (
          extract_library-video N L p w,
          thread_of_thread N L p w,
          video_thread-key N L p w n _ _ hn,
          video_segment-parity N L p w k _ hk,
        )
        refl
  extract_library-path_of (audio_data n k) g b stamp (hn, hk) =
      rw
        (
          extract_library-audio N L p w,
          thread_of_thread N L p w,
          audio_thread_data N L p w n k _ hn hk,
        )
        refl
  extract_library-path_of (audio_meta v k) g b stamp (hv, hk) =
      rw (extract_library-audio N L p w, thread_of_meta N L p w v k _ _ hv hk) refl
  extract_library-path_of (video_meta v k) g b stamp (hv, hk) =
      rw (extract_library-video N L p w, thread_of_meta N L p w v k _ _ hv hk) refl
  extract_library-path_of (audio_thread_meta v k) g b stamp (hv, hk) =
      rw
        (
          extract_library-audio N L p w,
          thread_of_thread N L p w,
          audio_thread-meta N L p w v k _ hv hk,
        )
        refl
  extract_library-path_of (video_thread_meta v k) g b stamp (hv, hk) =
      rw
        (
          extract_library-video N L p w,
          thread_of_thread N L p w,
          video_thread-meta N L p w v k _ hv hk,
        )
        refl

  -- Given what ndn::Name::Component documents, a name that getPrefix makes for a segment of a video or
  -- audio sample, of parity, or of a stream's or thread's meta data is read back by extractInfo as
  -- the very parts it was made of, whatever the three members that the constructor of NamespaceInfo
  -- leaves unset hold: the base prefix is not empty, the stream and the thread are not called
  -- "ndnrtc", their names need no escaping, and the numbers fit their members.
  pub extract_info-get_prefix :
      (leaf : Leaf) (g : StreamType) (b : Bool) (stamp : ℕ)
      → Fits leaf
      → extract_info N (get_prefix N (info_of p leaf stamp) prefix_segment) (new g b stamp)
        ≡ said true (info_of p leaf stamp)
  extract_info-get_prefix leaf g b stamp h = rw (get_prefix-path_of N p leaf stamp w) (
      extract_info_append N L p.base_prefix (path_of N p leaf) (N.version p.api_version) _ w.based
        (path_of-NoApp N L p w leaf)
      ∙ extract_library-path_of leaf g b stamp h)
