-- ===== src/Naming/Extraction/Paths.antt =====
-- The parts of a name and the components that getPrefix makes of them (cpp/src/name-components.cpp).
use Prim.Native.String.{String}
use text.Mathlib.TextEquality.{eq_iff}
use ndnrtc.Base.{ℕ, suc, ◌^◌, ◌<◌, ◌≡◌, ◌≢◌, refl, true, false, List, [], ◌∷◌, ◌++◌, length, arith}
use ndnrtc.Media.{SampleClass, key, delta, SegmentClass, data_segment, parity, meta}
use ndnrtc.Naming.{
  StreamType, audio, video, app_component, audio_component, video_component, meta_component,
  delta_component, key_component, parity_component, Components, ComponentLaws, NamespaceInfo, new,
  is_empty,
}
use ndnrtc.Naming.Extraction.{is_text}
use ndnrtc.Naming.Extraction.Search.{NoApp, text_other, text_distinct}
use ndnrtc.Naming.Assembly.{prefix_segment, get_prefix}

-- What a name with a segment stands for, with its numbers: sample and segment, or version and segment.
pub data Leaf : Type 0 where
  delta_segment delta_parity key_segment key_parity audio_data : ℕ → ℕ → Leaf
  audio_meta video_meta audio_thread_meta video_thread_meta : ℕ → ℕ → Leaf

-- The parts of a name before its leaf.
pub record Stem (C : Type 0) : Type 0 where
  pub base_prefix : List C
  pub api_version : ℕ
  pub stream_name : String
  pub thread_name : String
  pub stream_timestamp : ℕ

module _ {C : Type 0} where
  -- A segment of a sample.
  abbrev pub sample_info :
      Stem C → StreamType → SampleClass → SegmentClass → ℕ → ℕ → NamespaceInfo C
  sample_info p t c s n k = record {
    base_prefix = p.base_prefix;
    api_version = p.api_version;
    stream_type = t;
    stream_name = p.stream_name;
    thread_name = p.thread_name;
    is_meta = false;
    is_parity = elim s [ parity ↦ true | _ ↦ false ];
    is_delta = elim c [ delta ↦ true | _ ↦ false ];
    has_seq_no = true;
    has_seg_no = true;
    sample_class = c;
    segment_class = s;
    sample_no = n;
    seg_no = k;
    meta_version = 0;
    stream_timestamp = p.stream_timestamp;
  }

  abbrev pub meta_info : Stem C → StreamType → String → ℕ → ℕ → ℕ → NamespaceInfo C
  meta_info p t thread stamp v k = record (new t true stamp) {
    base_prefix = p.base_prefix;
    api_version = p.api_version;
    stream_name = p.stream_name;
    thread_name = thread;
    is_meta = true;
    segment_class = meta;
    meta_version = v;
    seg_no = k;
  }

  -- The parts of a name. A name of a stream's meta data has no timestamp: `stamp` stands for what the
  -- member holds.
  abbrev pub info_of : Stem C → Leaf → ℕ → NamespaceInfo C
  info_of p (delta_segment n k) stamp = sample_info p video delta data_segment n k
  info_of p (delta_parity n k) stamp = sample_info p video delta parity n k
  info_of p (key_segment n k) stamp = sample_info p video key data_segment n k
  info_of p (key_parity n k) stamp = sample_info p video key parity n k
  info_of p (audio_data n k) stamp = sample_info p audio delta data_segment n k
  info_of p (audio_meta v k) stamp = meta_info p audio "" stamp v k
  info_of p (video_meta v k) stamp = meta_info p video "" stamp v k
  info_of p (audio_thread_meta v k) stamp = meta_info p audio p.thread_name p.stream_timestamp v k
  info_of p (video_thread_meta v k) stamp = meta_info p video p.thread_name p.stream_timestamp v k

-- Both numbers of a leaf fit their members.
abbrev pub Fits : Leaf → Type 0
Fits (delta_segment n k) = (n < 2 ^ 32) × (k < 2 ^ 32)
Fits (delta_parity n k) = (n < 2 ^ 32) × (k < 2 ^ 32)
Fits (key_segment n k) = (n < 2 ^ 32) × (k < 2 ^ 32)
Fits (key_parity n k) = (n < 2 ^ 32) × (k < 2 ^ 32)
Fits (audio_data n k) = (n < 2 ^ 32) × (k < 2 ^ 32)
Fits (audio_meta v k) = (v < 2 ^ 32) × (k < 2 ^ 32)
Fits (video_meta v k) = (v < 2 ^ 32) × (k < 2 ^ 32)
Fits (audio_thread_meta v k) = (v < 2 ^ 32) × (k < 2 ^ 32)
Fits (video_thread_meta v k) = (v < 2 ^ 32) × (k < 2 ^ 32)

module _ {C : Type 0} (N : Components C) where
  -- What the round trip asks of the parts: there is a base prefix, the thread has a name, neither
  -- the stream nor the thread is called "ndnrtc", their names are not changed by escaping, and the
  -- numbers fit their members.
  pub record IsPlain (p : Stem C) : Type 0 where
    pub based : p.base_prefix ≢ []
    pub threaded : is_empty p.thread_name ≡ false
    pub stream_not_app : p.stream_name ≢ app_component
    pub thread_not_app : p.thread_name ≢ app_component
    pub stream_escaped : N.escaped (N.text p.stream_name) ≡ p.stream_name
    pub thread_escaped : N.escaped (N.text p.thread_name) ≡ p.thread_name
    pub api_version_fits : p.api_version < 2 ^ 32
    pub timestamp_fits : p.stream_timestamp < 2 ^ 64

  abbrev pub type_text : StreamType → String
  type_text audio = audio_component
  type_text _ = video_component

  -- The components that getPrefix writes behind the base prefix and the application's component.
  module _ (p : Stem C) where
    abbrev pub thread_path : StreamType → List C → List C
    thread_path t rest =
        N.text (type_text t)
        ∷ N.text p.stream_name
        ∷ N.timestamp p.stream_timestamp
        ∷ N.text p.thread_name
        ∷ rest

    abbrev pub path_of : Leaf → List C
    path_of (delta_segment n k) =
        thread_path video (N.text delta_component ∷ N.sequence n ∷ N.segment k ∷ [])
    path_of (delta_parity n k) =
        thread_path video
          (N.text delta_component ∷ N.sequence n ∷ N.text parity_component ∷ N.segment k ∷ [])
    path_of (key_segment n k) =
        thread_path video (N.text key_component ∷ N.sequence n ∷ N.segment k ∷ [])
    path_of (key_parity n k) =
        thread_path video
          (N.text key_component ∷ N.sequence n ∷ N.text parity_component ∷ N.segment k ∷ [])
    path_of (audio_data n k) = thread_path audio (N.sequence n ∷ N.segment k ∷ [])
    path_of (audio_meta v k) =
        N.text (type_text audio)
        ∷ N.text p.stream_name
        ∷ N.text meta_component
        ∷ N.version v
        ∷ N.segment k
        ∷ []
    path_of (video_meta v k) =
        N.text (type_text video)
        ∷ N.text p.stream_name
        ∷ N.text meta_component
        ∷ N.version v
        ∷ N.segment k
        ∷ []
    path_of (audio_thread_meta v k) =
        thread_path audio (N.text meta_component ∷ N.version v ∷ N.segment k ∷ [])
    path_of (video_thread_meta v k) =
        thread_path video (N.text meta_component ∷ N.version v ∷ N.segment k ∷ [])

    pub get_prefix-path_of :
        (leaf : Leaf) (stamp : ℕ)
        → IsPlain p
        → get_prefix N (info_of p leaf stamp) prefix_segment
          ≡ p.base_prefix ++ (N.text app_component ∷ N.version p.api_version ∷ path_of leaf)
    unfolding get_prefix
    get_prefix-path_of (delta_segment n k) stamp w = rw w.threaded refl
    get_prefix-path_of (delta_parity n k) stamp w = rw w.threaded refl
    get_prefix-path_of (key_segment n k) stamp w = rw w.threaded refl
    get_prefix-path_of (key_parity n k) stamp w = rw w.threaded refl
    get_prefix-path_of (audio_data n k) stamp w = rw w.threaded refl
    get_prefix-path_of (audio_meta v k) stamp w = refl
    get_prefix-path_of (video_meta v k) stamp w = refl
    get_prefix-path_of (audio_thread_meta v k) stamp w = rw w.threaded refl
    get_prefix-path_of (video_thread_meta v k) stamp w = rw w.threaded refl

pub video_not_app : video_component ≢ app_component
video_not_app = ground (arith, eq_iff video_component app_component)

pub audio_not_app : audio_component ≢ app_component
audio_not_app = ground (arith, eq_iff audio_component app_component)

pub video_not_audio : video_component ≢ audio_component
video_not_audio = ground (arith, eq_iff video_component audio_component)

pub delta_not_app : delta_component ≢ app_component
delta_not_app = ground (arith, eq_iff delta_component app_component)

pub key_not_app : key_component ≢ app_component
key_not_app = ground (arith, eq_iff key_component app_component)

pub parity_not_app : parity_component ≢ app_component
parity_not_app = ground (arith, eq_iff parity_component app_component)

pub meta_not_app : meta_component ≢ app_component
meta_not_app = ground (arith, eq_iff meta_component app_component)

pub delta_not_meta : delta_component ≢ meta_component
delta_not_meta = ground (arith, eq_iff delta_component meta_component)

pub key_not_meta : key_component ≢ meta_component
key_not_meta = ground (arith, eq_iff key_component meta_component)

pub key_not_delta : key_component ≢ delta_component
key_not_delta = ground (arith, eq_iff key_component delta_component)

module _ {C : Type 0} (N : Components C) (L : ComponentLaws C N) (p : Stem C)
    (w : IsPlain N p) where
  pub type_not_app : (t : StreamType) → is_text N (N.text (type_text N t)) app_component ≡ false
  type_not_app audio = text_distinct N L audio_component app_component audio_not_app
  type_not_app _ = text_distinct N L video_component app_component video_not_app

  pub thread_path-NoApp :
      (t : StreamType) (n : ℕ) (rest : List C)
      → NoApp N n rest
      → NoApp N (suc (suc (suc (suc n)))) (thread_path N p t rest)
  unfolding NoApp
  thread_path-NoApp t n rest h =
      let stamp =
        text_other N L (N.timestamp p.stream_timestamp) app_component
          (L.timestamp_not_app p.stream_timestamp) in
      let stream = text_distinct N L p.stream_name app_component w.stream_not_app in
      let thread = text_distinct N L p.thread_name app_component w.thread_not_app in
      (type_not_app t, (stream, (stamp, (thread, h))))

  pub const_NoApp :
      (s : String) (n : ℕ) (rest : List C)
      → s ≢ app_component
      → NoApp N n rest
      → NoApp N (suc n) (N.text s ∷ rest)
  unfolding NoApp
  const_NoApp s n rest h t = (text_distinct N L s app_component h, t)

  pub type_NoApp :
      (t : StreamType) (n : ℕ) (rest : List C)
      → NoApp N n rest
      → NoApp N (suc n) (N.text (type_text N t) ∷ rest)
  unfolding NoApp
  type_NoApp t n rest h = (type_not_app t, h)

  pub sequence-NoApp :
      (k n : ℕ) (rest : List C) → NoApp N n rest → NoApp N (suc n) (N.sequence k ∷ rest)
  unfolding NoApp
  sequence-NoApp k n rest t = (text_other N L _ app_component (L.sequence_not_app k), t)

  pub version-NoApp :
      (k n : ℕ) (rest : List C) → NoApp N n rest → NoApp N (suc n) (N.version k ∷ rest)
  unfolding NoApp
  version-NoApp k n rest t = (text_other N L _ app_component (L.version_not_app k), t)

  pub none_NoApp : (rest : List C) → NoApp N 0 rest
  unfolding NoApp
  none_NoApp rest = tt

  ruleset names = (
    thread_path-NoApp, const_NoApp, sequence-NoApp, version-NoApp, none_NoApp, type_NoApp,
    delta_not_app, key_not_app, meta_not_app, parity_not_app,
  )

  -- The application's component stands nowhere else in the name, its last component aside.
  pub path_of-NoApp :
      (leaf : Leaf)
      → NoApp N (length (path_of N p leaf)) (N.version p.api_version ∷ path_of N p leaf)
  path_of-NoApp (delta_segment n k) = search (names, w.stream_not_app) depth 12
  path_of-NoApp (delta_parity n k) = search (names, w.stream_not_app) depth 12
  path_of-NoApp (key_segment n k) = search (names, w.stream_not_app) depth 12
  path_of-NoApp (key_parity n k) = search (names, w.stream_not_app) depth 12
  path_of-NoApp (audio_data n k) = search (names, w.stream_not_app) depth 12
  path_of-NoApp (audio_meta v k) = search (names, w.stream_not_app) depth 12
  path_of-NoApp (video_meta v k) = search (names, w.stream_not_app) depth 12
  path_of-NoApp (audio_thread_meta v k) = search (names, w.stream_not_app) depth 12
  path_of-NoApp (video_thread_meta v k) = search (names, w.stream_not_app) depth 12
