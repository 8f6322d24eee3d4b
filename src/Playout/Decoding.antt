-- ===== src/Playout/Decoding.antt =====
-- The frames that reach the decoder (cpp/src/video-playout-impl.cpp).
use ndnrtc.Base.{
  ◌≡◌, ◌⊎◌, refl, Bool, true, false, List, [], ◌∷◌, ℤ, pos, ◌+ℤ◌, ◌≤ℤ◌, ltb_ℤ, eq_of_parts, arith,
  All, Bool-cases, inl, inr,
}
use ndnrtc.Playout.Video.{
  Frame, Notice, frame_decoded, VideoPlayout, create, is_skipped, note_skip, check_gop, decode,
  process_sample,
}

-- The decoded frames among the notices: playback number, and whether it is a key frame.
abbrev pub decoded : List Notice → List (ℤ × Bool)
decoded [] = []
decoded (frame_decoded n k ∷ ns) = (n, k) ∷ decoded ns
decoded (_ ∷ ns) = decoded ns

-- A key frame, or the frame right behind the one that was decoded before it.
abbrev pub Follows : ℤ × Bool → List (ℤ × Bool) → Type 0
Follows f [] = f.1 ≡ true
Follows f (g ∷ fs) = (f.1 ≡ true) ⊎ (f.0 ≡ g.0 +ℤ pos 1)

-- The latest frame stands first.
abbrev pub IsDecodable : List (ℤ × Bool) → Type 0
IsDecodable [] = Unit
IsDecodable (f ∷ fs) = Follows f fs × IsDecodable fs

-- The frames of the playback queue, one after the other.
abbrev pub process_all : List Frame → VideoPlayout → VideoPlayout
process_all [] v = v
process_all (f ∷ fs) v = process_all fs (process_sample f v).1

-- With a valid group the last frame that was decoded is the current one.
abbrev IsCurrent : ℤ → List (ℤ × Bool) → Type 0
IsCurrent n [] = ⊥
IsCurrent n (f ∷ fs) = (f.0 ≡ n) × (pos 0 ≤ℤ n)

record Inv (v : VideoPlayout) : Type 0 where
  decodable : IsDecodable (decoded v.notices)
  current : v.gop_is_valid ≡ true → IsCurrent v.current_play_no (decoded v.notices)

key-Follows : (n : ℤ) (fs : List (ℤ × Bool)) → Follows (n, true) fs
key-Follows n [] = refl
key-Follows n (f ∷ fs) = inl refl

next-Follows :
    (n m : ℤ) (k : Bool) (fs : List (ℤ × Bool))
    → IsCurrent n fs
    → m ≡ n +ℤ pos 1
    → Follows (m, k) fs
next-Follows n m k [] c e = absurd c
next-Follows n m k (f ∷ fs) (c, h) e = inr (cc (c, e))

current_nonneg : (n : ℤ) (fs : List (ℤ × Bool)) → IsCurrent n fs → ltb_ℤ n (pos 0) ≡ false
current_nonneg n [] c = absurd c
current_nonneg n (f ∷ fs) (c, h) = ground (arith, h)

-- A delta frame that is not skipped, in a valid group, follows the current one.
unskipped :
    (f : Frame) (v : VideoPlayout)
    → is_skipped f v ≡ false
    → v.gop_is_valid ≡ true
    → IsCurrent v.current_play_no (decoded v.notices)
    → f.playback_no ≡ v.current_play_no +ℤ pos 1
unfolding is_skipped
unskipped f v s g c =
    let n = current_nonneg v.current_play_no (decoded v.notices) c in
    ground (arith, n, s, g, eq_of_parts f.playback_no (v.current_play_no +ℤ pos 1))

module _ (f : Frame) (v : VideoPlayout) (h : pos 0 ≤ℤ f.playback_no) (i : Inv v) where
  unread : f.is_read ≡ false → Inv (process_sample f v).1
  unfolding process_sample
  unread e = rw (process_sample, e) (record { decodable = i.decodable; current = i.current })

  key_frame : f.is_read ≡ true → f.is_delta ≡ false → Inv (process_sample f v).1
  unfolding process_sample check_gop decode
  key_frame e d =
      rw (process_sample, e, check_gop, d)
        (record {
          decodable = (key-Follows f.playback_no (decoded v.notices), i.decodable);
          current = λ _. (refl, h);
        })

  skipped :
      f.is_read ≡ true → f.is_delta ≡ true → is_skipped f v ≡ true → Inv (process_sample f v).1
  unfolding process_sample check_gop note_skip
  skipped e d s =
      rw (process_sample, e, check_gop, d, s)
        (record { decodable = i.decodable; current = λ g. absurd (cc g) })

  unskipped_frame :
      f.is_read ≡ true → f.is_delta ≡ true → is_skipped f v ≡ false → Inv (process_sample f v).1
  unfolding process_sample check_gop decode
  unskipped_frame e d s = elim (Bool-cases v.gop_is_valid) [
    | inl g ↦
        let c = i.current g in
        let follows =
          next-Follows v.current_play_no f.playback_no false (decoded v.notices) c
            (unskipped f v s g c) in
        rw (process_sample, e, check_gop, d, s, g)
          (record { decodable = (follows, i.decodable); current = λ _. (refl, h) })
    | inr g ↦
        rw (process_sample, e, check_gop, d, s, g)
          (record { decodable = i.decodable; current = λ g'. absurd (cc g') })
  ]

  process_sample-Inv : Inv (process_sample f v).1
  process_sample-Inv = elim (Bool-cases f.is_read) [
    | inr e ↦ unread e
    | inl e ↦ elim (Bool-cases f.is_delta) [
      | inr d ↦ key_frame e d
      | inl d ↦ elim (Bool-cases (is_skipped f v)) [
        | inl s ↦ skipped e d s
        | inr s ↦ unskipped_frame e d s
      ]
    ]
  ]

process_all-Inv :
    (fs : List Frame) (v : VideoPlayout)
    → All (λ f. pos 0 ≤ℤ f.playback_no) fs
    → Inv v
    → Inv (process_all fs v)
process_all-Inv [] v w i = i
process_all-Inv (f ∷ fs) v (h, w) i =
    process_all-Inv fs (process_sample f v).1 w (process_sample-Inv f v h i)

-- Whatever frames a new playout is given, lost, unreadable or out of order, with playback numbers that
-- are not negative, the frames that it hands to the decoder start with a key frame, and each delta
-- frame among them is the one right behind the frame that was decoded before it.
pub process_all-IsDecodable :
    (fs : List Frame)
    → All (λ f. pos 0 ≤ℤ f.playback_no) fs
    → IsDecodable (decoded (process_all fs create).notices)
process_all-IsDecodable fs w =
    (process_all-Inv fs create w
      (record { decodable = tt; current = λ g. absurd (cc g) })).decodable
