-- ===== src/Packets/Truncation.antt =====
-- How far behind the bytes of a received packet its blobs can reach (cpp/src/network-data.hpp).
use ndnrtc.Base.{
  ℕ, zero, suc, ◌+◌, ◌*◌, ◌≤◌, ◌≡◌, true, some, List, [], ◌∷◌, ◌++◌, length, All, ltb, arith,
  Option-cases, Bool-cases, inl, inr, subst,
}
use ndnrtc.Packets.{
  get_elem?, Blob, Packet, Scan, reached, settle, unfit, undefined, scan, reinit, open_packet,
}

-- A blob ends one byte behind the bytes at most.
abbrev pub IsNear : List ℕ → Blob → Type 0
IsNear bytes b = b.end ≤ length bytes + 1

All-append {ℓ κ} :
    {A : Type ℓ} (P : A → Type κ) (xs : List A) (y : A) → All P xs → P y → All P (xs ++ (y ∷ []))
All-append P [] y w h = (h, tt)
All-append P (x ∷ xs) y (v, w) h = (v, All-append P xs y w h)

-- What the loop finds, whether it reaches the payload or stops.
abbrev NearScan : List ℕ → Scan → Type 0
NearScan bytes (reached blobs p) = All (IsNear bytes) blobs
NearScan bytes (unfit blobs) = All (IsNear bytes) blobs
NearScan bytes undefined = Unit

scan-NearScan :
    (bytes : List ℕ) (n p1 : ℕ) (blobs : List Blob)
    → All (IsNear bytes) blobs
    → NearScan bytes (scan bytes n p1 blobs)
unfolding scan
scan-NearScan bytes zero p1 blobs w = w
scan-NearScan bytes (suc n) p1 blobs w = elim (Option-cases (get_elem? bytes p1)) [
  | inl e ↦ rw (scan, e) tt
  | inr (b1, e1) ↦ elim (Option-cases (get_elem? bytes (p1 + 1))) [
    | inl e ↦ rw (scan, e1, e) tt
    | inr (b2, e2) ↦
        let size = b1 + b2 * 256 in
        let found : Blob = record { begin = p1 + 2; end = p1 + 2 + size } in
        elim (Bool-cases (ltb (length bytes) (p1 + 1 + size))) [
          | inl out ↦ rw (scan, e1, e2, out) w
          | inr fits ↦
              rw (scan, e1, e2, fits)
                (scan-NearScan bytes n (p1 + 2 + size) (blobs ++ (found ∷ []))
                  (All-append (IsNear bytes) blobs found w (ground (arith, fits))))
        ]
  ]
]

settle-IsNear :
    (bytes : List ℕ) (s : Scan) (p q : Packet)
    → NearScan bytes s
    → settle p s ≡ some q
    → All (IsNear bytes) q.blobs
settle-IsNear bytes (reached blobs p1) p q w h =
    let e : blobs ≡ q.blobs = cc h in subst (λ (t : List Blob). All (IsNear bytes) t) e w
settle-IsNear bytes (unfit blobs) p q w h =
    let e : blobs ≡ q.blobs = cc h in subst (λ (t : List Blob). All (IsNear bytes) t) e w
settle-IsNear bytes undefined p q w h = absurd (cc h)

-- No blob of a packet that is read ends more than one byte behind the packet's bytes. The bound is
-- not the end of the bytes itself, since the source compares one byte too early.
pub open_packet-IsNear :
    (bytes : List ℕ) (p : Packet) → open_packet bytes ≡ some p → All (IsNear bytes) p.blobs
unfolding open_packet reinit
open_packet-IsNear [] p h = cc h
open_packet-IsNear (n ∷ bytes) p h =
    settle-IsNear (n ∷ bytes) (scan (n ∷ bytes) n 1 [])
      (record { bytes = n ∷ bytes; is_valid = true; blobs = []; payload_begin = 0 }) p
      (scan-NearScan (n ∷ bytes) n 1 [] tt) h
