-- ===== src/SegmentFetcher/Completion.antt =====
-- Fetching an object to its end, and what a failed verification does (cpp/src/segment-fetcher.cpp).
use ndnrtc.Base.{
  ℕ, zero, suc, ◌+◌, ◌-◌, ◌≤◌, ◌<◌, ◌≡◌, refl, sym, ap, Bool, true, false, List, [], ◌∷◌, ◌++◌,
  length, length-append, arith, ◌==◌, if◌then◌else◌, subst, Bool-cases, inl, inr,
}
use ndnrtc.SegmentFetcher.{
  number, DataPacket, Call, express_first, express, on_complete, Fetcher, fetch, join, take_segment,
  process_segment, on_verify_failed, on_segment_verified, on_segment_received,
}

-- A producer of the segments 0 to `last`, whose FinalBlockId is set on every segment.
module _ (content : ℕ → List ℕ) (last : ℕ) where
  abbrev pub answer : ℕ → DataPacket
  answer k = record { segment = number k; final_block = number last; content = content k }

  -- The contents of `n` segments.
  abbrev pub parts : ℕ → List (List ℕ)
  parts zero = []
  parts (suc n) = parts n ++ (content n ∷ [])

  -- Every Interest is answered with the segment that it asks for, and the one for the first segment
  -- with the segment `any`; each answer is verified, `good` saying with which result.
  abbrev pub exchange : ℕ → ℕ → (ℕ → Bool) → Fetcher → Fetcher
  exchange zero any good f = f
  exchange (suc fuel) any good f = elim f.calls [
    | express_first ∷ _ ↦ exchange fuel any good (on_segment_verified (good any) (answer any) f)
    | express k ∷ _ ↦ exchange fuel any good (on_segment_verified (good k) (answer k) f)
    | _ ↦ f
  ]

  length-parts : (n : ℕ) → length (parts n) ≡ n
  length-parts zero = refl
  length-parts (suc n) = omega (arith, length-append (parts n) (content n ∷ []), length-parts n)

  -- The next segments are expected, and the next one is asked for.
  record Asks (k : ℕ) (f : Fetcher) : Type 0 where
    kept : f.content_parts ≡ parts k
    asked : (cs : List Call) × (f.calls ≡ express k ∷ cs)

  -- The fetcher is done, with the contents of all segments.
  unfoldable pub IsComplete : Fetcher → Type 0
  IsComplete f =
      (v : ℕ) × (cs : List Call) × (f.calls ≡ on_complete (join (parts (suc last))) v ∷ cs)

  process_segment_expected :
      (k : ℕ) (f : Fetcher)
      → f.content_parts ≡ parts k
      → process_segment (answer k) f ≡ take_segment k (answer k) f
  unfolding process_segment
  process_segment_expected k f h = ground (arith, h, length-parts k)

  take_last :
      (f : Fetcher) → f.content_parts ≡ parts last → IsComplete (take_segment last (answer last) f)
  unfolding take_segment IsComplete
  take_last f h = (f.validation_info, f.calls, ground (arith, h))

  take_earlier :
      (k : ℕ) (f : Fetcher)
      → k < last
      → f.content_parts ≡ parts k
      → Asks (suc k) (take_segment k (answer k) f)
  unfolding take_segment
  take_earlier k f p h = record {
    kept = ground (arith, p, h);
    asked = (f.calls, ground (arith, p, h));
  }

  -- One answer brings the fetcher to the end or to the next segment, verified or not.
  on_segment_verified_last :
      (b : Bool) (f : Fetcher)
      → f.content_parts ≡ parts last
      → IsComplete (on_segment_verified b (answer last) f)
  unfolding on_segment_verified on_verify_failed
  on_segment_verified_last true f h = rw (process_segment_expected last f h) (take_last f h)
  on_segment_verified_last false f h =
      let g : Fetcher = record f { validation_info = f.validation_info + 1 } in
      rw (process_segment_expected last g h) (take_last g h)

  on_segment_verified_earlier :
      (b : Bool) (k : ℕ) (f : Fetcher)
      → k < last
      → f.content_parts ≡ parts k
      → Asks (suc k) (on_segment_verified b (answer k) f)
  unfolding on_segment_verified on_verify_failed
  on_segment_verified_earlier true k f p h =
      rw (process_segment_expected k f h) (take_earlier k f p h)
  on_segment_verified_earlier false k f p h =
      let g : Fetcher = record f { validation_info = f.validation_info + 1 } in
      rw (process_segment_expected k g h) (take_earlier k g p h)

  -- A first segment that is not segment 0 is dropped, and segment 0 is asked for.
  dropped : (b : Bool) (k : ℕ) → Asks 0 (on_segment_verified b (answer (suc k)) fetch)
  unfolding on_segment_verified on_verify_failed process_segment
  dropped true k = record { kept = ground arith; asked = (fetch.calls, ground arith) }
  dropped false k = record { kept = ground arith; asked = (fetch.calls, ground arith) }

  exchange_complete :
      (fuel any : ℕ) (good : ℕ → Bool) (f : Fetcher) → IsComplete f → exchange fuel any good f ≡ f
  unfolding IsComplete
  exchange_complete zero any good f c = refl
  exchange_complete (suc fuel) any good f (v, cs, e) = cc e

  exchange-Asks :
      (fuel any k : ℕ) (good : ℕ → Bool) (f : Fetcher)
      → Asks k f
      → exchange (suc fuel) any good f
        ≡ exchange fuel any good (on_segment_verified (good k) (answer k) f)
  exchange-Asks fuel any k good f a = let (cs, e) = a.asked in cc e

  -- Asked for segment `k`, the fetcher needs one answer for each segment from there on.
  exchange-IsComplete :
      (n fuel any k : ℕ) (good : ℕ → Bool) (f : Fetcher)
      → Asks k f
      → k + n ≡ last
      → n ≤ fuel
      → IsComplete (exchange (suc fuel) any good f)
  exchange-IsComplete zero fuel any k good f a e h =
      let here : k ≡ last = omega (arith, e) in
      let g = on_segment_verified (good last) (answer last) f in
      let done = on_segment_verified_last (good last) f (rw here at a.kept) in
      rw (exchange-Asks fuel any k good f a, here, exchange_complete fuel any good g done) done
  exchange-IsComplete (suc n) zero any k good f a e h = absurd (omega (arith, h))
  exchange-IsComplete (suc n) (suc fuel) any k good f a e h =
      rw (exchange-Asks (suc fuel) any k good f a) (
        exchange-IsComplete n fuel any (suc k) good (on_segment_verified (good k) (answer k) f)
          (on_segment_verified_earlier (good k) k f (omega (arith, e)) a.kept) (omega (arith, e))
          (omega (arith, h)))

  -- The state after the answer to the first Interest.
  after_first :
      (fuel any : ℕ) (good : ℕ → Bool)
      → last < fuel
      → IsComplete (exchange fuel any good (on_segment_verified (good any) (answer any) fetch))
  after_first zero any good h = absurd (omega (arith, h))
  after_first (suc fuel) (suc any) good h =
      exchange-IsComplete last fuel (suc any) 0 good _ (dropped (good (suc any)) any) (omega arith)
        (omega (arith, h))
  after_first (suc fuel) zero good h = elim (Bool-cases (last == 0)) [
    | inl e ↦
        let here : 0 ≡ last = ground (arith, e) in
        let done : IsComplete (on_segment_verified (good 0) (answer 0) fetch) =
          subst (λ k. IsComplete (on_segment_verified (good k) (answer k) fetch)) (sym here)
            (on_segment_verified_last (good last) fetch (ap parts here)) in
        rw (exchange_complete (suc fuel) 0 good _ done) done
    | inr e ↦
        exchange-IsComplete (last - 1) fuel 0 1 good _
          (on_segment_verified_earlier (good 0) 0 fetch (ground (arith, e)) refl)
          (ground (arith, e)) (omega (arith, h))
  ]

  -- When every Interest is answered with the segment that it asks for, an Interest for the first
  -- segment with any segment at all, then fetching comes to its end with at most two answers more than
  -- the last segment's number: it completes, with the contents of all segments joined in order,
  -- whatever the verification by a key chain answers.
  pub fetch-IsComplete :
      (any : ℕ) (good : ℕ → Bool) → IsComplete (exchange (last + 2) any good fetch)
  fetch-IsComplete any good =
      let e : last + 2 ≡ suc (last + 1) = omega arith in
      rw e (after_first (last + 1) any good (omega arith))

-- When the user's verification fails on the expected segment, that segment is processed twice: the
-- fetcher completes, or asks for the next segment, and then asks for the next segment again, which
-- after the last segment does not exist.
pub on_segment_received_twice :
    (k n : ℕ) (d : DataPacket) (f : Fetcher)
    → d.segment ≡ number k
    → d.final_block ≡ number n
    → length f.content_parts ≡ k
    → (on_segment_received false d f).calls
      ≡ express (k + 1)
        ∷ (if k == n
            then on_complete (join (f.content_parts ++ (d.content ∷ []))) (f.validation_info + 1)
            else express (k + 1))
        ∷ f.calls
unfolding on_segment_received on_verify_failed process_segment take_segment
on_segment_received_twice k n d f s e h =
    let longer : length (f.content_parts ++ (d.content ∷ [])) ≡ k + 1 =
      omega (arith, h, length-append f.content_parts (d.content ∷ [])) in
    ground (arith, s, e, h, longer)
