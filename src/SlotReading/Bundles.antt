-- ===== src/SlotReading/Bundles.antt =====
-- The order in which an audio bundle has its segments (cpp/src/frame-buffer.cpp).
use ndnrtc.Base.{ℕ, ◌*◌, ◌≡◌, refl, sym, ap, ◌∙◌, true, List, [], ◌∷◌, ◌++◌, ++_nil, ++_assoc}
use ndnrtc.SlotReading.{
  Segment, packet, resize, size_of_first, slices_of_first, insert_all, read_bundle,
}
use ndnrtc.SlotReading.Whole.{payloads}

abbrev pub backwards : List Segment → List Segment
backwards [] = []
backwards (s ∷ ss) = backwards ss ++ s ∷ []

payloads-snoc :
    (ss : List Segment) (s : Segment) → payloads (ss ++ s ∷ []) ≡ payloads ss ++ s.payload
payloads-snoc [] s = ++_nil s.payload
payloads-snoc (t ∷ ss) s =
    rw (payloads-snoc ss s) (sym (++_assoc t.payload (payloads ss) s.payload))

insert_all-payloads :
    (ss : List Segment) (storage : List ℕ)
    → insert_all ss storage ≡ payloads (backwards ss) ++ storage
insert_all-payloads [] storage = refl
insert_all-payloads (s ∷ ss) storage =
    insert_all-payloads ss (s.payload ++ storage)
    ∙ sym (++_assoc (payloads (backwards ss)) s.payload storage)
    ∙ ap (λ xs. xs ++ storage) (sym (payloads-snoc (backwards ss) s))

-- An assembled bundle is read with its segments in the reverse of their order, each inserted before those that
-- come before it in the slot, and with bytes of the storage behind them.
pub read_bundle-backwards :
    (ss : List Segment) (storage : List ℕ)
    → let bytes =
        payloads (backwards ss) ++ resize (size_of_first ss * slices_of_first ss) storage in
      read_bundle true true ss storage ≡ (packet bytes, bytes)
unfolding read_bundle
read_bundle-backwards ss storage =
    ap (λ xs. (packet xs, xs))
      (insert_all-payloads ss (resize (size_of_first ss * slices_of_first ss) storage))
