-- ===== src/Tests/Fetching.antt =====
-- Concrete runs of the segment fetcher, and the theorems about it at concrete inputs.
use ndnrtc.Base.{ℕ, ◌≡◌, refl, Bool, true, false, List, [], ◌∷◌, ◌==◌, if◌then◌else◌}
use ndnrtc.SegmentFetcher.{
  express, express_first, on_complete, fetch, join, take_segment, process_segment, on_verify_failed,
  on_segment_verified, on_segment_received,
}
use ndnrtc.SegmentFetcher.Completion.{
  answer, exchange, IsComplete, fetch-IsComplete, on_segment_received_twice,
}

-- Three segments of one byte; the first answer is segment 2, and segment 1 cannot be verified.
abbrev content : ℕ → List ℕ
content k = k ∷ []

abbrev all_but_one : ℕ → Bool
all_but_one k = if k == 1 then false else true

fetched :
    (exchange content 2 4 2 all_but_one fetch).calls
    ≡ on_complete (0 ∷ 1 ∷ 2 ∷ []) 1 ∷ express 2 ∷ express 1 ∷ express 0 ∷ express_first ∷ []
unfolding on_segment_verified on_verify_failed process_segment take_segment join
fetched = refl

fetch-IsComplete_example : IsComplete content 2 (exchange content 2 4 2 all_but_one fetch)
fetch-IsComplete_example = fetch-IsComplete content 2 2 all_but_one

on_segment_received_twice_example :
    (on_segment_received false (answer content 0 0) fetch).calls
    ≡ express 1 ∷ on_complete (0 ∷ []) 1 ∷ express_first ∷ []
unfolding join
on_segment_received_twice_example =
    on_segment_received_twice 0 0 (answer content 0 0) fetch refl refl refl
