-- ===== src/SegmentFetcher.antt =====
-- SegmentFetcher: it fetches the segments of an object one after the other and joins their contents
-- (cpp/src/segment-fetcher.cpp).
pub mod Completion
use ndnrtc.Base.{
  ℕ, suc, ◌+◌, Bool, true, false, Option, none, some, List, [], ◌∷◌, ◌++◌, length, ◌==◌,
  if◌then◌else◌,
}

-- A component that should be a segment number: it is not marked as one, cannot be decoded, or is one.
pub data Number : Type 0 where
  absent undecodable : Number
  number : ℕ → Number

-- What the fetcher reads of a Data packet: the last component of its name, its FinalBlockId and its
-- content.
pub record DataPacket : Type 0 where
  pub segment : Number
  pub final_block : Number
  pub content : List ℕ

-- SegmentFetcher::ErrorCode
pub data ErrorCode : Type 0 where
  interest_timeout data_has_no_segment : ErrorCode

-- What the fetcher does: Interests for the first segment and for a segment with a number, the errors,
-- and the completion with the content and the number of segments that could not be verified.
pub data Call : Type 0 where
  express_first : Call
  express : ℕ → Call
  on_error : ErrorCode → Call
  on_complete : List ℕ → ℕ → Call

-- SegmentFetcher. `validation_info` counts the entries of `validationInfo_`; the calls stand latest
-- first.
pub record Fetcher : Type 0 where
  pub content_parts : List (List ℕ)
  pub validation_info : ℕ
  pub calls : List Call

abbrev pub call : Call → Fetcher → Fetcher
call c f = record f { calls = c ∷ f.calls }

-- SegmentFetcher::fetch, with fetchFirstSegment.
abbrev pub fetch : Fetcher
fetch = record { content_parts = []; validation_info = 0; calls = express_first ∷ [] }

-- SegmentFetcher::fetchNextSegment
abbrev pub fetch_next_segment : ℕ → Fetcher → Fetcher
fetch_next_segment k f = call (express k) f

-- The loop that copies the parts into one vector.
unfoldable pub join : List (List ℕ) → List ℕ
join [] = []
join (p ∷ ps) = p ++ join ps

-- A segment that is the expected one, `k`.
unfoldable pub take_segment : ℕ → DataPacket → Fetcher → Fetcher
unfolding join
take_segment k d f =
    let g : Fetcher = record f { content_parts = f.content_parts ++ (d.content ∷ []) } in
    elim d.final_block [
      | absent ↦ fetch_next_segment (k + 1) g
      | undecodable ↦ call (on_error data_has_no_segment) g
      | number n ↦
          if k == n
          then call (on_complete (join g.content_parts) g.validation_info) g
          else fetch_next_segment (k + 1) g
    ]

-- SegmentFetcher::processSegment
unfoldable pub process_segment : DataPacket → Fetcher → Fetcher
unfolding take_segment
process_segment d f = elim d.segment [
  | absent ↦ call (on_error data_has_no_segment) f
  | undecodable ↦ call (on_error data_has_no_segment) f
  | number k ↦
      if k == length f.content_parts
      then take_segment k d f
      else fetch_next_segment (length f.content_parts) f
]

-- SegmentFetcher::onVerifyFailed, where the callbacks do not throw.
unfoldable pub on_verify_failed : DataPacket → Fetcher → Fetcher
unfolding process_segment
on_verify_failed d f = process_segment d (record f { validation_info = f.validation_info + 1 })

-- SegmentFetcher::onSegmentReceived with a key chain, whose verification calls back once.
unfoldable pub on_segment_verified : Bool → DataPacket → Fetcher → Fetcher
unfolding process_segment on_verify_failed
on_segment_verified verified d f = if verified then process_segment d f else on_verify_failed d f

-- SegmentFetcher::onSegmentReceived with `verifySegment_`, which answered `verified`. The branch of a
-- failure goes on to processSegment.
unfoldable pub on_segment_received : Bool → DataPacket → Fetcher → Fetcher
unfolding process_segment on_verify_failed
on_segment_received verified d f = process_segment d (if verified then f else on_verify_failed d f)

-- SegmentFetcher::onTimeout
unfoldable pub on_timeout : Fetcher → Fetcher
on_timeout f = call (on_error interest_timeout) f
