-- ===== src/Segment/Scan.antt =====
-- The reads of a book's log (`SegmentCatalog`, talea-store-log/src/segment.rs): the scans from a sequence
-- number on, and the read of one frame. The catalog has the segments in the ascending order of their
-- bases; their files are the bytes that they hold, and are there.
pub mod Frames
use talea.Prelude.{ℕ, zero, suc, ◌+◌, String, Bool, true, false, Option, none, some, List, [], ◌∷◌}
use talea.Prelude.{◌++◌, length, drop, leb, ltb, ◌==◌, if◌then◌else◌}
use talea.Prelude.Lists.{take}
use talea.Prelude.Eq.{nat_eq}
use talea.HashMap.{get}
use talea.Result.{Result, ok, err}
use talea.Types.{Seq}
use talea.Writer.Classify.{WireEvent}
use talea.State.{FramePos}
use talea.Frame.{Format, header_len, decode_frame, from_le_bytes}
use talea.Segment.{SegmentSet}

abbrev pub Catalog : Type 0
Catalog = List (Seq × List ℕ)

-- All segments of a set, the active one last.
unfoldable pub catalog : SegmentSet → Catalog
catalog s = s.sealed ++ ((s.active_base, s.active) ∷ [])

-- `range(..=from).next_back()`, or the first base.
unfoldable pub start_base : Seq → Seq → Catalog → Seq
start_base from best [] = best
start_base from best ((base, _) ∷ segments) =
    start_base from (if leb base from then base else best) segments

-- `range(start..)`
unfoldable pub range_from : Seq → Catalog → Catalog
range_from start [] = []
range_from start ((base, bytes) ∷ segments) =
    if ltb base start then range_from start segments else (base, bytes) ∷ segments

-- A segment was read to its end or up to the limit; or the scan stops; or it fails.
pub data Scan {ℓ} (A : Type ℓ) : Type ℓ where
  next : List A → Scan A
  halt : List A → Scan A
  broken : String → Scan A

module _ {ℓ} {A : Type ℓ} (f : Format) (keep : WireEvent → FramePos → A) (from : Seq)
    (limit : ℕ) where
  -- The loop over the frames of a segment, on fuel; `results` is what the scan has so far.
  unfoldable pub scan_frames : Bool → Seq → ℕ → List ℕ → ℕ → List A → Scan A
  scan_frames is_last base zero bytes pos results = broken "out of fuel"
  scan_frames is_last base (suc fuel) bytes pos results = elim (leb limit (length results)) [
    | true ↦ next results
    | false ↦ elim (decode_frame f (drop pos bytes)) [
      | ok none ↦ next results
      | ok (some (ev, consumed)) ↦
          scan_frames is_last base fuel bytes (pos + consumed)
            (if leb from ev.seq then results ++ (keep ev (base, pos) ∷ []) else results)
      | err _ ↦ if is_last then halt results else broken "decode error"
    ]
  ]

  -- The bytes of a segment are fuel enough, as a frame takes a byte at least.
  unfoldable pub scan_segment : Bool → Seq → List ℕ → List A → Scan A
  scan_segment is_last base bytes results =
      scan_frames is_last base (suc (length bytes)) bytes 0 results

  -- The loop over the segments; the last one is the one that no other follows.
  unfoldable pub scan_segments : Catalog → List A → Result String (List A)
  scan_segments [] results = ok results
  scan_segments ((base, bytes) ∷ []) results =
      if leb limit (length results)
      then ok results
      else elim (scan_segment true base bytes results) [
        | next all ↦ ok all
        | halt all ↦ ok all
        | broken e ↦ err e
      ]
  scan_segments ((base, bytes) ∷ segment ∷ segments) results = elim (leb limit (length results)) [
    | true ↦ ok results
    | false ↦ elim (scan_segment false base bytes results) [
      | next all ↦ scan_segments (segment ∷ segments) all
      | halt all ↦ ok all
      | broken e ↦ err e
    ]
  ]

  unfoldable pub scan : Catalog → Result String (List A)
  unfolding scan_segments start_base range_from
  scan [] = ok []
  scan ((base, bytes) ∷ segments) =
      if limit == 0
      then ok []
      else scan_segments
          (range_from (start_base from base ((base, bytes) ∷ segments)) ((base, bytes) ∷ segments))
          []

unfoldable pub scan_from : Format → Seq → ℕ → Catalog → Result String (List WireEvent)
unfolding scan
scan_from f from limit segments = scan f (λ ev pos. ev) from limit segments

unfoldable pub scan_with_pos :
    Format → Seq → ℕ → Catalog → Result String (List (WireEvent × FramePos))
unfolding scan
scan_with_pos f from limit segments = scan f (λ ev pos. (ev, pos)) from limit segments

-- The frame that is decoded in `read_at`, checked against the number that is expected.
unfoldable pub checked_event : Format → List ℕ → Seq → Result String WireEvent
checked_event f frame expected = elim (decode_frame f frame) [
  | ok (some (ev, _)) ↦ if ev.seq == expected then ok ev else err "stale or wrong position"
  | ok none ↦ err "empty frame at read_at"
  | err _ ↦ err "decode error"
]

-- `read_at` on the bytes from the offset on: `read_exact` fails on fewer than eight, and the frame that
-- the header announces must lie in the file.
unfoldable pub read_frame : Format → List ℕ → Seq → Result String WireEvent
unfolding checked_event
read_frame f (a ∷ b ∷ c ∷ d ∷ rest) expected =
    let frame_len = header_len + from_le_bytes a b c d in
    if leb header_len (length (a ∷ b ∷ c ∷ d ∷ rest))
    then (if leb frame_len (length (a ∷ b ∷ c ∷ d ∷ rest))
        then checked_event f (take frame_len (a ∷ b ∷ c ∷ d ∷ rest)) expected
        else err "past end of segment")
    else err "failed to fill whole buffer"
read_frame f _ expected = err "failed to fill whole buffer"

unfoldable pub read_at : Format → Catalog → FramePos → Seq → Result String WireEvent
unfolding read_frame
read_at f segments (base, offset) expected = elim (get base segments) [
  | none ↦ err "unknown segment base"
  | some bytes ↦ read_frame f (drop offset bytes) expected
]
