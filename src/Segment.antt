-- ===== src/Segment.antt =====
-- The segments of a book's log (talea-store-log/src/segment.rs): the validation of their frames when
-- the log is opened, the repair of a torn tail, appending and rotation. The files are the bytes that
-- they hold, in the ascending order of their bases; their reads, writes and syncs succeed here.
pub mod Validation
pub mod Fuel
pub mod Recovery
pub mod Scan
use talea.Prelude.{
  ℕ, zero, suc, ◌+◌, String, Bool, true, false, Option, none, some, List, [], ◌∷◌, ◌++◌,
}
use talea.Prelude.{length, drop, leb, if◌then◌else◌}
use talea.Prelude.Lists.{take}
use talea.Result.{Result, ok, err, ◌>>=◌}
use talea.Types.{Seq}
use talea.Writer.Classify.{WireEvent}
use talea.State.{FramePos}
use talea.Frame.{Format, EncodeError, encode_frame, decode_frame}

-- `Validation`
pub data Verdict : Type 0 where
  clean : Verdict
  truncate : ℕ → Verdict
  corrupt_at : ℕ → Verdict

-- The loop of `validate`, on fuel; `none` is fuel that ran out.
unfoldable pub validate_from : Format → Bool → ℕ → List ℕ → ℕ → ℕ → Option Verdict
validate_from f is_final zero bytes pos last_good = none
validate_from f is_final (suc fuel) bytes pos last_good = elim (decode_frame f (drop pos bytes)) [
  | ok none ↦ some clean
  | ok (some (ev, consumed)) ↦ validate_from f is_final fuel bytes (pos + consumed) (pos + consumed)
  | err _ ↦ if is_final then some (truncate last_good) else some (corrupt_at pos)
]

-- `validate`; a frame takes at least a byte, so the bytes are fuel enough.
unfoldable pub validate_segment : Format → List ℕ → Bool → Option Verdict
validate_segment f bytes is_final = validate_from f is_final (suc (length bytes)) bytes 0 0

-- What `open_with_max` does with the verdict on one segment; `err` is the error that it returns, whose
-- text leaves out the path and the offset.
unfoldable pub repair : List ℕ → Option Verdict → Result String (List ℕ)
repair bytes none = err "out of fuel"
repair bytes (some clean) = ok bytes
repair bytes (some (truncate good_len)) = ok (take good_len bytes)
repair bytes (some (corrupt_at off)) = err "corrupt frame in sealed segment"

-- The loop of `open_with_max` over the bases; only the last segment is final.
unfoldable pub open_all : Format → List (Seq × List ℕ) → Result String (List (Seq × List ℕ))
open_all f [] = ok []
open_all f ((base, bytes) ∷ []) =
    repair bytes (validate_segment f bytes true) >>= λ kept. ok ((base, kept) ∷ [])
open_all f ((base, bytes) ∷ next ∷ rest) = repair bytes (validate_segment f bytes false) >>= λ kept.
    open_all f (next ∷ rest) >>= λ others. ok ((base, kept) ∷ others)

-- `SegmentSet`: the sealed segments, and the base and the bytes of the active one.
pub record SegmentSet : Type 0 where
  pub sealed : List (Seq × List ℕ)
  pub active_base : Seq
  pub active : List ℕ
  pub segment_max : ℕ

-- `append`
unfoldable pub append : List ℕ → SegmentSet → SegmentSet
append frame s = record s { active = s.active ++ frame }

-- `maybe_rotate`
unfoldable pub maybe_rotate : Seq → SegmentSet → SegmentSet
maybe_rotate next_seq s =
    if leb s.segment_max (length s.active)
    then record s {
      sealed = s.sealed ++ ((s.active_base, s.active) ∷ []);
      active_base = next_seq;
      active = [];
    }
    else s

-- `next_pos`: where the next frame is appended.
unfoldable pub next_pos : SegmentSet → FramePos
next_pos s = (s.active_base, length s.active)

-- The loop of the write phase over the staged events, with the position of each frame.
unfoldable pub write_all :
    Format → List WireEvent → SegmentSet → Result EncodeError (SegmentSet × List FramePos)
write_all f [] s = ok (s, [])
write_all f (ev ∷ evs) s = encode_frame f ev >>= λ frame.
    write_all f evs (append frame (maybe_rotate ev.seq s)) >>= λ done.
    ok (done.0, next_pos (maybe_rotate ev.seq s) ∷ done.1)

-- The bytes of events that are appended to one segment.
unfoldable pub encode_all : Format → List WireEvent → Result EncodeError (List ℕ)
encode_all f [] = ok []
encode_all f (ev ∷ evs) =
    encode_frame f ev >>= λ frame. encode_all f evs >>= λ rest. ok (frame ++ rest)
