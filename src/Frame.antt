-- ===== src/Frame.antt =====
-- Frames (talea-store-log/src/frame.rs): a header of two little-endian `u32`, the length of the payload
-- and its checksum, and then the payload. Bytes are natural numbers. `serde_json` and `crc32fast` are
-- the operations of a `Format`.
pub mod RoundTrip
use Prim.Native.String.{◌++◌ as append}
use talea.Prelude.{ℕ, ◌+◌, ◌*◌, ◌/◌, ◌%◌, ◌<◌, ◌≤◌, ◌^◌, ◌≡◌, String, Bool, Option, none, some}
use talea.Prelude.{List, [], ◌∷◌, ◌++◌, length, drop, ltb, leb, ◌==◌, if◌then◌else◌}
use talea.Prelude.Lists.{take}
use talea.Result.{Result, ok, err}
use talea.Writer.Classify.{WireEvent}

-- `serde_json::to_vec` and `from_slice`, with the text of their errors, and `crc32fast::hash`.
pub record Format : Type 0 where
  pub to_vec : WireEvent → Result String (List ℕ)
  pub from_slice : List ℕ → Result String WireEvent
  pub hash : List ℕ → ℕ

-- What they document: a value that is written is read back, and a checksum is a `u32`.
pub record IsFormat (f : Format) : Type 0 where
  pub reads_back :
      (ev : WireEvent) (bytes : List ℕ) → f.to_vec ev ≡ ok bytes → f.from_slice bytes ≡ ok ev
  pub hash_u32 : (bytes : List ℕ) → f.hash bytes < 4294967296

-- `HEADER_LEN`
abbrev pub header_len : ℕ
header_len = 8

pub data FrameError : Type 0 where
  torn : FrameError
  corrupt : String → FrameError

pub data EncodeError : Type 0 where
  json : String → EncodeError
  too_large : ℕ → EncodeError

-- `u32::to_le_bytes`
unfoldable pub to_le_bytes : ℕ → List ℕ
to_le_bytes n = n % 256 ∷ n / 256 % 256 ∷ n / 65536 % 256 ∷ n / 16777216 % 256 ∷ []

-- `u32::from_le_bytes`
unfoldable pub from_le_bytes : ℕ → ℕ → ℕ → ℕ → ℕ
from_le_bytes a b c d = a + 256 * b + 65536 * c + 16777216 * d

-- The frame of a payload.
unfoldable pub frame_of : Format → List ℕ → List ℕ
frame_of f payload = to_le_bytes (length payload) ++ (to_le_bytes (f.hash payload) ++ payload)

unfoldable pub encode_frame : Format → WireEvent → Result EncodeError (List ℕ)
encode_frame f ev = elim (f.to_vec ev) [
  | err e ↦ err (json e)
  | ok payload ↦
      if ltb (length payload) 4294967296
      then ok (frame_of f payload)
      else err (too_large (length payload))
]

-- What follows the header, given its two fields.
unfoldable pub decode_payload : Format → ℕ → ℕ → List ℕ → Result FrameError (Option (WireEvent × ℕ))
decode_payload f len crc rest =
    if leb len (length rest)
    then (if f.hash (take len rest) == crc
        then elim (f.from_slice (take len rest)) [
          | ok ev ↦ ok (some (ev, header_len + len))
          | err e ↦ err (corrupt (append "json: " e))
        ]
        else err (corrupt "crc mismatch"))
    else err torn

-- The first frame of a buffer, with the bytes that it takes; `none` is the end of the data.
unfoldable pub decode_frame : Format → List ℕ → Result FrameError (Option (WireEvent × ℕ))
decode_frame f [] = ok none
decode_frame f (a ∷ b ∷ c ∷ d ∷ i ∷ j ∷ k ∷ l ∷ rest) =
    decode_payload f (from_le_bytes a b c d) (from_le_bytes i j k l) rest
decode_frame f (_ ∷ _) = err torn
