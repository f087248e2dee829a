-- ===== src/Tests/Log.antt =====
-- The theorems on frames and segments, with a format that writes one asset's events.
use text.Mathlib.TextEquality.{eq_iff}
use talea.Prelude.{ℕ, ◌%◌, ◌≡◌, refl, String, true, false, ◌&&◌, none, some}
use talea.Prelude.{List, [], ◌∷◌, ◌++◌, length, arith, if◌then◌else◌, ◌==◌}
use talea.Prelude.Eq.{string_eq, ◌=?◌}
use talea.Prelude.Lists.{take}
use talea.Result.{Result, ok, err}
use talea.Types.{AssetClass, AssetDef, LedgerEvent, fiat, crypto, asset_registered, account_opened}
use talea.Types.{transaction_posted}
use talea.Writer.Classify.{WireEvent}
use talea.Frame.{Format, IsFormat, encode_frame, decode_frame, torn, frame_of, to_le_bytes}
use talea.Frame.RoundTrip.{decode_frame-encode_frame, decode_frame-take}
use talea.Segment.{validate_segment, open_all, encode_all, clean, truncate}
use talea.Segment.Validation.{validate_segment-clean, validate_segment-torn}
use talea.Segment.Recovery.{open_all-torn}
use talea.Segment.Fuel.{validate_segment_total}
use talea.Prelude.{◌≢◌}

abbrev euro : AssetDef
euro = record { id = "EUR"; class = fiat; precision = 2; name = "Euro" }

abbrev euro_event : ℕ → ℕ → WireEvent
euro_event seq at = record { seq = seq; at = at; event = asset_registered euro }

-- An event of the euro is written as its number and its time.
abbrev write_def : ℕ → ℕ → String → AssetClass → ℕ → String → Result String (List ℕ)
write_def seq at id fiat precision name =
    if id =? "EUR" && (precision == 2 && name =? "Euro")
    then ok (seq ∷ at ∷ [])
    else err "another asset"
write_def seq at id (crypto network native) precision name = err "another asset"

abbrev write_event : ℕ → ℕ → LedgerEvent → Result String (List ℕ)
write_event seq at (asset_registered def) = write_def seq at def.id def.class def.precision def.name
write_event seq at (account_opened def cfg) = err "another event"
write_event seq at (transaction_posted tx) = err "another event"

abbrev read_event : List ℕ → Result String WireEvent
read_event (seq ∷ at ∷ []) = ok (euro_event seq at)
read_event _ = err "no event"

abbrev euro_format : Format
euro_format = record {
  to_vec = λ ev. write_event ev.seq ev.at ev.event;
  from_slice = read_event;
  hash = λ bytes. length bytes % 4294967296;
}

reads_def :
    (seq at : ℕ) (id : String) (class : AssetClass) (precision : ℕ) (name : String) (bytes : List ℕ)
    → write_def seq at id class precision name ≡ ok bytes
    → read_event bytes
      ≡ ok (record {
        seq = seq;
        at = at;
        event =
            asset_registered
              (record { id = id; class = class; precision = precision; name = name });
      })
reads_def seq at id (crypto network native) precision name bytes e = cc
reads_def seq at id fiat precision name bytes e =
    ground (arith, eq_iff id "EUR", eq_iff name "Euro", e)

reads_event :
    (seq at : ℕ) (event : LedgerEvent) (bytes : List ℕ)
    → write_event seq at event ≡ ok bytes
    → read_event bytes ≡ ok (record { seq = seq; at = at; event = event })
reads_event seq at (asset_registered def) bytes e =
    reads_def seq at def.id def.class def.precision def.name bytes e
reads_event seq at (account_opened def cfg) bytes e = cc
reads_event seq at (transaction_posted tx) bytes e = cc

euro_format-IsFormat : IsFormat euro_format
euro_format-IsFormat = record {
  reads_back = λ ev bytes e. reads_event ev.seq ev.at ev.event bytes e;
  hash_u32 = λ bytes. omega arith;
}

-- The frame of the first event.
abbrev first_frame : List ℕ
first_frame = 2 ∷ 0 ∷ 0 ∷ 0 ∷ 2 ∷ 0 ∷ 0 ∷ 0 ∷ 1 ∷ 7 ∷ []

first_encoded : encode_frame euro_format (euro_event 1 7) ≡ ok first_frame
unfolding encode_frame frame_of to_le_bytes
first_encoded = refl

all_encoded :
    encode_all euro_format (euro_event 1 7 ∷ euro_event 1 7 ∷ []) ≡ ok (first_frame ++ first_frame)
unfolding encode_all encode_frame frame_of to_le_bytes
all_encoded = refl

decode_frame-encode_frame_example :
    decode_frame euro_format (first_frame ++ (9 ∷ [])) ≡ ok (some (euro_event 1 7, 10))
decode_frame-encode_frame_example =
    decode_frame-encode_frame euro_format (euro_event 1 7) (9 ∷ []) euro_format-IsFormat
      first_encoded

decode_frame-take_example : decode_frame euro_format (take 9 first_frame) ≡ err torn
decode_frame-take_example =
    decode_frame-take euro_format (euro_event 1 7) 9 first_encoded (omega arith) (omega arith)

validate_segment-clean_example :
    validate_segment euro_format (first_frame ++ first_frame) false ≡ some clean
validate_segment-clean_example =
    validate_segment-clean euro_format false (euro_event 1 7 ∷ euro_event 1 7 ∷ [])
      euro_format-IsFormat all_encoded

validate_segment-torn_example :
    validate_segment euro_format ((first_frame ++ first_frame) ++ take 3 first_frame) true
    ≡ some (truncate 20)
validate_segment-torn_example =
    validate_segment-torn euro_format true (euro_event 1 7 ∷ euro_event 1 7 ∷ []) (euro_event 1 7) 3
      euro_format-IsFormat all_encoded first_encoded (omega arith) (omega arith)

open_all-torn_example :
    open_all euro_format (
      (1, first_frame ++ first_frame)
      ∷ (3, (first_frame ++ first_frame) ++ take 9 first_frame)
      ∷ [])
    ≡ ok ((1, first_frame ++ first_frame) ∷ (3, first_frame ++ first_frame) ∷ [])
open_all-torn_example =
    open_all-torn euro_format ((1, first_frame ++ first_frame) ∷ [])
      ((1, euro_event 1 7 ∷ euro_event 1 7 ∷ []) ∷ []) 3 (euro_event 1 7 ∷ euro_event 1 7 ∷ [])
      (euro_event 1 7) 9 euro_format-IsFormat (refl, all_encoded, tt) all_encoded first_encoded
      (omega arith) (omega arith)

validate_segment_total_example : validate_segment euro_format (3 ∷ 1 ∷ 4 ∷ []) true ≢ none
validate_segment_total_example = validate_segment_total euro_format (3 ∷ 1 ∷ 4 ∷ []) true
