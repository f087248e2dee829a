-- ===== src/Segment/Fuel.antt =====
-- The validation of a segment ends, whatever the bytes.
use talea.Prelude.{ℕ, zero, suc, ◌+◌, ◌-◌, ◌<◌, ◌≡◌, ◌≢◌, ap, ◌∙◌, Bool}
use talea.Prelude.{none, some, List, [], ◌∷◌, length, drop, arith, leb, ◌==◌}
use talea.Prelude.{inl, inr, Bool-cases, Option-cases}
use talea.Prelude.Lists.{take, length-drop}
use talea.Result.{ok, Result-cases}
use talea.Writer.Classify.{WireEvent}
use talea.Frame.{Format, decode_payload, decode_frame, from_le_bytes}
use talea.Segment.{validate_from, validate_segment}
use talea.Segment.Validation.{validate_from-frame, validate_from-end, validate_from-error}

decode_payload-consumed :
    (f : Format) (len crc : ℕ) (rest : List ℕ) {ev : WireEvent} {consumed : ℕ}
    → decode_payload f len crc rest ≡ ok (some (ev, consumed))
    → 0 < consumed
unfolding decode_payload
decode_payload-consumed f len crc rest e = elim (Bool-cases (leb len (length rest))) [
  | inr short ↦ absurd (ground (arith, short))
  | inl within ↦ elim (Bool-cases (f.hash (take len rest) == crc)) [
    | inr differs ↦ absurd (ground (arith, within, differs))
    | inl same ↦ elim (Result-cases (f.from_slice (take len rest))) [
      | inr (cause, failed) ↦ absurd (ground (arith, within, same, failed))
      | inl (ev, read) ↦ ground (arith, within, same, read)
    ]
  ]
]

-- A frame takes a byte at least, of a buffer that has one.
decode_frame-consumed :
    (f : Format) (bytes : List ℕ) {ev : WireEvent} {consumed : ℕ}
    → decode_frame f bytes ≡ ok (some (ev, consumed))
    → (0 < consumed) × (0 < length bytes)
unfolding decode_frame
decode_frame-consumed f [] e = cc
decode_frame-consumed f (a ∷ []) e = cc
decode_frame-consumed f (a ∷ b ∷ []) e = cc
decode_frame-consumed f (a ∷ b ∷ c ∷ []) e = cc
decode_frame-consumed f (a ∷ b ∷ c ∷ d ∷ []) e = cc
decode_frame-consumed f (a ∷ b ∷ c ∷ d ∷ i ∷ []) e = cc
decode_frame-consumed f (a ∷ b ∷ c ∷ d ∷ i ∷ j ∷ []) e = cc
decode_frame-consumed f (a ∷ b ∷ c ∷ d ∷ i ∷ j ∷ k ∷ []) e = cc
decode_frame-consumed f (a ∷ b ∷ c ∷ d ∷ i ∷ j ∷ k ∷ l ∷ rest) e =
    (decode_payload-consumed f (from_le_bytes a b c d) (from_le_bytes i j k l) rest e, omega arith)

validate_from_total :
    (f : Format) (is_final : Bool) (n : ℕ) (bytes : List ℕ) (pos last_good : ℕ)
    → length bytes - pos < n
    → validate_from f is_final n bytes pos last_good ≢ none
validate_from_total f is_final zero bytes pos last_good less = absurd (omega (arith, less))
validate_from_total f is_final (suc n) bytes pos last_good less =
    elim (Result-cases (decode_frame f (drop pos bytes))) [
      | inr (cause, failed) ↦
          rw (validate_from-error f is_final n bytes pos last_good failed) (ground arith)
      | inl (out, decoded) ↦ elim (Option-cases out) [
        | inl ended ↦
            rw (validate_from-end f is_final n bytes pos last_good (decoded ∙ ap ok ended))
              (λ h. cc)
        | inr ((ev, consumed), framed) ↦
            let at = decoded ∙ ap ok framed in
            let (takes, has) = decode_frame-consumed f (drop pos bytes) at in
            rw (validate_from-frame f is_final n bytes pos last_good at) (
              validate_from_total f is_final n bytes (pos + consumed) (pos + consumed)
                (omega (arith, less, takes, has, length-drop pos bytes)))
      ]
    ]

-- The fuel of the validation is enough, whatever bytes a segment holds: it comes to a verdict.
pub validate_segment_total :
    (f : Format) (bytes : List ℕ) (is_final : Bool) → validate_segment f bytes is_final ≢ none
unfolding validate_segment
validate_segment_total f bytes is_final =
    validate_from_total f is_final (suc (length bytes)) bytes 0 0 (omega arith)
