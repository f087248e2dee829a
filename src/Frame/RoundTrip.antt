-- ===== src/Frame/RoundTrip.antt =====
-- Frames that are written are read back, and a frame that is cut short is torn.
use talea.Prelude.{ℕ, zero, suc, ◌+◌, ◌/◌, ◌%◌, ◌<◌, ◌≡◌, refl, ap, true, false}
use talea.Prelude.{some, List, [], ◌∷◌, ◌++◌, length, length-append, arith, ltb, leb, ◌==◌}
use talea.Prelude.{Bool-cases, inl, inr}
use talea.Prelude.Lists.{take, length-take}
use talea.Result.{ok, err, Result-cases}
use talea.Writer.Classify.{WireEvent}
use talea.Frame.{Format, IsFormat, torn, to_le_bytes, from_le_bytes, frame_of}
use talea.Frame.{encode_frame, decode_payload, decode_frame}

pub le_bytes_lem :
    (n : ℕ)
    → n < 4294967296
    → from_le_bytes (n % 256) (n / 256 % 256) (n / 65536 % 256) (n / 16777216 % 256) ≡ n
unfolding from_le_bytes
le_bytes_lem n h = omega (arith, h)

take-append_all : (xs ys : List ℕ) → take (length xs) (xs ++ ys) ≡ xs
take-append_all [] ys = refl
take-append_all (x ∷ xs) ys = ap (λ l. x ∷ l) (take-append_all xs ys)

-- What encoding gives.
pub encode_frame-ok :
    (f : Format) (ev : WireEvent) {frame : List ℕ}
    → encode_frame f ev ≡ ok frame
    → (payload : List ℕ) × (f.to_vec ev ≡ ok payload)
      × (length payload < 4294967296)
      × (frame ≡ frame_of f payload)
unfolding encode_frame
encode_frame-ok f ev e = elim (Result-cases (f.to_vec ev)) [
  | inr (cause, failed) ↦ absurd (ground (arith, failed))
  | inl (payload, written) ↦ elim (Bool-cases (ltb (length payload) 4294967296)) [
    | inl fits ↦ (payload, written, ground (arith, fits), ground (arith, written, fits, e))
    | inr large ↦ absurd (ground (arith, written, large))
  ]
]

pub length-frame_of :
    (f : Format) (payload : List ℕ) → length (frame_of f payload) ≡ 8 + length payload
unfolding frame_of to_le_bytes
length-frame_of f payload = omega arith

-- A payload that is all there, behind a header that is right.
decode_payload-whole :
    (f : Format) (ev : WireEvent) (len crc : ℕ) (payload rest : List ℕ)
    → len ≡ length payload
    → crc ≡ f.hash payload
    → f.from_slice payload ≡ ok ev
    → decode_payload f len crc (payload ++ rest) ≡ ok (some (ev, 8 + length payload))
unfolding decode_payload
decode_payload-whole f ev len crc payload rest is_len is_crc reads =
    let l = length-append payload rest in
    let within : leb (length payload) (length (payload ++ rest)) ≡ true = ground (arith, l) in
    let same : (f.hash payload == f.hash payload) ≡ true = ground arith in
    rw (is_len, is_crc, within, take-append_all payload rest, same, reads, is_len) refl

-- A payload that is cut short.
decode_payload-short :
    (f : Format) (len crc : ℕ) (rest : List ℕ)
    → length rest < len
    → decode_payload f len crc rest ≡ err torn
unfolding decode_payload
decode_payload-short f len crc rest h =
    let short : leb len (length rest) ≡ false = ground (arith, h) in rw short refl

-- Let the JSON codec read back what it wrote, with a checksum that is a `u32`. Then the frame of an event
-- that it writes is read back, whatever follows it, and what is taken is the length of the frame.
pub decode_frame-encode_frame :
    (f : Format) (ev : WireEvent) (rest : List ℕ) {frame : List ℕ}
    → IsFormat f
    → encode_frame f ev ≡ ok frame
    → decode_frame f (frame ++ rest) ≡ ok (some (ev, length frame))
unfolding frame_of to_le_bytes decode_frame
decode_frame-encode_frame f ev rest {frame} h e =
    let (payload, written, fits, same) = encode_frame-ok f ev e in
    rw (same, length-frame_of f payload)
      (decode_payload-whole f ev _ _ payload rest (le_bytes_lem (length payload) fits)
        (le_bytes_lem (f.hash payload) (h.hash_u32 payload)) (h.reads_back ev payload written))

torn_lem :
    (f : Format) (payload : List ℕ) (n : ℕ)
    → length payload < 4294967296
    → 0 < n
    → n < length (frame_of f payload)
    → decode_frame f (take n (frame_of f payload)) ≡ err torn
unfolding frame_of to_le_bytes decode_frame
torn_lem f payload zero fits pos h = absurd (omega (arith, pos))
torn_lem f payload (suc zero) fits pos h = refl
torn_lem f payload (suc (suc zero)) fits pos h = refl
torn_lem f payload (suc (suc (suc zero))) fits pos h = refl
torn_lem f payload (suc (suc (suc (suc zero)))) fits pos h = refl
torn_lem f payload (suc (suc (suc (suc (suc zero))))) fits pos h = refl
torn_lem f payload (suc (suc (suc (suc (suc (suc zero)))))) fits pos h = refl
torn_lem f payload (suc (suc (suc (suc (suc (suc (suc zero))))))) fits pos h = refl
torn_lem f payload (suc (suc (suc (suc (suc (suc (suc (suc n)))))))) fits pos h =
    decode_payload-short f _ _ (take n payload)
      (omega (arith, h, length-take n payload, le_bytes_lem (length payload) fits))

-- A frame that is cut short anywhere, but not to nothing, is torn: it is never taken for an event, nor
-- for corruption.
pub decode_frame-take :
    (f : Format) (ev : WireEvent) (n : ℕ) {frame : List ℕ}
    → encode_frame f ev ≡ ok frame
    → 0 < n
    → n < length frame
    → decode_frame f (take n frame) ≡ err torn
decode_frame-take f ev n e pos h =
    let (payload, _, fits, same) = encode_frame-ok f ev e in
    rw same (torn_lem f payload n fits pos (rw same at h))
