-- ===== src/Segment/Validation.antt =====
-- What the validation of a segment finds.
use talea.Prelude.{ℕ, zero, suc, ◌+◌, ◌<◌, ◌≤◌, ◌≡◌, refl, subst, sym, ap, ◌∙◌, Bool}
use talea.Prelude.{
  Option, none, some, List, [], ◌∷◌, ◌++◌, append_assoc, append-nil, length, length-append, drop,
  arith,
}
use talea.Prelude.{drop_nil, if◌then◌else◌}
use talea.Prelude.Lists.{take}
use talea.Result.{ok, err, ok_inj, >>=-eq-ok}
use talea.Writer.Classify.{WireEvent}
use talea.Frame.{Format, IsFormat, FrameError, encode_frame, decode_frame}
use talea.Frame.RoundTrip.{
  decode_frame-encode_frame, decode_frame-take, encode_frame-ok, length-frame_of,
}
use talea.Segment.{
  Verdict, clean, truncate, corrupt_at, validate_from, validate_segment, encode_all,
}

drop_add : (a b : ℕ) (xs : List ℕ) → drop (a + b) xs ≡ drop b (drop a xs)
drop_add zero b xs = ap (λ n. drop n xs) (omega arith)
drop_add (suc a) b [] = ap (λ n. drop n []) (omega arith) ∙ drop_nil (suc a + b) ∙ sym (drop_nil b)
drop_add (suc a) b (x ∷ xs) =
    let s : suc a + b ≡ suc (a + b) = omega arith in rw s (drop_add a b xs)

drop-append_all : (xs ys : List ℕ) → drop (length xs) (xs ++ ys) ≡ ys
drop-append_all [] ys = refl
drop-append_all (x ∷ xs) ys = drop-append_all xs ys

-- A frame takes at least a byte, so there are no more events than bytes.
pub length-encode_all :
    (f : Format) (evs : List WireEvent) {enc : List ℕ}
    → encode_all f evs ≡ ok enc
    → length evs ≤ length enc
unfolding encode_all
length-encode_all f [] e = omega arith
length-encode_all f (ev ∷ evs) e =
    let (frame, one, e') = >>=-eq-ok (encode_frame f ev) _ e in
    let (rest, others, e'') = >>=-eq-ok (encode_all f evs) _ e' in
    let (payload, _, _, same) = encode_frame-ok f ev one in
    let h = length-encode_all f evs others in
    let l : length frame ≡ 8 + length payload = ap length same ∙ length-frame_of f payload in
    subst (λ (b : List ℕ). suc (length evs) ≤ length b) (ok_inj e'')
      (omega (arith, h, l, length-append frame rest))

-- The loop, by what it decodes.
module _ (f : Format) (is_final : Bool) (fuel : ℕ) (bytes : List ℕ) (pos last_good : ℕ) where
  pub validate_from-frame :
      {ev : WireEvent} {consumed : ℕ}
      → decode_frame f (drop pos bytes) ≡ ok (some (ev, consumed))
      → validate_from f is_final (suc fuel) bytes pos last_good
        ≡ validate_from f is_final fuel bytes (pos + consumed) (pos + consumed)
  unfolding validate_from
  validate_from-frame e = rw (validate_from, e) refl

  pub validate_from-end :
      decode_frame f (drop pos bytes) ≡ ok none
      → validate_from f is_final (suc fuel) bytes pos last_good ≡ some clean
  unfolding validate_from
  validate_from-end e = rw (validate_from, e) refl

  pub validate_from-error :
      {e : FrameError}
      → decode_frame f (drop pos bytes) ≡ err e
      → validate_from f is_final (suc fuel) bytes pos last_good
        ≡ (if is_final then some (truncate last_good) else some (corrupt_at pos))
  unfolding validate_from
  validate_from-error e = rw (validate_from, e) refl

decode_frame-end : (f : Format) → decode_frame f [] ≡ ok none
unfolding decode_frame
decode_frame-end f = refl

-- The loop passes over the frames of events, and comes to what follows them.
validate_from-encoded :
    (f : Format) (is_final : Bool) (bytes tail : List ℕ) (v : ℕ → Option Verdict)
    (evs : List WireEvent) (pos n : ℕ) {enc : List ℕ}
    → IsFormat f
    → encode_all f evs ≡ ok enc
    → drop pos bytes ≡ enc ++ tail
    → length evs < n
    → ((m p : ℕ) → drop p bytes ≡ tail → validate_from f is_final (suc m) bytes p p ≡ v p)
    → validate_from f is_final n bytes pos pos ≡ v (pos + length enc)
unfolding encode_all
validate_from-encoded f is_final bytes tail v evs pos zero h e at less after =
    absurd (omega (arith, less))
validate_from-encoded f is_final bytes tail v [] pos (suc n) {enc} h e at less after =
    let at' : drop pos bytes ≡ tail = at ∙ ap (λ b. b ++ tail) (sym (ok_inj e)) in
    let p : pos ≡ pos + length enc =
      subst (λ (b : List ℕ). pos ≡ pos + length b) (ok_inj e) (omega arith) in
    after n pos at' ∙ ap v p
validate_from-encoded f is_final bytes tail v (ev ∷ evs) pos (suc n) {enc} h e at less after =
    let (frame, one, e') = >>=-eq-ok (encode_frame f ev) _ e in
    let (rest, others, e'') = >>=-eq-ok (encode_all f evs) _ e' in
    let here : drop pos bytes ≡ frame ++ (rest ++ tail) =
      at ∙ ap (λ b. b ++ tail) (sym (ok_inj e'')) ∙ append_assoc frame rest tail in
    let next : drop (pos + length frame) bytes ≡ rest ++ tail =
      drop_add pos (length frame) bytes
      ∙ ap (drop (length frame)) here
      ∙ drop-append_all frame (rest ++ tail) in
    let l : length enc ≡ length frame + length rest =
      ap length (sym (ok_inj e'')) ∙ length-append frame rest in
    let len_eq : (pos + length frame) + length rest ≡ pos + length enc = omega (arith, l) in
    validate_from-frame f is_final n bytes pos pos
      (ap (decode_frame f) here ∙ decode_frame-encode_frame f ev (rest ++ tail) h one)
    ∙ validate_from-encoded f is_final bytes tail v evs (pos + length frame) n h others next
        (omega (arith, less)) after
    ∙ ap v len_eq

-- Let the JSON codec read back what it wrote, with a checksum that is a `u32`. Then a segment that holds
-- the frames of events, and nothing else, is clean.
pub validate_segment-clean :
    (f : Format) (is_final : Bool) (evs : List WireEvent) {enc : List ℕ}
    → IsFormat f
    → encode_all f evs ≡ ok enc
    → validate_segment f enc is_final ≡ some clean
unfolding validate_segment
validate_segment-clean f is_final evs {enc} h e =
    validate_from-encoded f is_final enc [] (λ _. some clean) evs 0 (suc (length enc)) h e
      (sym (append-nil enc)) (omega (arith, length-encode_all f evs e))
      (λ m p at.
        validate_from-end f is_final m enc p p (ap (decode_frame f) at ∙ decode_frame-end f))

-- Let the JSON codec read back what it wrote, with a checksum that is a `u32`. Then of a segment that ends
-- in a frame cut short, to one byte at least, the final one is to be truncated to the frames before it,
-- and a sealed one is reported as corrupt where the cut frame starts.
pub validate_segment-torn :
    (f : Format) (is_final : Bool) (evs : List WireEvent) (last : WireEvent) (n : ℕ)
    {enc frame : List ℕ}
    → IsFormat f
    → encode_all f evs ≡ ok enc
    → encode_frame f last ≡ ok frame
    → 0 < n
    → n < length frame
    → validate_segment f (enc ++ take n frame) is_final
      ≡ (if is_final then some (truncate (length enc)) else some (corrupt_at (length enc)))
unfolding validate_segment
validate_segment-torn f is_final evs last n {enc} {frame} h e one pos short =
    let start : 0 + length enc ≡ length enc = omega arith in
    validate_from-encoded f is_final (enc ++ take n frame) (take n frame)
      (λ p. if is_final then some (truncate p) else some (corrupt_at p)) evs 0
      (suc (length (enc ++ take n frame))) h e refl
      (omega (arith, length-encode_all f evs e, length-append enc (take n frame)))
      (λ m p at.
        validate_from-error f is_final m (enc ++ take n frame) p p
          (ap (decode_frame f) at ∙ decode_frame-take f last n one pos short))
    ∙ ap (λ p. if is_final then some (truncate p) else some (corrupt_at p)) start
