-- ===== src/Segment/Recovery.antt =====
-- Opening a log whose last write was cut short.
use talea.Prelude.{ℕ, ◌<◌, ◌≡◌, refl, ap, true, false}
use talea.Prelude.{List, [], ◌∷◌, ◌++◌, length}
use talea.Prelude.Lists.{take}
use talea.Result.{ok}
use talea.Types.{Seq}
use talea.Writer.Classify.{WireEvent}
use talea.Frame.{Format, IsFormat, encode_frame}
use talea.Segment.{repair, open_all, encode_all}
use talea.Segment.Validation.{validate_segment-clean, validate_segment-torn}

-- The segments hold the frames of the events of `written`, base by base.
abbrev pub Holds : Format → List (Seq × List ℕ) → List (Seq × List WireEvent) → Type 0
Holds f [] [] = Unit
Holds f ((base, bytes) ∷ segments) ((b, evs) ∷ written) =
    (base ≡ b) × (encode_all f evs ≡ ok bytes) × Holds f segments written
Holds f [] (_ ∷ _) = ⊥
Holds f (_ ∷ _) [] = ⊥

take-append_all : (xs ys : List ℕ) → take (length xs) (xs ++ ys) ≡ xs
take-append_all [] ys = refl
take-append_all (x ∷ xs) ys = ap (λ l. x ∷ l) (take-append_all xs ys)

-- Let the JSON codec read back what it wrote, with a checksum that is a `u32`. Then a log whose last frame
-- was cut short, to one byte at least, opens as the log without that frame: the sealed segments are left
-- alone and the last one is truncated to its whole frames.
pub open_all-torn :
    (f : Format) (segments : List (Seq × List ℕ)) (written : List (Seq × List WireEvent))
    (base : Seq) (evs : List WireEvent) (last : WireEvent) (n : ℕ) {enc frame : List ℕ}
    → IsFormat f
    → Holds f segments written
    → encode_all f evs ≡ ok enc
    → encode_frame f last ≡ ok frame
    → 0 < n
    → n < length frame
    → open_all f (segments ++ ((base, enc ++ take n frame) ∷ []))
      ≡ ok (segments ++ ((base, enc) ∷ []))
unfolding open_all repair
open_all-torn f [] [] base evs last n {enc} {frame} h holds e one pos short =
    rw
      (
        validate_segment-torn f true evs last n h e one pos short,
        take-append_all enc (take n frame),
      )
      refl
open_all-torn f ((b, bytes) ∷ []) ((c, sealed) ∷ written) base evs last n h holds e one pos short =
    rw
      (
        validate_segment-clean f false sealed h holds.1,
        open_all-torn f [] written base evs last n h holds.2 e one pos short,
      )
      refl
open_all-torn f ((b, bytes) ∷ s ∷ segments) ((c, sealed) ∷ written) base evs last n h holds e one
      pos short =
    rw
      (
        validate_segment-clean f false sealed h holds.1,
        open_all-torn f (s ∷ segments) written base evs last n h holds.2 e one pos short,
      )
      refl
open_all-torn f [] (_ ∷ _) base evs last n h holds e one pos short = absurd holds
open_all-torn f (_ ∷ _) [] base evs last n h holds e one pos short = absurd holds
