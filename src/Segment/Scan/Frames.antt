-- ===== src/Segment/Scan/Frames.antt =====
-- A scan that keeps more of each event finds the same events.
use talea.Prelude.{ℕ, zero, suc, ◌+◌, ◌≡◌, refl, sym, ◌∙◌, ap, Bool, true, false}
use talea.Prelude.{List, [], ◌∷◌, ◌++◌, map, length, drop, leb, ◌==◌, if◌then◌else◌, Bool-cases}
use talea.Prelude.{Option-cases, ◌⊎◌, inl, inr, String}
use talea.Prelude.Lists.{length-map}
use mathlib.Core.List.{map-append}
use talea.Result.{Result, ok, err, Result-cases}
use talea.Types.{Seq}
use talea.Writer.Classify.{WireEvent}
use talea.State.{FramePos}
use talea.Frame.{Format, decode_frame}
use talea.Segment.Scan.{
  Catalog, Scan, next, halt, broken, scan_frames, scan_segment, scan_segments, scan, scan_from,
}
use talea.Segment.Scan.{scan_with_pos, start_base, range_from}

Scan-cases :
    {A : Type 0} (x : Scan A)
    → ((rs : List A) × (x ≡ next rs))
      ⊎ (((rs : List A) × (x ≡ halt rs)) ⊎ ((e : String) × (x ≡ broken e)))
Scan-cases (next rs) = inl (rs, refl)
Scan-cases (halt rs) = inr (inl (rs, refl))
Scan-cases (broken e) = inr (inr (e, refl))

module _ {A B : Type 0} (g : A → B) where
  abbrev map_scan : Scan A → Scan B
  map_scan (next rs) = next (map g rs)
  map_scan (halt rs) = halt (map g rs)
  map_scan (broken e) = broken e

  abbrev pub map_ok : Result String (List A) → Result String (List B)
  map_ok (ok rs) = ok (map g rs)
  map_ok (err e) = err e

  module _ (f : Format) (keep : WireEvent → FramePos → A) (from : Seq) (limit : ℕ) where
    abbrev kept : WireEvent → FramePos → B
    kept ev place = g (keep ev place)

    keep_if :
        (b : Bool) (ev : WireEvent) (place : FramePos) (rs : List A)
        → (if b then map g rs ++ (kept ev place ∷ []) else map g rs)
          ≡ map g (if b then rs ++ (keep ev place ∷ []) else rs)
    keep_if true ev place rs = sym (map-append g rs (keep ev place ∷ []))
    keep_if false ev place rs = refl

    scan_frames-map :
        (is_last : Bool) (base : Seq) (fuel : ℕ) (bytes : List ℕ) (pos : ℕ) (rs : List A)
        → scan_frames f kept from limit is_last base fuel bytes pos (map g rs)
          ≡ map_scan (scan_frames f keep from limit is_last base fuel bytes pos rs)
    unfolding scan_frames
    scan_frames-map is_last base zero bytes pos rs = refl
    scan_frames-map is_last base (suc fuel) bytes pos rs =
        elim (Bool-cases (leb limit (length rs))) [
          | inl full ↦ rw (length-map rs g, full, scan_frames) refl
          | inr open_ ↦ elim (Result-cases (decode_frame f (drop pos bytes))) [
            | inr (e, bad) ↦ elim (Bool-cases is_last) [
              | inl last ↦ rw (length-map rs g, open_, bad, last, scan_frames) refl
              | inr sealed ↦ rw (length-map rs g, open_, bad, sealed, scan_frames) refl
            ]
            | inl (o, good) ↦ elim (Option-cases o) [
              | inl end ↦ rw (length-map rs g, open_, good, end, scan_frames) refl
              | inr (ec, frame) ↦
                  rw (length-map rs g, open_, good, frame, scan_frames)
                    (ap (scan_frames f kept from limit is_last base fuel bytes (pos + ec.1))
                        (keep_if (leb from ec.0.seq) ec.0 (base, pos) rs)
                      ∙ scan_frames-map is_last base fuel bytes (pos + ec.1)
                          (if leb from ec.0.seq then rs ++ (keep ec.0 (base, pos) ∷ []) else rs))
            ]
          ]
        ]

    scan_segment-map :
        (is_last : Bool) (base : Seq) (bytes : List ℕ) (rs : List A)
        → scan_segment f kept from limit is_last base bytes (map g rs)
          ≡ map_scan (scan_segment f keep from limit is_last base bytes rs)
    unfolding scan_segment
    scan_segment-map is_last base bytes rs =
        scan_frames-map is_last base (suc (length bytes)) bytes 0 rs

    scan_segments-map :
        (segments : Catalog) (rs : List A)
        → scan_segments f kept from limit segments (map g rs)
          ≡ map_ok (scan_segments f keep from limit segments rs)
    unfolding scan_segments
    scan_segments-map [] rs = refl
    scan_segments-map ((base, bytes) ∷ []) rs =
        let m = scan_segment-map true base bytes rs in
        elim (Bool-cases (leb limit (length rs))) [
          | inl full ↦ rw (length-map rs g, full, scan_segments) refl
          | inr open_ ↦ elim (Scan-cases (scan_segment f keep from limit true base bytes rs)) [
            | inl (all, e) ↦ rw (length-map rs g, open_, m, e, scan_segments) refl
            | inr (inl (all, e)) ↦ rw (length-map rs g, open_, m, e, scan_segments) refl
            | inr (inr (text, e)) ↦ rw (length-map rs g, open_, m, e, scan_segments) refl
          ]
        ]
    scan_segments-map ((base, bytes) ∷ segment ∷ segments) rs =
        let m = scan_segment-map false base bytes rs in
        elim (Bool-cases (leb limit (length rs))) [
          | inl full ↦ rw (length-map rs g, full, scan_segments) refl
          | inr open_ ↦ elim (Scan-cases (scan_segment f keep from limit false base bytes rs)) [
            | inl (all, e) ↦
                rw (length-map rs g, open_, m, e, scan_segments)
                  (scan_segments-map (segment ∷ segments) all)
            | inr (inl (all, e)) ↦ rw (length-map rs g, open_, m, e, scan_segments) refl
            | inr (inr (text, e)) ↦ rw (length-map rs g, open_, m, e, scan_segments) refl
          ]
        ]

    scan-map :
        (segments : Catalog)
        → scan f kept from limit segments ≡ map_ok (scan f keep from limit segments)
    unfolding scan
    scan-map [] = refl
    scan-map ((base, bytes) ∷ segments) = elim (Bool-cases (limit == 0)) [
      | inl nothing ↦ rw nothing refl
      | inr some_ ↦ rw some_ (
          scan_segments-map
            (range_from (start_base from base ((base, bytes) ∷ segments))
              ((base, bytes) ∷ segments))
            [])
    ]

-- Without the positions, the one scan is the other.
pub scan_from-scan_with_pos :
    (f : Format) (from : Seq) (limit : ℕ) (segments : Catalog)
    → scan_from f from limit segments
      ≡ map_ok (λ (p : WireEvent × FramePos). p.0) (scan_with_pos f from limit segments)
unfolding scan_from scan_with_pos
scan_from-scan_with_pos f from limit segments =
    scan-map (λ (p : WireEvent × FramePos). p.0) f (λ ev place. (ev, place)) from limit segments
