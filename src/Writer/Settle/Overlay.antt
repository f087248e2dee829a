-- ===== src/Writer/Settle/Overlay.antt =====
-- The overlay of a batch beside the state, and staged events at the end of a list.
use talea.Prelude.{ℕ, ◌+◌, ◌≡◌, subst, ap, ◌∙◌, String, none, some}
use talea.Prelude.{List, [], ◌∷◌, ◌++◌, length, arith, Option-cases, inl, inr}
use talea.Prelude.Eq.{string_eq}
use talea.Prelude.Int.{ℤ, pos}
use talea.HashMap.{HashMap, get, insert, or_insert, get-insert, get-or_insert}
use talea.Result.{ok, bind_option, bind_option-eq-some, some_inj}
use text.Mathlib.TextEquality.{eq_iff}
use talea.Types.{Posting, to_key}
use talea.State.{AccountState, BookState, FramePos}
use talea.State.Validate.{stage_postings, seed, committed_raw, check_accounts, post_raw}
use talea.State.Validate.Staging.{get-seed}
use talea.State.Apply.Agreement.{Follows}
use talea.State.Apply.Conservation.{check_accounts-cons}
use talea.Writer.Classify.{Staged}
use talea.Writer.Settle.{apply_event, apply_staged, placed}

-- The overlay has entries only for accounts of the committed state.
abbrev pub IsKnown : HashMap String AccountState → HashMap String ℤ → Type 0
IsKnown accounts raw = (k : String) → get k accounts ≡ none → get k raw ≡ none

pub IsKnown-seed :
    (accounts : HashMap String AccountState) (ps : List Posting) (raw : HashMap String ℤ)
    → check_accounts accounts ps ≡ ok tt
    → IsKnown accounts raw
    → IsKnown accounts (seed accounts ps raw)
unfolding seed
IsKnown-seed accounts [] raw c h = h
IsKnown-seed accounts (p ∷ ps) raw c h =
    let key = to_key p.account in
    let v = committed_raw accounts key in
    let (a, found, _, c') = check_accounts-cons accounts p ps c in
    IsKnown-seed accounts ps (or_insert key v raw) c'
      (λ k absent. ground (arith, get-or_insert key k v raw, h k absent, eq_iff key k))

pub IsKnown-stage :
    (accounts : HashMap String AccountState) (ps : List Posting) (raw : HashMap String ℤ)
    {raw' : HashMap String ℤ}
    → stage_postings ps raw ≡ some raw'
    → IsKnown accounts raw
    → IsKnown accounts raw'
unfolding stage_postings
IsKnown-stage accounts [] raw e h = subst (IsKnown accounts) (some_inj e) h
IsKnown-stage accounts (p ∷ ps) raw e h =
    let key = to_key p.account in
    let (r, er, e') = bind_option-eq-some (get key raw) _ e in
    let (v, ev, e'') = bind_option-eq-some (post_raw p.direction r p.amount.minor) _ e' in
    IsKnown-stage accounts ps (insert key v raw) e''
      (λ k absent. ground (arith, get-insert key k v raw, h k absent, eq_iff key k))

-- Seeding does not change what the balances follow.
pub Follows-seed :
    (accounts now_accounts : HashMap String AccountState) (ps : List Posting)
    (raw : HashMap String ℤ)
    → Follows (committed_raw accounts) raw now_accounts
    → Follows (committed_raw accounts) (seed accounts ps raw) now_accounts
Follows-seed accounts now_accounts ps raw h k a e =
    ground (arith, get-seed accounts ps raw k, h k a e)

-- A newly opened account has the balance 0, as has an account that is not in the state.
pub Follows-open :
    (accounts now_accounts : HashMap String AccountState) (raw : HashMap String ℤ) (key : String)
    (a : AccountState)
    → get key accounts ≡ none
    → IsKnown accounts raw
    → a.raw_balance ≡ pos 0
    → Follows (committed_raw accounts) raw now_accounts
    → Follows (committed_raw accounts) raw (or_insert key a now_accounts)
unfolding committed_raw
Follows-open accounts now_accounts raw key a absent known zero_raw h k b e =
    ground (arith, get-or_insert key k a now_accounts, eq_iff key k, known key absent, h k b)

pub placed-append :
    (places : ℕ → FramePos) (i : ℕ) (xs : List Staged) (s : Staged)
    → placed places i (xs ++ (s ∷ []))
      ≡ placed places i xs ++ (record s { place = places (i + length xs) } ∷ [])
unfolding placed
placed-append places i [] s = ap (λ n. record s { place = places n } ∷ []) (omega arith)
placed-append places i (x ∷ xs) s =
    ap (λ l. record x { place = places i } ∷ l)
      (placed-append places (i + 1) xs s
        ∙ ap (λ n. placed places (i + 1) xs ++ (record s { place = places n } ∷ [])) (omega arith))

pub apply_staged-append :
    (xs : List Staged) (s : Staged) (st : BookState)
    → apply_staged (xs ++ (s ∷ [])) st
      ≡ bind_option (apply_staged xs st) (λ st'. apply_event s.wire s.place st')
unfolding apply_staged
apply_staged-append [] s st = elim (Option-cases (apply_event s.wire s.place st)) [
  | inl e ↦ rw e
  | inr (st', e) ↦ rw e
]
apply_staged-append (x ∷ xs) s st = elim (Option-cases (apply_event x.wire x.place st)) [
  | inl e ↦ rw e
  | inr (st', e) ↦ rw e (apply_staged-append xs s st')
]
