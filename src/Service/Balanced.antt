-- ===== src/Service/Balanced.antt =====
-- A transaction that the service submits balances in every asset.
use text.Mathlib.TextEquality.{eq_iff}
use talea.Prelude.{String, ◌≡◌, refl, sym, ap, subst, ◌∙◌, false, some, List, [], ◌∷◌, arith}
use talea.Prelude.{Option-cases, Bool-cases, inl, inr, if◌then◌else◌}
use talea.Prelude.Eq.{string_eq, ◌=?◌}
use talea.Prelude.Int.{ℤ, pos, pos_part, neg_part, ◌+ℤ◌, ◌-ℤ◌, int_laws, leb_ℤ}
use talea.HashMap.{HashMap, get, insert, get-insert}
use talea.I64.{checked_add, checked_add_sum}
use talea.Result.{ok, unwrap_or, ok_inj, some_inj, bind_option-eq-some, >>=-eq-ok}
use talea.Types.{Direction, debit, credit, Posting, Transaction, Uuid, DateTime, Seq}
use talea.Types.Equality.{int_eq}
use talea.State.{BookState, FramePos}
use talea.State.Validate.{check_accounts}
use talea.State.Apply.{try_apply_transaction}
use talea.State.Apply.Conservation.{net, signed, book_total, try_apply_transaction-book_total}
use talea.Service.{add_side, parsed_posting, tally, check_totals, prepare, parse_book, is_nil}
use talea.Service.Drafts.{PostingDraft, TransactionDraft}

-- The debits less the credits that the totals hold of an asset.
abbrev surplus : HashMap String (ℤ × ℤ) → String → ℤ
surplus totals asset =
    (unwrap_or (get asset totals) (pos 0, pos 0)).0
    -ℤ (unwrap_or (get asset totals) (pos 0, pos 0)).1

add_side-signed :
    (side : Direction) (minor : ℤ) (entry : ℤ × ℤ) {entry' : ℤ × ℤ}
    → add_side side minor entry ≡ some entry'
    → entry'.0 -ℤ entry'.1 ≡ (entry.0 -ℤ entry.1) +ℤ signed side minor
unfolding add_side
add_side-signed debit minor (d, c) h =
    let (d', e, same) = bind_option-eq-some (checked_add d minor) _ h in
    subst (λ (x : ℤ × ℤ). x.0 -ℤ x.1 ≡ (d -ℤ c) +ℤ minor) (some_inj same)
      (rw (checked_add_sum d minor e) (omega int_laws))
add_side-signed credit minor (d, c) h =
    let (c', e, same) = bind_option-eq-some (checked_add c minor) _ h in
    subst (λ (x : ℤ × ℤ). x.0 -ℤ x.1 ≡ (d -ℤ c) +ℤ (pos 0 -ℤ minor)) (some_inj same)
      (rw (checked_add_sum c minor e) (omega int_laws))

-- What the tally of a draft goes through.
tally-cons :
    (book : String) (p : PostingDraft) (ps : List PostingDraft) (totals : HashMap String (ℤ × ℤ))
    {out : List Posting × HashMap String (ℤ × ℤ)}
    → tally book (p ∷ ps) totals ≡ ok out
    → (entry : ℤ × ℤ) × (rest : List Posting × HashMap String (ℤ × ℤ)) × (add_side p.direction
          p.amount.minor
          (unwrap_or (get p.amount.asset totals) (pos 0, pos 0))
        ≡ some entry)
      × (tally book ps (insert p.amount.asset entry totals) ≡ ok rest)
      × (out ≡ (parsed_posting book p ∷ rest.0, rest.1))
      × (leb_ℤ p.amount.minor (pos 0) ≡ false)
unfolding tally
tally-cons book p ps totals e = elim (Bool-cases (leb_ℤ p.amount.minor (pos 0))) [
  | inl low ↦ absurd (ground (arith, low))
  | inr high ↦ elim (Bool-cases (p.account =? "")) [
    | inl nameless ↦ absurd (ground (arith, high, nameless))
    | inr named ↦
        elim (Option-cases (
          add_side p.direction p.amount.minor
            (unwrap_or (get p.amount.asset totals) (pos 0, pos 0)))) [
              | inl overflow ↦ absurd (ground (arith, high, named, overflow))
              | inr (entry, added) ↦
                  let (rest, went, same) =
                    >>=-eq-ok (tally book ps (insert p.amount.asset entry totals)) _
                      (rw (tally, high, named, added) at e) in
                  (entry, rest, added, went, sym (ok_inj same), high)
            ]
  ]
]

surplus-insert :
    (totals : HashMap String (ℤ × ℤ)) (asset key : String) (entry : ℤ × ℤ)
    → surplus (insert key entry totals) asset
      ≡ (if key =? asset then entry.0 -ℤ entry.1 else surplus totals asset)
surplus-insert totals asset key entry = elim (Bool-cases (key =? asset)) [
  | inl same ↦ rw (get-insert key asset entry totals, same) refl
  | inr other ↦ rw (get-insert key asset entry totals, other) refl
]

sum_step :
    (final inserted base x n : ℤ)
    → final ≡ inserted +ℤ n
    → inserted ≡ base +ℤ x
    → final ≡ base +ℤ (x +ℤ n)
sum_step final inserted base x n e f = rw (e, f) (omega int_laws)

zero_net : (n : ℤ) → pos 0 ≡ (pos 0 -ℤ pos 0) +ℤ n → n ≡ pos 0
zero_net n e = omega (int_laws, ap pos_part e, ap neg_part e)

add_zero : (a : ℤ) → a ≡ a +ℤ pos 0
add_zero a = omega int_laws

-- The totals grow by what the postings are net.
tally-net :
    (book : String) (ps : List PostingDraft) (totals : HashMap String (ℤ × ℤ)) (asset : String)
    {out : List Posting × HashMap String (ℤ × ℤ)}
    → tally book ps totals ≡ ok out
    → surplus out.1 asset ≡ surplus totals asset +ℤ net asset out.0
unfolding tally net
tally-net book [] totals asset e =
    subst
      (λ (o : List Posting × HashMap String (ℤ × ℤ)).
        surplus o.1 asset ≡ surplus totals asset +ℤ net asset o.0)
      (ok_inj e) (omega int_laws)
tally-net book (p ∷ ps) totals asset e =
    let (entry, rest, added, went, same, _) = tally-cons book p ps totals e in
    let h = tally-net book ps (insert p.amount.asset entry totals) asset went in
    let s = add_side-signed p.direction p.amount.minor _ added in
    let i = surplus-insert totals asset p.amount.asset entry in
    rw same (elim (Bool-cases (p.amount.asset =? asset)) [
      | inl here ↦
          let key : p.amount.asset ≡ asset = (eq_iff p.amount.asset asset).0 here in
          rw here (
            sum_step _ _ _ _ _ h (
              (rw here at i)
              ∙ s
              ∙ ap (λ k. surplus totals k +ℤ signed p.direction p.amount.minor) key))
      | inr there ↦
          rw there (sum_step _ _ _ (pos 0) _ h ((rw there at i) ∙ add_zero (surplus totals asset)))
    ])

check_totals-get :
    (totals : HashMap String (ℤ × ℤ)) (asset : String)
    → check_totals totals ≡ ok tt
    → surplus totals asset ≡ pos 0
unfolding check_totals get
check_totals-get [] asset e = omega int_laws
check_totals-get ((key, (d, c)) ∷ totals) asset e = elim (Bool-cases (int_eq d c)) [
  | inr differ ↦ absurd (ground (arith, differ))
  | inl same ↦ elim (Bool-cases (key =? asset)) [
    | inl here ↦ rw here (let d_is_c : d ≡ c = ground (arith, same) in rw d_is_c (omega int_laws))
    | inr there ↦ rw there (check_totals-get totals asset (rw same at e))
  ]
]

-- What `prepare` goes through.
prepare-ok :
    (draft : TransactionDraft) (id : Uuid) (now : DateTime) {tx : Transaction}
    → prepare draft id now ≡ ok tx
    → (book : String) × (parsed : List Posting × HashMap String (ℤ × ℤ)) × (tally book
          draft.postings []
        ≡ ok parsed)
      × (check_totals parsed.1 ≡ ok tt)
      × (tx.postings ≡ parsed.0)
unfolding prepare
prepare-ok draft id now e =
    let (book, _, e') = >>=-eq-ok (parse_book draft.book) _ e in
    elim (Bool-cases (draft.idempotency_key =? "")) [
      | inl no_key ↦ absurd (ground (arith, no_key))
      | inr keyed ↦ elim (Bool-cases (is_nil draft.postings)) [
        | inl empty ↦ absurd (ground (arith, keyed, empty))
        | inr some_postings ↦
            let (parsed, went, e'') =
              >>=-eq-ok (tally book draft.postings []) _ (rw (keyed, some_postings) at e') in
            let (_, balanced, e₃) = >>=-eq-ok (check_totals parsed.1) _ e'' in
            (book, parsed, went, balanced, ap (λ (t : Transaction). t.postings) (sym (ok_inj e₃)))
      ]
    ]

-- Double entry at the service: in every asset, the debits and the credits of a transaction that `post`
-- submits are equal.
pub prepare-net :
    (draft : TransactionDraft) (id : Uuid) (now : DateTime) (asset : String) {tx : Transaction}
    → prepare draft id now ≡ ok tx
    → net asset tx.postings ≡ pos 0
unfolding get
prepare-net draft id now asset e =
    let (book, parsed, went, balanced, same) = prepare-ok draft id now e in
    let grown = tally-net book draft.postings [] asset went in
    let even = check_totals-get parsed.1 asset balanced in
    rw same (zero_net (net asset parsed.0) (sym even ∙ grown))

-- A transaction that `post` submits leaves the total of the balances of each asset as it was, when it is
-- applied to a book whose accounts pass the store's test of its postings.
pub prepare-book_total :
    (draft : TransactionDraft) (id : Uuid) (now : DateTime) (seq : Seq) (at : DateTime)
    (place : FramePos) (st : BookState) (asset : String) {tx : Transaction} {st' : BookState}
    → prepare draft id now ≡ ok tx
    → check_accounts st.accounts tx.postings ≡ ok tt
    → try_apply_transaction tx seq at place st ≡ some st'
    → book_total asset st'.accounts ≡ book_total asset st.accounts
prepare-book_total draft id now seq at place st asset {tx} e accounts applied =
    try_apply_transaction-book_total tx seq at place st asset accounts applied
    ∙ ap (λ n. book_total asset st.accounts +ℤ n) (prepare-net draft id now asset e)
    ∙ sym (add_zero (book_total asset st.accounts))
