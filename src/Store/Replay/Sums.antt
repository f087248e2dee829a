-- ===== src/Store/Replay/Sums.antt =====
-- The two ways to the sums of a trial balance agree: those that the replay leaves in the state, and those
-- that the slow path folds from the log.
use talea.Prelude.{◌-◌, ◌≤◌, ◌≡◌, refl, sym, ◌∙◌, ap, false}
use talea.Prelude.{none, some, List, [], ◌∷◌, All, ltb, map, arith, Option-cases}
use talea.Prelude.{inl, inr}
use talea.Result.{ok, ok_inj, some_inj, bind_option-eq-some, >>=-eq-ok}
use talea.Types.{Seq, DateTime, Uuid, Posting, LedgerEvent}
use talea.Types.{asset_registered, account_opened, transaction_posted}
use talea.State.{BookState, FramePos}
use talea.State.Apply.{try_apply_transaction, apply_postings, update_account, record_commit}
use talea.State.Apply.{apply_account_opened, bump_seq}
use talea.Writer.Classify.{WireEvent}
use talea.Frame.{Format}
use talea.Segment.Scan.{catalog, scan_with_pos}
use talea.Segment.Scan.Frames.{scan_from-scan_with_pos}
use talea.Store.Data.{BookWriter}
use talea.Store.Reads.{usize_max, rows, trial_balance_in}
use talea.Store.Reads.{sum_postings, sum_event, sum_until}
use talea.Store.Replay.{Replayed, replay, replay_event}

-- The postings add to the sums what the slow path adds, whatever accounts there are.
apply_postings-sums :
    (txid : Uuid) (seq : Seq) (at : DateTime) (ps : List Posting) (st : BookState) {st' : BookState}
    → apply_postings txid seq at ps st ≡ some st'
    → st'.sums ≡ sum_postings ps st.sums
unfolding apply_postings sum_postings
apply_postings-sums txid seq at [] st e = ap (λ (s : BookState). s.sums) (sym (some_inj e))
apply_postings-sums txid seq at (p ∷ ps) st e =
    let (accounts', _, rest) = bind_option-eq-some (update_account txid seq at p st.accounts) _ e in
    apply_postings-sums txid seq at ps _ rest

replay_event-sums :
    (wire : WireEvent) (place : FramePos) (ev : LedgerEvent) (r : Replayed) {r' : Replayed}
    → replay_event wire place ev r ≡ ok r'
    → r'.state.sums ≡ sum_event ev r.state.sums
unfolding replay_event sum_event try_apply_transaction record_commit apply_account_opened bump_seq
replay_event-sums wire place (transaction_posted tx) r e =
    elim (Option-cases (apply_postings tx.id wire.seq wire.at tx.postings r.state)) [
      | inl overflows ↦ absurd (ground (arith, overflows, e))
      | inr (st, applies) ↦
          let e' = rw (applies, replay_event, try_apply_transaction) at e in
          ap (λ (x : Replayed). x.state.sums) (sym (ok_inj e'))
          ∙ apply_postings-sums tx.id wire.seq wire.at tx.postings r.state applies
    ]
replay_event-sums wire place (account_opened def cfg) r e =
    ap (λ (x : Replayed). x.state.sums) (sym (ok_inj e))
replay_event-sums wire place (asset_registered def) r e =
    ap (λ (x : Replayed). x.state.sums) (sym (ok_inj e))

-- From any state, the replay adds what the slow path folds, if that stops nowhere.
sum_until-replay :
    (ceiling : Seq) (t : DateTime) (pairs : List (WireEvent × FramePos)) (r : Replayed)
    {r' : Replayed}
    → All (λ p. (p.0.seq ≤ ceiling) × (p.0.at ≤ t)) pairs
    → replay pairs r ≡ ok r'
    → sum_until ceiling t (map (λ (p : WireEvent × FramePos). p.0) pairs) r.state.sums
      ≡ r'.state.sums
unfolding replay sum_until
sum_until-replay ceiling t [] r h e = ap (λ (x : Replayed). x.state.sums) (ok_inj e)
sum_until-replay ceiling t ((wire, place) ∷ pairs) r h e =
    let (next, one, rest) = >>=-eq-ok (replay_event wire place wire.event r) _ e in
    let seen : ltb ceiling wire.seq ≡ false = ground (arith, h.0.0) in
    let early : ltb t wire.at ≡ false = ground (arith, h.0.1) in
    let sums = replay_event-sums wire place wire.event r one in
    rw (seen, early, sym sums, sum_until) (sum_until-replay ceiling t pairs next h.1 rest)

-- Let the log of a book be scanned to its end, and replayed, from a state with no sums, to the state that
-- the writer has. Let no event of the log be beyond the writer's state or later than a time. Then the
-- trial balance as of that time, which is folded from the log, is the current one, which is read from the
-- state, and both succeed.
pub trial_balance_in-replay :
    (f : Format) (w : BookWriter) (t : DateTime) (pairs : List (WireEvent × FramePos))
    (r : Replayed) {r' : Replayed}
    → scan_with_pos f 1 usize_max (catalog w.log) ≡ ok pairs
    → r.state.sums ≡ []
    → replay pairs r ≡ ok r'
    → r'.state ≡ w.state
    → All (λ p. (p.0.seq ≤ w.state.next_seq - 1) × (p.0.at ≤ t)) pairs
    → (trial_balance_in f w (some t) ≡ ok (rows w.state.sums))
      × (trial_balance_in f w none ≡ ok (rows w.state.sums))
unfolding trial_balance_in
trial_balance_in-replay f w t pairs r scanned empty replayed same early =
    let events = scan_from-scan_with_pos f 1 usize_max (catalog w.log) in
    let fold = sum_until-replay (w.state.next_seq - 1) t pairs r early replayed in
    let end = ap (λ (s : BookState). s.sums) same in
    let start =
      ap (sum_until (w.state.next_seq - 1) t (map (λ (p : WireEvent × FramePos). p.0) pairs))
        (sym empty) in
    (rw (events, scanned, trial_balance_in) (ap (λ m. ok (rows m)) (start ∙ fold ∙ end)), refl)
