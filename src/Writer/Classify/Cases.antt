-- ===== src/Writer/Classify/Cases.antt =====
-- What the classification of a job can do to the batch, case by case.
use talea.Prelude.{ℕ, ◌≡◌, refl, sym, String, Option, none, some, arith, Option-cases}
use talea.Prelude.{◌⊎◌, inl, inr, ◌&&◌, Bool-cases}
use talea.Prelude.Eq.{string_eq}
use talea.HashMap.{HashMap, get}
use talea.Result.{Result, ok, err, bind_option-eq-some, some_inj, or_else}
use talea.Types.{DateTime, Transaction, AccountDef, AccountCfg, StoreError, to_key, def_eq, cfg_eq}
use talea.Types.{transaction_posted, account_opened, already_exists}
use Prim.Native.String.{◌++◌}
use talea.Idem.{CommittedRec, get_hot}
use talea.State.{BookState, Scratch}
use talea.State.Validate.{validate, stage}
use talea.Writer.Classify.{Batch, Reply, dup, dup_in_batch, reject, accept, reply_with, with_staged}
use talea.Writer.Classify.{with_scratch, on_verdict, classify_new, classify_commit, classify_open}
use talea.Writer.Classify.{open_exists_ok}

-- What a key was committed as in an earlier batch, in the hot tier or in a spilled run.
abbrev pub record_of : String → BookState → HashMap String CommittedRec → Option CommittedRec
record_of key st disk = or_else (get_hot key st.idem) (get key disk)

module _ (idx : ℕ) (now : DateTime) (tx : Transaction) (b : Batch) where
  -- The transaction was refused, or staged and accepted.
  abbrev pub Decided : Result StoreError (Unit {0}) → Scratch → Batch → Type 0
  Decided verdict scratch b' =
      ((e : StoreError) × (verdict ≡ err e)
        × (b' ≡ reply_with (reject idx e) (with_scratch scratch b)))
      ⊎ ((scratch' : Scratch) × (verdict ≡ ok tt)
          × (stage tx scratch ≡ some scratch')
          × (b' ≡ accept idx now (transaction_posted tx) (with_staged tx scratch' b)))

  pub on_verdict-cases :
      (verdict : Result StoreError (Unit {0})) (scratch : Scratch) {b' : Batch}
      → on_verdict idx now tx b verdict scratch ≡ some b'
      → Decided verdict scratch b'
  unfolding on_verdict
  on_verdict-cases (err e) scratch h = inl (e, refl, sym (some_inj h))
  on_verdict-cases (ok tt) scratch h =
      let (scratch', went, e) = bind_option-eq-some (stage tx scratch) _ h in
      inr (scratch', refl, went, sym (some_inj e))

  -- The record that a commit is answered from, if it is a duplicate of an earlier batch.
  abbrev pub prior : BookState → HashMap String CommittedRec → Option CommittedRec
  prior = record_of tx.idempotency_key

  pub classify_commit-cases :
      (st : BookState) (disk : HashMap String CommittedRec) {b' : Batch}
      → classify_commit st disk idx now tx b ≡ some b'
      → ((r : Reply) × (b' ≡ reply_with r b)
          × (((rec : CommittedRec) × (prior st disk ≡ some rec) × (r ≡ dup idx rec))
              ⊎ ((slot : ℕ) × (get tx.idempotency_key b.scratch.idem ≡ some slot)
                  × (r ≡ dup_in_batch idx slot))))
        ⊎ ((prior st disk ≡ none)
            × (get tx.idempotency_key b.scratch.idem ≡ none)
            × Decided (validate st tx b.scratch).0 (validate st tx b.scratch).1 b')
  unfolding classify_commit classify_new
  classify_commit-cases st disk h = elim (Option-cases (prior st disk)) [
    | inr (rec, e) ↦ inl (dup idx rec, ground (arith, e), inl (rec, e, refl))
    | inl new ↦ elim (Option-cases (get tx.idempotency_key b.scratch.idem)) [
      | inr (slot, e) ↦ inl (dup_in_batch idx slot, ground (arith, new, e), inr (slot, e, refl))
      | inl fresh ↦ inr (
        new,
        fresh,
        on_verdict-cases (validate st tx b.scratch).0 (validate st tx b.scratch).1
            (ground (arith, new, fresh, h)),
      )
    ]
  ]

-- An account that is open gets a reply; one that is not is accepted.
pub classify_open-cases :
    (st : BookState) (idx : ℕ) (now : DateTime) (def : AccountDef) (cfg : AccountCfg) (b : Batch)
    → ((r : Reply) × (classify_open st idx now def cfg b ≡ reply_with r b)
        × ((r ≡ open_exists_ok idx) ⊎ ((e : StoreError) × (r ≡ reject idx e))))
      ⊎ ((get (to_key def.id) st.accounts ≡ none)
          × (classify_open st idx now def cfg b ≡ accept idx now (account_opened def cfg) b))
unfolding classify_open
classify_open-cases st idx now def cfg b = elim (Option-cases (get (to_key def.id) st.accounts)) [
  | inl absent ↦ inr (absent, ground (arith, absent))
  | inr (a, there) ↦ elim (Bool-cases (def_eq a.def def && cfg_eq a.cfg cfg)) [
    | inl same ↦ inl (open_exists_ok idx, ground (arith, there, same), inl refl)
    | inr other ↦ inl (
      reject idx (already_exists ("account " ++ to_key def.id)),
      ground (arith, there, other),
      inr (_, refl),
    )
  ]
]
