-- ===== src/Service.antt =====
-- The service (talea-service/src/service.rs): drafts are parsed into the ledger's types, a posting is
-- checked to balance, and the errors of the store are mapped to those of the interface.
pub mod Drafts
pub mod Balanced
pub mod Reads
use Prim.Native.String.{◌++◌ as append}
use talea.Prelude.{
  ℕ, String, Bool, true, false, ◌||◌, Option, none, some, List, [], ◌∷◌, if◌then◌else◌, ◌==◌,
}
use talea.Prelude.Eq.{string_eq, ◌=?◌}
use talea.Prelude.Int.{ℤ, pos, leb_ℤ}
use talea.HashMap.{HashMap, get, insert}
use talea.I64.{checked_add}
use talea.Result.{Result, ok, err, ok_or, bind_option, unwrap_or, ◌>>=◌, ◌>>◌}
use talea.Types.{Direction, debit, credit, Transaction, Posting, AssetDef, AssetClass, fiat, crypto}
use talea.Types.{AccountDef, AccountCfg, Committed, StoreError, DateTime, Uuid, is_reserved, to_key}
use talea.Types.{constraint_violation, unknown_account, unknown_asset, asset_mismatch}
use talea.Types.{already_exists, invalid_book, saturated, io}
use talea.Types.Codes.{kind_from_db}
use talea.Types.Equality.{int_eq}
use talea.Service.Drafts.{
  AssetDraft, AccountDraft, PostingDraft, TransactionDraft, ApiError, Posted,
}
use talea.Service.Drafts.{unbalanced, wrong_asset, invalid_amount, no_asset, no_account, constraint}
use talea.Service.Drafts.{exists_already, invalid_draft, overloaded, internal}
use talea.Service.Drafts.{SubmitError, queue_full, committer_gone, store}

-- `parse_book_lax`
unfoldable pub parse_book_lax : String → Result ApiError String
parse_book_lax name = if name =? "" then err (invalid_draft "book" "must not be empty") else ok name

-- `parse_book`: writes reject the reserved names too.
unfoldable pub parse_book : String → Result ApiError String
parse_book name = do
  book ← parse_book_lax name
  if is_reserved book
      then err (invalid_draft "book" "names starting with '_' are reserved")
      else ok book

abbrev is_some {ℓ} : {A : Type ℓ} → Option A → Bool
is_some none = false
is_some (some _) = true

-- The `class` of `parse_asset_draft`.
unfoldable pub parse_class : AssetDraft → Result ApiError AssetClass
parse_class draft =
    if draft.class =? "fiat"
    then (if is_some draft.network || is_some draft.native_id
        then err (invalid_draft "network" "fiat assets have no network or native_id")
        else ok fiat)
    else if draft.class =? "crypto"
    then (ok_or draft.network (invalid_draft "network" "crypto assets require a network")
        >>= λ network. ok (crypto network draft.native_id))
    else err (
        invalid_draft "class"
          (append "unknown asset class '" (append draft.class "' (expected 'fiat' or 'crypto')")))

unfoldable pub parse_asset_draft : AssetDraft → Result ApiError AssetDef
parse_asset_draft draft =
    if draft.id =? ""
    then err (invalid_draft "id" "must not be empty")
    else parse_class draft >>= λ class.
        ok (record { id = draft.id; class = class; precision = draft.precision; name = draft.name })

unfoldable pub parse_account_draft : AccountDraft → Result ApiError (AccountDef × AccountCfg)
parse_account_draft draft = parse_book draft.book >>= λ book.
    if draft.path =? ""
    then err (invalid_draft "path" "must not be empty")
    else ok_or (kind_from_db draft.kind)
        (invalid_draft "kind" (append "unknown account kind '" (append draft.kind "'")))
      >>= λ kind. ok (
        record { id = record { book = book; path = draft.path }; asset = draft.asset; kind = kind },
        record { normal_side = draft.normal_side; min_balance = draft.min_balance },
      )

-- `map_store_err`; the text of an invalid book is the one of a name that prints as it is.
unfoldable pub map_store_err : StoreError → ApiError
map_store_err (constraint_violation account min_balance would_be) =
    constraint (to_key account) min_balance would_be
map_store_err (unknown_account a) = no_account (to_key a)
map_store_err (unknown_asset a) = no_asset a
map_store_err (asset_mismatch account account_asset asset) =
    wrong_asset (to_key account) account_asset asset
map_store_err (already_exists what) = exists_already what
map_store_err (invalid_book b) = invalid_draft "book" (append "book \"" (append b "\" is reserved"))
map_store_err saturated = overloaded
map_store_err (io e) = internal "storage backend error"

-- The side of a posting takes its amount.
unfoldable pub add_side : Direction → ℤ → ℤ × ℤ → Option (ℤ × ℤ)
add_side debit minor (d, c) = bind_option (checked_add d minor) λ d'. some (d', c)
add_side credit minor (d, c) = bind_option (checked_add c minor) λ c'. some (d, c')

abbrev pub parsed_posting : String → PostingDraft → Posting
parsed_posting book p = record {
  account = record { book = book; path = p.account };
  amount = record { minor = p.amount.minor; asset = p.amount.asset };
  direction = p.direction;
}

-- The loop of `post` over the drafts: the postings, and the debits and credits by asset.
unfoldable pub tally :
    String
    → List PostingDraft
    → HashMap String (ℤ × ℤ)
    → Result ApiError (List Posting × HashMap String (ℤ × ℤ))
tally book [] totals = ok ([], totals)
tally book (p ∷ ps) totals =
    if leb_ℤ p.amount.minor (pos 0)
    then err (invalid_amount p.amount.minor)
    else if p.account =? ""
    then err (invalid_draft "postings.account" "must not be empty")
    else ok_or
        (add_side p.direction p.amount.minor (unwrap_or (get p.amount.asset totals) (pos 0, pos 0)))
        (invalid_amount p.amount.minor)
      >>= λ entry. tally book ps (insert p.amount.asset entry totals) >>= λ rest.
          ok (parsed_posting book p ∷ rest.0, rest.1)

-- The loop of `post` over the totals.
unfoldable pub check_totals : HashMap String (ℤ × ℤ) → Result ApiError (Unit {0})
check_totals [] = ok tt
check_totals ((asset, (d, c)) ∷ rest) =
    if int_eq d c then check_totals rest else err (unbalanced asset d c)

abbrev pub is_nil {ℓ} : {A : Type ℓ} → List A → Bool
is_nil [] = true
is_nil (_ ∷ _) = false

-- `post` up to the submission: the transaction, with the identifier and the time it is given.
unfoldable pub prepare : TransactionDraft → Uuid → DateTime → Result ApiError Transaction
prepare draft id now = parse_book draft.book >>= λ book.
    if draft.idempotency_key =? ""
    then err (invalid_draft "idempotency_key" "must not be empty")
    else if is_nil draft.postings
    then err (invalid_draft "postings" "must not be empty")
    else tally book draft.postings [] >>= λ parsed. check_totals parsed.1 >>= λ _. ok (record {
      id = id;
      book = book;
      postings = parsed.0;
      idempotency_key = draft.idempotency_key;
      external_refs = draft.external_refs;
      metadata = draft.metadata;
      occurred_at = unwrap_or draft.occurred_at now;
    })

-- What `post` makes of the outcome of the submission.
unfoldable pub posted : Uuid → Result (SubmitError StoreError) Committed → Result ApiError Posted
posted id (ok c) = ok (record {
  tx_id = c.txid;
  seq = c.seq;
  at = c.at;
  deduplicated = if c.txid == id then false else true;
})
posted id (err queue_full) = err overloaded
posted id (err committer_gone) =
    err (internal "commit outcome unknown; retry with the same idempotency key")
posted id (err (store e)) = err (map_store_err e)

-- `post`, given what the router answers.
unfoldable pub post :
    (Transaction → Result (SubmitError StoreError) Committed)
    → TransactionDraft
    → Uuid
    → DateTime
    → Result ApiError Posted
post submit draft id now = prepare draft id now >>= λ tx. posted id (submit tx)
