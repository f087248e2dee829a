-- ===== src/Service/Drafts.antt =====
-- The drafts of requests and the errors of the interface (talea-core/src/api/requests.rs and
-- error.rs), and `Posted`.
use talea.Prelude.{ℕ, String, Option, List, Bool}
use talea.Prelude.Int.{ℤ}
use talea.Types.{Direction, ExternalRef, DateTime, Seq, Uuid}

pub record WireAmount : Type 0 where
  pub minor : ℤ
  pub asset : String

pub record AssetDraft : Type 0 where
  pub id : String
  pub class : String
  pub network : Option String
  pub native_id : Option String
  pub precision : ℕ
  pub name : String

pub record AccountDraft : Type 0 where
  pub book : String
  pub path : String
  pub asset : String
  pub kind : String
  pub normal_side : Option Direction
  pub min_balance : Option ℤ

pub record PostingDraft : Type 0 where
  pub account : String
  pub amount : WireAmount
  pub direction : Direction

pub record TransactionDraft : Type 0 where
  pub book : String
  pub idempotency_key : String
  pub postings : List PostingDraft
  pub external_refs : List ExternalRef
  pub metadata : String
  pub occurred_at : Option DateTime

-- `ApiError`. Where the store's error has the same name, the one of the interface is another:
-- `wrong_asset` is `AssetMismatch`, `no_asset` and `no_account` are `UnknownAsset` and
-- `UnknownAccount`, `constraint` is `ConstraintViolation`, `exists_already` is `AlreadyExists`.
pub data ApiError : Type 0 where
  unbalanced : String → ℤ → ℤ → ApiError
  wrong_asset : String → String → String → ApiError
  invalid_amount : ℤ → ApiError
  no_asset : String → ApiError
  no_account : String → ApiError
  constraint : String → ℤ → ℤ → ApiError
  exists_already : String → ApiError
  invalid_draft : String → String → ApiError
  not_found : String → ApiError
  transport : String → ApiError
  unauthorized : ApiError
  forbidden : String → ApiError
  overloaded : ApiError
  timeout : ApiError
  internal : String → ApiError

pub record Posted : Type 0 where
  pub tx_id : Uuid
  pub seq : Seq
  pub at : DateTime
  pub deduplicated : Bool

-- `SubmitError` of write_router.rs; `queue_full` is its `Overloaded`.
pub data SubmitError {ℓ} (E : Type ℓ) : Type ℓ where
  queue_full : SubmitError E
  committer_gone : SubmitError E
  store : E → SubmitError E
