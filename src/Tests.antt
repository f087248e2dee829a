-- ===== src/Tests.antt =====
-- Test data: a small book and a batch of jobs.
pub mod Turn
pub mod Book
pub mod Index
pub mod Log
pub mod Spill
pub mod Flushed
pub mod Reads
pub mod Router
pub mod Registry
pub mod Restart
pub mod Opening
pub mod Snapshots
pub mod Requests
use talea.Prelude.{ℕ, Bool, true, String, Option, none, some, List, [], ◌∷◌}
use talea.Prelude.Int.{ℤ, pos}
use talea.Types.{AccountId, AccountKind, AccountDef, AccountCfg, Direction, debit, credit, Posting}
use talea.Types.{Transaction, DateTime, AssetDef, fiat}
use talea.Idem.{TieredIdem}
use talea.State.{AccountState, BookState, FramePos}
use talea.Writer.Classify.{Job, Staged, commit, open_account, register_asset, snapshot}

abbrev pub cash : AccountId
cash = record { book = "main"; path = "cash" }

abbrev pub sales : AccountId
sales = record { book = "main"; path = "sales" }

-- An open account.
abbrev pub account : AccountId → Option ℤ → AccountState
account id min = record {
  def = record { id = id; asset = "EUR"; kind = AccountKind.clearing };
  cfg = record { normal_side = some debit; min_balance = min };
  raw_balance = pos 0;
  updated_seq = 0;
  postings = record { sealed = []; tail = [] };
}

abbrev pub no_idem : TieredIdem
no_idem = record { hot = []; order = []; runs = []; bloom = record { bits = []; m = 0 }; cap = 8 }

-- Two accounts; the balance of `cash` does not fall below 0.
abbrev pub two_accounts : BookState
two_accounts = record {
  next_seq = 3;
  accounts = ("main:cash", account cash (some (pos 0))) ∷ ("main:sales", account sales none) ∷ [];
  idem = no_idem;
  txids = [];
  sums = [];
  last_at = some 5;
  writer_attached = true;
}

-- `minor` from `sales` to `cash`.
abbrev pub transfer : ℕ → String → Direction → ℕ → Transaction
transfer id key side minor = record {
  id = id;
  book = "main";
  postings =
      record {
        account = cash;
        amount = record { minor = pos minor; asset = "EUR" };
        direction = side;
      }
      ∷ record {
        account = sales;
        amount = record { minor = pos minor; asset = "EUR" };
        direction = elim side [ debit ↦ credit | credit ↦ debit ];
      }
      ∷ [];
  idempotency_key = key;
  external_refs = [];
  metadata = "";
  occurred_at = 4;
}

-- A sale, its duplicate, a payment that is too large, and one of each other job.
abbrev pub six_jobs : List (Job × DateTime)
six_jobs =
    (commit (transfer 1 "k1" debit 100), 6)
    ∷ (commit (transfer 2 "k1" debit 100), 7)
    ∷ (commit (transfer 3 "k2" credit 500), 7)
    ∷ (snapshot, 8)
    ∷ (open_account (account cash none).def (account cash none).cfg, 8)
    ∷ (register_asset (record { id = "EUR"; class = fiat; precision = 2; name = "Euro" }), 9)
    ∷ []

abbrev pub writes : List Staged → Option (ℕ → FramePos)
writes staged = some (λ i. (3, i))
