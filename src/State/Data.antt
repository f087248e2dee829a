-- ===== src/State/Data.antt =====
-- The data of talea-store-log/src/state.rs, and `effective`.
use talea.Prelude.{ℕ, String, Bool, Option, none, some, List}
use talea.Prelude.Int.{ℤ}
use talea.HashMap.{HashMap}
use talea.I64.{wrapping_neg}
use talea.Types.{Direction, debit, credit, Seq, DateTime, Uuid, AccountDef, AccountCfg}
use talea.Idem.{TieredIdem}

-- `effective`: the balance seen from the normal side of the account.
unfoldable pub effective : ℤ → Option Direction → ℤ
effective raw (some credit) = wrapping_neg raw
effective raw (some debit) = raw
effective raw none = raw

pub record PostingEntry : Type 0 where
  pub seq : Seq
  pub at : DateTime
  pub txid : Uuid
  pub minor : ℤ
  pub direction : Direction
  pub raw_after : ℤ

-- The chunks before the tail are shared between clones and never written again.
pub record PostingIndex : Type 0 where
  pub sealed : List (List PostingEntry)
  pub tail : List PostingEntry

pub record AccountState : Type 0 where
  pub def : AccountDef
  pub cfg : AccountCfg
  pub raw_balance : ℤ
  pub updated_seq : Seq
  pub postings : PostingIndex

-- `(segment_base_seq, byte_offset)`
abbrev pub FramePos : Type 0
FramePos = Seq × ℕ

pub record BookState : Type 0 where
  pub next_seq : Seq
  pub accounts : HashMap String AccountState
  pub idem : TieredIdem
  pub txids : HashMap Uuid (Seq × FramePos)
  pub sums : HashMap String (ℤ × ℤ)
  pub last_at : Option DateTime
  pub writer_attached : Bool

pub record Scratch : Type 0 where
  pub raw : HashMap String ℤ
  pub idem : HashMap String ℕ
