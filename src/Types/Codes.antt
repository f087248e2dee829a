-- ===== src/Types/Codes.antt =====
-- `Direction` and `AccountKind` with their database codes (talea-core/src/types/transactions.rs and
-- accounts.rs), and the reserved book names.
pub mod Laws
use Prim.Native.Char.{code}
use text.Mathlib.Text.{◌==◌ as str_eq}
use talea.Prelude.{String, Bool, false, Option, none, some, ◌==◌, if◌then◌else◌}

pub data Direction : Type 0 where
  debit credit : Direction

-- `Direction::as_str`
unfoldable pub direction_str : Direction → String
direction_str debit = "D"
direction_str credit = "C"

-- `Direction::from_db`
unfoldable pub direction_from_db : String → Option Direction
direction_from_db s =
    if str_eq s "D" then some debit else if str_eq s "C" then some credit else none

pub data AccountKind : Type 0 where
  asset liability income expense equity clearing : AccountKind

-- `AccountKind::normal_side`
unfoldable pub normal_side : AccountKind → Option Direction
normal_side asset = some debit
normal_side expense = some debit
normal_side liability = some credit
normal_side income = some credit
normal_side equity = some credit
normal_side clearing = none

-- `AccountKind::as_str`
unfoldable pub kind_str : AccountKind → String
kind_str asset = "asset"
kind_str liability = "liability"
kind_str income = "income"
kind_str expense = "expense"
kind_str equity = "equity"
kind_str clearing = "clearing"

-- `AccountKind::from_db`
unfoldable pub kind_from_db : String → Option AccountKind
kind_from_db s =
    if str_eq s "asset"
    then some asset
    else if str_eq s "liability"
    then some liability
    else if str_eq s "income"
    then some income
    else if str_eq s "expense"
    then some expense
    else if str_eq s "equity"
    then some equity
    else if str_eq s "clearing"
    then some clearing
    else none

-- `Book::is_reserved`: the name starts with an underscore.
unfoldable pub is_reserved : String → Bool
is_reserved String.[] = false
is_reserved (String.◌∷◌ c s) = code c == b'_'
