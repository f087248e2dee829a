-- ===== src/Types/Equality.antt =====
-- The derived `PartialEq` of account definitions and configurations.
use talea.Prelude.{ℕ, Bool, true, false, ◌&&◌, Option, none, some, ◌==◌}
use talea.Prelude.Eq.{string_eq, ◌=?◌}
use talea.Prelude.Int.{ℤ, pos_part, neg_part}
use talea.Types.Codes.{Direction, debit, credit, AccountKind, asset, liability, income, expense}
use talea.Types.Codes.{equity, clearing}
use talea.Types.Data.{AccountDef, AccountCfg}

abbrev direction_index : Direction → ℕ
direction_index debit = 0
direction_index credit = 1

abbrev kind_index : AccountKind → ℕ
kind_index asset = 0
kind_index liability = 1
kind_index income = 2
kind_index expense = 3
kind_index equity = 4
kind_index clearing = 5

abbrev pub int_eq : ℤ → ℤ → Bool
int_eq a b = pos_part a == pos_part b && neg_part a == neg_part b

abbrev pub option_eq {ℓ} : {A : Type ℓ} → (A → A → Bool) → Option A → Option A → Bool
option_eq eq none none = true
option_eq eq none (some b) = false
option_eq eq (some a) none = false
option_eq eq (some a) (some b) = eq a b

unfoldable pub def_eq : AccountDef → AccountDef → Bool
def_eq a b =
    (a.id.book =? b.id.book && a.id.path =? b.id.path)
    && (a.asset =? b.asset && kind_index a.kind == kind_index b.kind)

unfoldable pub cfg_eq : AccountCfg → AccountCfg → Bool
cfg_eq a b =
    option_eq (λ c d. direction_index c == direction_index d) a.normal_side b.normal_side
    && option_eq int_eq a.min_balance b.min_balance
