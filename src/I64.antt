-- ===== src/I64.antt =====
-- The machine integer `i64`: an integer in its range, with the checked, saturating and wrapping
-- operations of the standard library that the ledger uses.
use talea.Prelude.{ℕ, ◌-◌, ◌^◌, ◌≡◌, Bool, true, ◌&&◌, Option, none, some, arith, leb, ◌==◌}
use talea.Prelude.{if◌then◌else◌}
use talea.Prelude.Int.{ℤ, pos, negsuc, pos_part, neg_part, ◌+ℤ◌, ◌-ℤ◌, neg}

abbrev pub i64_max : ℕ
i64_max = 2 ^ 63 - 1

abbrev pub in_i64 : ℤ → Bool
in_i64 a = leb (pos_part a) i64_max && leb (neg_part a) (2 ^ 63)

-- `i64::checked_add`
unfoldable pub checked_add : ℤ → ℤ → Option ℤ
checked_add a b = if in_i64 (a +ℤ b) then some (a +ℤ b) else none

-- `i64::checked_sub`
unfoldable pub checked_sub : ℤ → ℤ → Option ℤ
checked_sub a b = if in_i64 (a -ℤ b) then some (a -ℤ b) else none

-- `i64::saturating_add`
unfoldable pub saturating_add : ℤ → ℤ → ℤ
saturating_add a b =
    if leb (pos_part (a +ℤ b)) i64_max
    then (if leb (neg_part (a +ℤ b)) (2 ^ 63) then a +ℤ b else negsuc i64_max)
    else pos i64_max

-- `-a` in a release build: `i64::MIN` is its own negation.
unfoldable pub wrapping_neg : ℤ → ℤ
wrapping_neg a = if neg_part a == 2 ^ 63 then a else neg a

pub checked_add_sum : (a b : ℤ) {c : ℤ} → checked_add a b ≡ some c → c ≡ a +ℤ b
unfolding checked_add
checked_add_sum a b h = ground arith

pub checked_sub_diff : (a b : ℤ) {c : ℤ} → checked_sub a b ≡ some c → c ≡ a -ℤ b
unfolding checked_sub
checked_sub_diff a b h = ground arith

pub checked_add_fits : (a b : ℤ) {c : ℤ} → checked_add a b ≡ some c → in_i64 c ≡ true
unfolding checked_add
checked_add_fits a b h = ground arith

pub checked_sub_fits : (a b : ℤ) {c : ℤ} → checked_sub a b ≡ some c → in_i64 c ≡ true
unfolding checked_sub
checked_sub_fits a b h = ground arith
