-- ===== src/Prelude/Words.antt =====
-- Words of bits: shifts by halving and doubling, and what `|` with a single bit does to each bit.
use Prim.Native.Nat.{ℕ, zero, suc, ◌+◌, ◌*◌, ◌/◌, ◌%◌, ◌≤◌, max, bit_or, digits, bit_or-bitwise}
use mathlib.Core.Path.{◌≡◌, refl, ap, ◌∙◌}
use mathlib.Core.Bool.{Bool, false, ◌||◌}
use native.Mathlib.Omega.{arith}
use talea.Prelude.Tests.{◌==◌}

-- `w >> k`
unfoldable pub shr : ℕ → ℕ → ℕ
shr w zero = w
shr w (suc k) = shr (w / 2) k

-- `1 << k`
unfoldable pub one_shl : ℕ → ℕ
one_shl zero = 1
one_shl (suc k) = one_shl k * 2

-- `(w >> k) & 1 == 1`
unfoldable pub has_bit : ℕ → ℕ → Bool
unfolding shr
has_bit w k = shr w k % 2 == 1

abbrev or_rounds : ℕ → ℕ → ℕ → ℕ
or_rounds n a b = digits (λ d. d) max n a b

-- Any two counts of rounds that are enough give the same.
or_rounds-agree : (n m a b : ℕ) → a ≤ n → a ≤ m → or_rounds n a b ≡ or_rounds m a b
or_rounds-agree zero zero a b p q = refl
or_rounds-agree zero (suc m) zero b p q = refl
or_rounds-agree zero (suc m) (suc a) b p q = absurd (omega arith)
or_rounds-agree (suc n) zero zero b p q = refl
or_rounds-agree (suc n) zero (suc a) b p q = absurd (omega arith)
or_rounds-agree (suc n) (suc m) zero b p q = refl
or_rounds-agree (suc n) (suc m) (suc a) b p q =
    omega (arith, or_rounds-agree n m (suc a / 2) (b / 2) (omega arith) (omega arith))

bit_or-low : (a b : ℕ) → bit_or a b ≡ bit_or (a / 2) (b / 2) * 2 + max (a % 2) (b % 2)
bit_or-low zero b = omega (arith, bit_or-bitwise 0 b, bit_or-bitwise 0 (b / 2))
bit_or-low (suc a) b =
    let whole = bit_or-bitwise (suc a) b in
    let half = bit_or-bitwise (suc a / 2) (b / 2) in
    omega (
      arith,
      whole,
      half,
      or_rounds-agree a (suc a / 2) (suc a / 2) (b / 2) (omega arith) (omega arith),
    )

or_half : (a b : ℕ) → bit_or a b / 2 ≡ bit_or (a / 2) (b / 2)
or_half a b = omega (arith, bit_or-low a b)

zero_or-fuel : (n a : ℕ) → a ≤ n → bit_or a 0 ≡ a
zero_or-fuel zero zero p = omega (arith, bit_or-bitwise 0 0)
zero_or-fuel zero (suc a) p = absurd (omega arith)
zero_or-fuel (suc n) zero p = omega (arith, bit_or-bitwise 0 0)
zero_or-fuel (suc n) (suc a) p =
    omega (arith, bit_or-low (suc a) 0, zero_or-fuel n (suc a / 2) (omega arith))

-- The bit that is set is set, and no other changes.
pub has_bit-bit_or : (w k j : ℕ) → has_bit (bit_or w (one_shl k)) j ≡ (k == j || has_bit w j)
unfolding has_bit one_shl
has_bit-bit_or w zero zero =
    let low = bit_or-low w 1 in let e : bit_or w 1 % 2 ≡ 1 = omega (arith, low) in rw e refl
has_bit-bit_or w zero (suc j) =
    let half : bit_or w 1 / 2 ≡ w / 2 =
      omega (arith, or_half w 1, zero_or-fuel (w / 2) (w / 2) (omega arith)) in
    let first : (0 == suc j) ≡ false = ground arith in rw (half, first) refl
has_bit-bit_or w (suc k) zero =
    let low = bit_or-low w (one_shl k * 2) in
    let e : bit_or w (one_shl k * 2) % 2 ≡ w % 2 = omega (arith, low) in
    let first : (suc k == 0) ≡ false = ground arith in rw (e, first) refl
has_bit-bit_or w (suc k) (suc j) =
    let e : one_shl k * 2 / 2 ≡ one_shl k = omega arith in
    let half : bit_or w (one_shl k * 2) / 2 ≡ bit_or (w / 2) (one_shl k) =
      or_half w (one_shl k * 2) ∙ ap (bit_or (w / 2)) e in
    let same : (suc k == suc j) ≡ (k == j) = ground arith in
    rw (half, same) (has_bit-bit_or (w / 2) k j)
