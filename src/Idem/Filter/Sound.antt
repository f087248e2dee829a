-- ===== src/Idem/Filter/Sound.antt =====
-- What the filter lets pass once a key was inserted, whatever is inserted after it.
use Prim.Native.Nat.{bit_or}
use talea.Prelude.{ℕ, zero, suc, ◌+◌, ◌*◌, ◌/◌, ◌%◌, ◌<◌, ◌≡◌, refl, sym, ap, ◌∙◌, String}
use talea.Prelude.{true, false, ◌||◌, inl, inr, List, [], ◌∷◌, length, get_or, max}
use talea.Prelude.{All, All-map, Bool-cases, ◌==◌, if◌then◌else◌, ==_iff, arith}
use talea.Prelude.Lists.{set, length-set, length-replicate}
use talea.Prelude.Words.{one_shl, has_bit-bit_or}
use talea.Idem.{Bloom}
use talea.Idem.Filter.{Hasher, new_bloom, hash_at, hashes, set_bits, bloom_insert, bit_at, all_set}
use talea.Idem.Filter.{might_contain, insert_keys}

-- The words hold all of the bits, and there is one at least.
pub record IsBloom (b : Bloom) : Type 0 where
  pub whole : b.m ≡ length b.bits * 64
  pub some_word : 0 < length b.bits

pub new_bloom-IsBloom : (n : ℕ) → IsBloom (new_bloom n)
unfolding new_bloom
new_bloom-IsBloom n =
    let words = (10 * max n 1 + 63) / 64 in
    let len = length-replicate {A = ℕ} words 0 in
    record { whole = ap (λ (k : ℕ). k * 64) (sym len); some_word = omega (arith, len) }

get_or-set :
    (words : List ℕ) (i j v : ℕ)
    → i < length words
    → get_or (set words i v) j 0 ≡ (if i == j then v else get_or words j 0)
get_or-set [] i j v h = absurd (omega arith)
get_or-set (w ∷ ws) zero zero v h = refl
get_or-set (w ∷ ws) zero (suc j) v h = ground arith
get_or-set (w ∷ ws) (suc i) zero v h = ground arith
get_or-set (w ∷ ws) (suc i) (suc j) v h = ground (arith, get_or-set ws i j v (omega arith))

-- One round of `set_bits`.
set_one : List ℕ → ℕ → List ℕ
set_one words bit = set words (bit / 64) (bit_or (get_or words (bit / 64) 0) (one_shl (bit % 64)))

length-set_one : (words : List ℕ) (bit : ℕ) → length (set_one words bit) ≡ length words
unfolding set_one
length-set_one words bit =
    length-set words (bit / 64) (bit_or (get_or words (bit / 64) 0) (one_shl (bit % 64)))

bit_at-set_one :
    (words : List ℕ) (bit j : ℕ)
    → bit / 64 < length words
    → bit_at (set_one words bit) j ≡ (bit == j || bit_at words j)
unfolding bit_at set_one
bit_at-set_one words bit j h =
    let old = get_or words (bit / 64) 0 in
    let v = bit_or old (one_shl (bit % 64)) in
    let g = get_or-set words (bit / 64) (j / 64) v h in
    elim (Bool-cases (bit / 64 == j / 64)) [
      | inl same ↦
          let word : bit / 64 ≡ j / 64 = (==_iff _ _).0 same in
          let b : (bit % 64 == j % 64) ≡ (bit == j) = ground (arith, word) in
          rw (g, same, has_bit-bit_or old (bit % 64) (j % 64), b, word) refl
      | inr other ↦ let b : (bit == j) ≡ false = ground (arith, other) in rw (g, other, b) refl
    ]

-- All bits lie in the words.
abbrev pub InWords : List ℕ → List ℕ → Type 0
InWords bs words = All (λ bit. bit / 64 < length words) bs

InWords-set_one : (bs words : List ℕ) (bit : ℕ) → InWords bs words → InWords bs (set_one words bit)
InWords-set_one bs words bit h =
    All-map _ _ (λ (b : ℕ) (p : b / 64 < length words). omega (arith, length-set_one words bit)) bs
      h

set_bits-keeps :
    (bs words : List ℕ) (j : ℕ)
    → InWords bs words
    → bit_at words j ≡ true
    → bit_at (set_bits bs words) j ≡ true
unfolding set_bits set_one
set_bits-keeps [] words j h e = e
set_bits-keeps (bit ∷ bs) words j h e =
    let now = bit_at-set_one words bit j h.0 in
    set_bits-keeps bs (set_one words bit) j (InWords-set_one bs words bit h.1)
      (rw (now, e) (ground arith))

all_set-set_bits :
    (more bs words : List ℕ)
    → InWords more words
    → all_set bs words ≡ true
    → all_set bs (set_bits more words) ≡ true
unfolding all_set
all_set-set_bits more [] words k e = refl
all_set-set_bits more (bit ∷ bs) words k e =
    let first = set_bits-keeps more words bit k in
    ground (arith, first, all_set-set_bits more bs words k)

all_set-set_bits_self :
    (bs words : List ℕ) → InWords bs words → all_set bs (set_bits bs words) ≡ true
unfolding all_set set_bits set_one
all_set-set_bits_self [] words h = refl
all_set-set_bits_self (bit ∷ bs) words h =
    let inside = InWords-set_one bs words bit h.1 in
    let now : bit_at (set_one words bit) bit ≡ true =
      ground (arith, bit_at-set_one words bit bit h.0) in
    let kept = set_bits-keeps bs (set_one words bit) bit inside now in
    rw (kept, all_set-set_bits_self bs (set_one words bit) inside) refl

length-set_bits : (bs words : List ℕ) → length (set_bits bs words) ≡ length words
unfolding set_bits set_one
length-set_bits [] words = refl
length-set_bits (bit ∷ bs) words =
    omega (arith, length-set_bits bs (set_one words bit), length-set_one words bit)

module _ (h : Hasher) where
  hash_at-lt : (m : ℕ) (key : String) (i : ℕ) → 0 < m → hash_at h m key i < m
  unfolding hash_at
  hash_at-lt m key i pos = grind arith

  hashes-InWords : (b : Bloom) (key : String) → IsBloom b → InWords (hashes h b.m key) b.bits
  unfolding hashes
  hashes-InWords b key ok =
      let pos : 0 < b.m = omega (arith, ok.whole, ok.some_word) in
      let at = λ (i : ℕ). hash_at-lt b.m key i pos in
      let e = ok.whole in
      let inside : (i : ℕ) → hash_at h b.m key i / 64 < length b.bits =
        λ i. omega (arith, at i, e) in
      (inside 0, (inside 1, (inside 2, (inside 3, tt))))

  pub bloom_insert-IsBloom : (key : String) (b : Bloom) → IsBloom b → IsBloom (bloom_insert h key b)
  unfolding bloom_insert
  bloom_insert-IsBloom key b ok =
      let len = length-set_bits (hashes h b.m key) b.bits in
      record {
        whole = ok.whole ∙ ap (λ (k : ℕ). k * 64) (sym len);
        some_word = omega (arith, len, ok.some_word);
      }

  might_contain-bloom_insert_self :
      (key : String) (b : Bloom) → IsBloom b → might_contain h key (bloom_insert h key b) ≡ true
  unfolding might_contain bloom_insert
  might_contain-bloom_insert_self key b ok =
      all_set-set_bits_self (hashes h b.m key) b.bits (hashes-InWords b key ok)

  might_contain-bloom_insert :
      (key other : String) (b : Bloom)
      → IsBloom b
      → might_contain h key b ≡ true
      → might_contain h key (bloom_insert h other b) ≡ true
  unfolding might_contain bloom_insert
  might_contain-bloom_insert key other b ok e =
      all_set-set_bits (hashes h b.m other) (hashes h b.m key) b.bits (hashes-InWords b other ok) e

  module _ {ℓ} {A : Type ℓ} where
    pub insert_keys-IsBloom :
        (pairs : List (String × A)) (b : Bloom) → IsBloom b → IsBloom (insert_keys h pairs b)
    unfolding insert_keys
    insert_keys-IsBloom [] b ok = ok
    insert_keys-IsBloom ((key, v) ∷ pairs) b ok =
        insert_keys-IsBloom pairs (bloom_insert h key b) (bloom_insert-IsBloom key b ok)

    pub might_contain-insert_keys_old :
        (key : String) (pairs : List (String × A)) (b : Bloom)
        → IsBloom b
        → might_contain h key b ≡ true
        → might_contain h key (insert_keys h pairs b) ≡ true
    unfolding insert_keys
    might_contain-insert_keys_old key [] b ok e = e
    might_contain-insert_keys_old key ((other, v) ∷ pairs) b ok e =
        might_contain-insert_keys_old key pairs (bloom_insert h other b)
          (bloom_insert-IsBloom other b ok) (might_contain-bloom_insert key other b ok e)

    -- A filter whose number of bits is that of its words, of which there is one at least, lets every key
    -- of some pairs pass once all of them were inserted.
    pub might_contain-insert_keys :
        (pairs : List (String × A)) (b : Bloom)
        → IsBloom b
        → All (λ p. might_contain h p.0 (insert_keys h pairs b) ≡ true) pairs
    unfolding insert_keys
    might_contain-insert_keys [] b ok = tt
    might_contain-insert_keys ((key, v) ∷ pairs) b ok =
        let next = bloom_insert-IsBloom key b ok in
        (
          might_contain-insert_keys_old key pairs (bloom_insert h key b) next
              (might_contain-bloom_insert_self key b ok),
          might_contain-insert_keys pairs (bloom_insert h key b) next,
        )
