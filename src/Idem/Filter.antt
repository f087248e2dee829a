-- ===== src/Idem/Filter.antt =====
-- The Bloom filter of the index (`Bloom`, talea-store-log/src/idem_spill.rs). The two seeded runs of
-- `DefaultHasher` are the functions of a `Hasher`.
pub mod Sound
use Prim.Native.Nat.{bit_or}
use talea.Prelude.{ℕ, zero, suc, ◌+◌, ◌*◌, ◌/◌, ◌%◌, ◌<◌, ◌≡◌, String, Bool, true, ◌&&◌}
use talea.Prelude.{List, [], ◌∷◌, length, get_or, max}
use talea.Prelude.Lists.{set, replicate}
use talea.Prelude.Words.{one_shl, has_bit}
use talea.Idem.{Bloom}

-- `h1` and `h2` of `hashes`
pub record Hasher : Type 0 where
  pub h1 : String → ℕ
  pub h2 : String → ℕ

-- `Bloom::new`: ten bits for each key, in whole words.
unfoldable pub new_bloom : ℕ → Bloom
new_bloom expected_n =
    let words = (10 * max expected_n 1 + 63) / 64 in
    record { bits = replicate words 0; m = words * 64 }

-- The additions and the products wrap at 64 bits.
unfoldable pub hash_at : Hasher → ℕ → String → ℕ → ℕ
hash_at h m key i = (h.h1 key + i * h.h2 key % 18446744073709551616) % 18446744073709551616 % m

-- `BLOOM_K` is 4.
unfoldable pub hashes : Hasher → ℕ → String → List ℕ
unfolding hash_at
hashes h m key = hash_at h m key 0 ∷ hash_at h m key 1 ∷ hash_at h m key 2 ∷ hash_at h m key 3 ∷ []

-- `self.bits[bit / 64] |= 1 << (bit % 64)` for each bit
unfoldable pub set_bits : List ℕ → List ℕ → List ℕ
set_bits [] words = words
set_bits (bit ∷ bs) words =
    set_bits bs (set words (bit / 64) (bit_or (get_or words (bit / 64) 0) (one_shl (bit % 64))))

-- `Bloom::insert`
unfoldable pub bloom_insert : Hasher → String → Bloom → Bloom
unfolding set_bits hashes
bloom_insert h key b = record b { bits = set_bits (hashes h b.m key) b.bits }

unfoldable pub bit_at : List ℕ → ℕ → Bool
bit_at words bit = has_bit (get_or words (bit / 64) 0) (bit % 64)

unfoldable pub all_set : List ℕ → List ℕ → Bool
all_set [] words = true
all_set (bit ∷ bs) words = bit_at words bit && all_set bs words

-- `Bloom::might_contain`
unfoldable pub might_contain : Hasher → String → Bloom → Bool
unfolding all_set hashes bit_at
might_contain h key b = all_set (hashes h b.m key) b.bits

-- A loop that inserts every key of a run.
unfoldable pub insert_keys {ℓ} : {A : Type ℓ} → Hasher → List (String × A) → Bloom → Bloom
insert_keys h [] b = b
insert_keys h ((key, _) ∷ pairs) b = insert_keys h pairs (bloom_insert h key b)
