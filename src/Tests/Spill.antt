-- ===== src/Tests/Spill.antt =====
-- The theorems on the idempotency index, with an index of three keys that a flush spills one of.
use text.Mathlib.TextEquality.{eq_iff}
use talea.Prelude.{ℕ, ◌%◌, ◌≡◌, refl, String, true, some, All, subst}
use talea.Prelude.{List, [], ◌∷◌, length, arith, if◌then◌else◌, ◌==◌, Bool-cases, inl, inr, ℕ}
use talea.Prelude.Eq.{string_eq, ◌=?◌}
use talea.HashMap.{get}
use talea.Result.{Result, ok, err, or_else, Result-cases, ok_inj}
use talea.Idem.{CommittedRec, TieredIdem}
use talea.Idem.Filter.{Hasher, new_bloom, insert_keys, might_contain}
use talea.Idem.Filter.Sound.{new_bloom-IsBloom, might_contain-insert_keys}
use talea.Idem.Order.Search.{or_else-none}
use talea.Idem.Spill.{Pairs, RunFormat, IsRunFormat, Attempts, done, encode_run}
use talea.Idem.Spill.{decode_run, idem_get, flush_spill, read_all}
use talea.Idem.Spill.Files.{decode_run-encode_run}
use talea.Idem.Spill.Index.{Known, IsIndex, idem_get-eq}
use talea.Prelude.{map}
use talea.HashMap.{remove}
use talea.Frame.{to_le_bytes}
use talea.Idem.Order.{sort_by_key, insert_sorted}
use talea.Idem.Spill.{write_spill, write_run_atomic, spilled_state, run_of, next_run_n, drain}
use talea.Idem.Spill.Flush.{flush_spill-IsIndex}

abbrev pub rec : ℕ → CommittedRec
rec n = record { txid = n; seq = n; at = n }

-- A format for the keys "a" and "b", each written as a number, with the fields of its commit.
abbrev write_key : String → ℕ → ℕ → ℕ → Result String (List ℕ) → Result String (List ℕ)
write_key key txid seq at rest =
    if key =? "a"
    then elim rest [ ok bytes ↦ ok (0 ∷ txid ∷ seq ∷ at ∷ bytes) | err e ↦ err e ]
    else if key =? "b"
    then elim rest [ ok bytes ↦ ok (1 ∷ txid ∷ seq ∷ at ∷ bytes) | err e ↦ err e ]
    else err "another key"

abbrev write_pairs : Pairs → Result String (List ℕ)
write_pairs [] = ok []
write_pairs ((key, r) ∷ pairs) = write_key key r.txid r.seq r.at (write_pairs pairs)

abbrev read_key : ℕ → ℕ → ℕ → ℕ → Result String Pairs → Result String Pairs
read_key k txid seq at rest = elim rest [
  | err e ↦ err e
  | ok pairs ↦
      ok ((if k == 0 then "a" else "b", record { txid = txid; seq = seq; at = at }) ∷ pairs)
]

abbrev read_pairs : List ℕ → Result String Pairs
read_pairs [] = ok []
read_pairs (k ∷ txid ∷ seq ∷ at ∷ bytes) = read_key k txid seq at (read_pairs bytes)
read_pairs _ = err "not pairs"

reads_pairs :
    (pairs : Pairs) (bytes : List ℕ) → write_pairs pairs ≡ ok bytes → read_pairs bytes ≡ ok pairs
reads_pairs [] bytes e = subst (λ b. read_pairs b ≡ ok []) (ok_inj e) refl
reads_pairs ((key, r) ∷ pairs) bytes e = elim (Result-cases (write_pairs pairs)) [
  | inr (text, fails) ↦ absurd (ground (arith, fails, e))
  | inl (rest, w) ↦
      let ih = reads_pairs pairs rest w in
      elim (Bool-cases (key =? "a")) [
        | inl a ↦
            let k : key ≡ "a" = (eq_iff key "a").0 a in
            let b = ok_inj (rw (a, w) at e) in
            subst (λ b. read_pairs b ≡ ok ((key, r) ∷ pairs)) b (rw (ih, k) refl)
        | inr not_a ↦ elim (Bool-cases (key =? "b")) [
          | inr not_b ↦ absurd (ground (arith, not_a, not_b, e))
          | inl is_b ↦
              let k : key ≡ "b" = (eq_iff key "b").0 is_b in
              let b = ok_inj (rw (not_a, is_b, w) at e) in
              subst (λ b. read_pairs b ≡ ok ((key, r) ∷ pairs)) b (rw (ih, k) refl)
        ]
      ]
]

abbrev pub numbers_format : RunFormat
numbers_format = record {
  to_vec = write_pairs;
  from_slice = read_pairs;
  hash = λ bytes. length bytes % 4294967296;
}

pub numbers_format-IsRunFormat : IsRunFormat numbers_format
numbers_format-IsRunFormat = record { reads_back = reads_pairs; hash_u32 = λ bytes. omega arith }

abbrev pub hasher : Hasher
hasher = record { h1 = λ key. if key =? "a" then 70 else 5; h2 = λ key. 7 }

-- Two keys in the memory, one of which a flush spills.
abbrev pub two_keys : TieredIdem
two_keys = record {
  hot = ("b", rec 1) ∷ ("a", rec 2) ∷ [];
  order = "b" ∷ "a" ∷ [];
  runs = [];
  bloom = new_bloom 1;
  cap = 1;
}

abbrev pub two_known : Known
two_known key = get key two_keys.hot

in_memory :
    (key : String) → or_else (get key two_keys.hot) (get {V = CommittedRec} key []) ≡ two_known key
unfolding get
in_memory key = or_else-none (get key two_keys.hot)

read_nothing : read_all numbers_format [] [] ≡ some []
unfolding read_all
read_nothing = refl

pub two_keys-IsIndex : IsIndex numbers_format hasher [] two_keys two_known
two_keys-IsIndex = record {
  all = [];
  readable = read_nothing;
  runs = tt;
  runs_true = tt;
  hot_true = λ key r e. e;
  complete = λ key. in_memory key;
  bloom = new_bloom-IsBloom 1;
  passes = tt;
}

abbrev pub all_go : Attempts
all_go = record { write = λ n. done; removes = λ n. true }

flush_spill-IsIndex_example :
    IsIndex numbers_format hasher
      (flush_spill numbers_format hasher all_go two_keys []).1
      (flush_spill numbers_format hasher all_go two_keys []).0
      two_known
flush_spill-IsIndex_example =
    flush_spill-IsIndex numbers_format numbers_format-IsRunFormat hasher all_go two_known []
      two_keys two_keys-IsIndex

-- The flushed key is no longer in the memory.
spilled_one :
    map
      (λ (e : String × CommittedRec). e.0)
      (flush_spill numbers_format hasher all_go two_keys []).0.hot
    ≡ "a" ∷ []
unfolding flush_spill drain sort_by_key insert_sorted write_spill encode_run write_run_atomic
    spilled_state run_of next_run_n get remove insert_keys
spilled_one = refl

idem_get-eq_example :
    idem_get numbers_format hasher
      (flush_spill numbers_format hasher all_go two_keys []).1
      "b"
      (flush_spill numbers_format hasher all_go two_keys []).0
    ≡ two_known "b"
idem_get-eq_example =
    idem_get-eq numbers_format hasher (flush_spill numbers_format hasher all_go two_keys []).1
      (flush_spill numbers_format hasher all_go two_keys []).0 two_known
      (flush_spill-IsIndex numbers_format numbers_format-IsRunFormat hasher all_go two_known []
        two_keys two_keys-IsIndex)
      "b"

might_contain-insert_keys_example :
    All
      (λ (p : String × CommittedRec).
        might_contain hasher p.0 (insert_keys hasher two_keys.hot (new_bloom 2)) ≡ true)
      two_keys.hot
might_contain-insert_keys_example =
    might_contain-insert_keys hasher two_keys.hot (new_bloom 2) (new_bloom-IsBloom 2)

abbrev run_bytes : List ℕ
run_bytes = 8 ∷ 0 ∷ 0 ∷ 0 ∷ 1 ∷ 1 ∷ 1 ∷ 1 ∷ 0 ∷ 2 ∷ 2 ∷ 2 ∷ []

encoded : encode_run numbers_format two_keys.hot ≡ ok run_bytes
unfolding encode_run to_le_bytes
encoded = refl

decode_run-encode_run_example : decode_run numbers_format run_bytes ≡ ok two_keys.hot
decode_run-encode_run_example =
    decode_run-encode_run numbers_format numbers_format-IsRunFormat two_keys.hot run_bytes encoded
