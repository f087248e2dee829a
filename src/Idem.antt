-- ===== src/Idem.antt =====
-- The idempotency index of a book (`TieredIdem`, talea-store-log/src/idem_spill.rs): a map in memory
-- and its order of insertion, over runs that were spilled to disk and a Bloom filter for them. This
-- file has the operations on the map in memory.
pub mod Filter
pub mod Order
pub mod Spill
use talea.Prelude.{ℕ, String, Bool, Option, none, some, List, [], ◌∷◌, ◌++◌}
use talea.Prelude.{length, ltb}
use talea.Prelude.Eq.{string_eq}
use talea.HashMap.{HashMap, get, insert}
use talea.Types.{Uuid, Seq, DateTime}

-- `CommittedRec` of state.rs
pub record CommittedRec : Type 0 where
  pub txid : Uuid
  pub seq : Seq
  pub at : DateTime

-- The bit array in words of 64 bits, and its number of bits.
pub record Bloom : Type 0 where
  pub bits : List ℕ
  pub m : ℕ

-- A run is named by its number.
pub record RunMeta : Type 0 where
  pub number : ℕ
  pub key_range : String × String
  pub len : ℕ

pub record TieredIdem : Type 0 where
  pub hot : HashMap String CommittedRec
  pub order : List String
  pub runs : List RunMeta
  pub bloom : Bloom
  pub cap : ℕ

-- `TieredIdem::insert`: the order grows only by a new key.
unfoldable pub idem_insert : String → CommittedRec → TieredIdem → TieredIdem
idem_insert k r t = record t {
  hot = insert k r t.hot;
  order = elim (get k t.hot) [ none ↦ t.order ++ (k ∷ []) | some _ ↦ t.order ];
}

-- `TieredIdem::get_hot`
unfoldable pub get_hot : String → TieredIdem → Option CommittedRec
get_hot k t = get k t.hot

-- `TieredIdem::needs_flush`
unfoldable pub needs_flush : TieredIdem → Bool
needs_flush t = ltb t.cap (length t.hot)
