-- ===== src/Idem/Order.antt =====
-- `str::cmp`, the stable `sort_by` on keys and `binary_search_by` that the runs use.
pub mod Laws
pub mod Search
use Prim.Native.Nat.{Ordering}
use Prim.Native.String.{compare}
use talea.Prelude.{ℕ, zero, suc, ◌+◌, ◌/◌, ◌≡◌, String, Bool, true, false, Option, none, some}
use talea.Prelude.{List, [], ◌∷◌, length, take, drop, if◌then◌else◌, All}

-- `a < b`, by the order of the bytes.
unfoldable pub str_lt : String → String → Bool
str_lt a b = elim (compare a b) [ Ordering.lt ↦ true | _ ↦ false ]

module _ {ℓ} {A : Type ℓ} where
  unfoldable pub insert_sorted : String × A → List (String × A) → List (String × A)
  insert_sorted p [] = p ∷ []
  insert_sorted p (q ∷ qs) = if str_lt q.0 p.0 then q ∷ insert_sorted p qs else p ∷ q ∷ qs

  -- `sort_by(|a, b| a.0.cmp(&b.0))`: equal keys stay in their order.
  unfoldable pub sort_by_key : List (String × A) → List (String × A)
  sort_by_key [] = []
  sort_by_key (p ∷ ps) = insert_sorted p (sort_by_key ps)

  -- `dedup_by(|a, b| a.0 == b.0)`: a pair goes if its key is that of the last one kept.
  unfoldable pub dedup_after : String × A → List (String × A) → List (String × A)
  dedup_after last [] = []
  dedup_after last (p ∷ ps) = elim (compare p.0 last.0) [
    | Ordering.eq ↦ dedup_after last ps
    | _ ↦ p ∷ dedup_after p ps
  ]

  unfoldable pub dedup_by_key : List (String × A) → List (String × A)
  unfolding dedup_after
  dedup_by_key [] = []
  dedup_by_key (p ∷ ps) = p ∷ dedup_after p ps

  -- `binary_search_by` with the key, halving the slice. The fuel is the length of the slice.
  unfoldable pub search_in : ℕ → String → List (String × A) → Option A
  search_in zero key xs = none
  search_in (suc fuel) key xs = elim (drop (length xs / 2) xs) [
    | [] ↦ none
    | p ∷ right ↦ elim (compare p.0 key) [
      | Ordering.eq ↦ some p.1
      | Ordering.lt ↦ search_in fuel key right
      | Ordering.gt ↦ search_in fuel key (take (length xs / 2) xs)
    ]
  ]

  unfoldable pub binary_search : String → List (String × A) → Option A
  unfolding search_in
  binary_search key xs = search_in (length xs) key xs

  abbrev pub NotBelow : String → List (String × A) → Type 0
  NotBelow k = All (λ p. str_lt p.0 k ≡ false)

  -- The keys do not fall.
  abbrev pub IsSorted : List (String × A) → Type 0
  IsSorted [] = Unit
  IsSorted (p ∷ ps) = NotBelow p.0 ps × IsSorted ps
