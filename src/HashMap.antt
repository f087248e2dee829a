-- ===== src/HashMap.antt =====
-- `std::collections::HashMap`, as the association list of its entries in the order of insertion.
-- No theorem depends on that order but where it says so: the iteration order of the real map is
-- not specified.
use talea.Prelude.{◌≡◌, refl, Bool, true, false, Option, none, some, List, [], ◌∷◌}
use talea.Prelude.{◌⊎◌, inl, inr, Bool-cases, arith, if◌then◌else◌}
use talea.Prelude.{◌++◌, All, subst}
use talea.Result.{or_else, some_inj}
use talea.Prelude.Eq.{Eq, ◌=?◌, beq_refl}

abbrev pub HashMap {ℓ κ} : Type ℓ → Type κ → Type (ℓ ⊔ κ)
HashMap K V = List (K × V)

module _ {ℓ κ} {K : Type ℓ} {V : Type κ} ⦃e : Eq K⦄ where
  unfoldable pub get : K → HashMap K V → Option V
  get k [] = none
  get k ((j, v) ∷ m) = if j =? k then some v else get k m

  -- `insert` overwrites the value of a key that is there.
  unfoldable pub insert : K → V → HashMap K V → HashMap K V
  insert k v [] = (k, v) ∷ []
  insert k v ((j, w) ∷ m) = if j =? k then (k, v) ∷ m else (j, w) ∷ insert k v m

  abbrev pub contains_key : K → HashMap K V → Bool
  contains_key k m = elim (get k m) [ none ↦ false | some _ ↦ true ]

  -- `entry(k).or_insert(v)`, as a value: the map with the entry present.
  unfoldable pub or_insert : K → V → HashMap K V → HashMap K V
  or_insert k v m = elim (get k m) [ none ↦ insert k v m | some _ ↦ m ]

  pub get-insert :
      (k j : K) (v : V) (m : HashMap K V)
      → get j (insert k v m) ≡ (if k =? j then some v else get j m)
  unfolding get insert
  get-insert k j v [] = refl
  get-insert k j v ((i, w) ∷ m) =
      ground (arith, e.beq_iff k j, e.beq_iff i k, e.beq_iff i j, get-insert k j v m)

  pub get-insert_self : (k : K) (v : V) (m : HashMap K V) → get k (insert k v m) ≡ some v
  get-insert_self k v m = ground (arith, get-insert k k v m, beq_refl k)

  pub get-or_insert :
      (k j : K) (v : V) (m : HashMap K V)
      → get j (or_insert k v m)
        ≡ elim (get j m) [ none ↦ if k =? j then some v else none | some w ↦ some w ]
  unfolding or_insert
  get-or_insert k j v m = ground (arith, get-insert k j v m, e.beq_iff k j)

  -- What a key leads to after an insertion.
  pub get-insert_cases :
      (k j : K) (v : V) (m : HashMap K V) {w : V}
      → get j (insert k v m) ≡ some w
      → ((k ≡ j) × (v ≡ w)) ⊎ (get j m ≡ some w)
  get-insert_cases k j v m h =
      let step = get-insert k j v m in
      elim (Bool-cases (k =? j)) [
        | inl same ↦ inl (ground (arith, e.beq_iff k j, same), ground (arith, step, same, h))
        | inr other ↦ inr (ground (arith, step, other, h))
      ]

  -- A new key changes no other.
  pub get-insert_new :
      (k j : K) (v : V) (m : HashMap K V) {w : V}
      → get k m ≡ none
      → get j m ≡ some w
      → get j (insert k v m) ≡ some w
  get-insert_new k j v m fresh h = ground (arith, get-insert k j v m, e.beq_iff k j)

  -- `remove`, as the map that is left.
  unfoldable pub remove : K → HashMap K V → HashMap K V
  remove k [] = []
  remove k ((j, v) ∷ m) = if j =? k then remove k m else (j, v) ∷ remove k m

  pub get-remove :
      (k j : K) (m : HashMap K V) → get j (remove k m) ≡ (if k =? j then none else get j m)
  unfolding get remove
  get-remove k j [] = ground arith
  get-remove k j ((i, w) ∷ m) =
      ground (arith, e.beq_iff k j, e.beq_iff i k, e.beq_iff i j, get-remove k j m)

  pub get-append : (k : K) (m n : HashMap K V) → get k (m ++ n) ≡ or_else (get k m) (get k n)
  unfolding get
  get-append k [] n = refl
  get-append k ((j, v) ∷ m) n = ground (arith, get-append k m n)

  -- What holds of every entry holds of the one that is found.
  pub get-All {μ} :
      (P : K × V → Type μ) (k : K) (m : HashMap K V) {v : V} → All P m → get k m ≡ some v → P (k, v)
  unfolding get
  get-All P k [] h g = absurd (cc g)
  get-All P k ((j, w) ∷ m) {v} h g = elim (Bool-cases (j =? k)) [
    | inl same ↦
        let here : some w ≡ some v = rw same at g in
        let key : j ≡ k = (e.beq_iff j k).0 same in
        let value : w ≡ v = some_inj here in
        subst (λ x. P (k, x)) value (subst (λ i. P (i, w)) key h.0)
    | inr other ↦ let later : get k m ≡ some v = rw other at g in get-All P k m h.1 later
  ]

  -- What holds of every entry and of a new one holds after the insertion, and after a removal.
  pub insert-All {μ} :
      (P : K × V → Type μ) (k : K) (v : V) (m : HashMap K V)
      → P (k, v)
      → All P m
      → All P (insert k v m)
  unfolding insert
  insert-All P k v [] h hs = (h, tt)
  insert-All P k v ((j, w) ∷ m) h hs = elim (Bool-cases (j =? k)) [
    | inl same ↦ rw same (h, hs.1)
    | inr other ↦ rw other (hs.0, insert-All P k v m h hs.1)
  ]

  pub remove-All {μ} : (P : K × V → Type μ) (k : K) (m : HashMap K V) → All P m → All P (remove k m)
  unfolding remove
  remove-All P k [] hs = tt
  remove-All P k ((j, w) ∷ m) hs = elim (Bool-cases (j =? k)) [
    | inl same ↦ rw same (remove-All P k m hs.1)
    | inr other ↦ rw other (hs.0, remove-All P k m hs.1)
  ]
