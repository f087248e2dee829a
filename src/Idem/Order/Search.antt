-- ===== src/Idem/Order/Search.antt =====
-- Binary search finds in a sorted slice what a plain search finds, when a key has but one value.
use Prim.Native.Nat.{Ordering}
use Prim.Native.String.{compare}
use text.Mathlib.TextEquality.{eq_iff}
use talea.Prelude.{ℕ, zero, suc, ◌/◌, ◌≤◌, ◌≡◌, refl, sym, ◌∙◌, ap, String, true, false}
use talea.Prelude.{Option, none, some, List, [], ◌∷◌, ◌++◌, length, take, drop, All, All-map, arith}
use talea.Prelude.{take-append-drop, length-take, length-drop}
use talea.Prelude.Eq.{string_eq, ◌=?◌}
use talea.Prelude.{◌⊎◌, inl, inr, subst, Option-cases, Bool-cases}
use talea.Result.{or_else}
use talea.HashMap.{get, get-append, get-All}
use talea.Idem.Order.{str_lt, search_in, binary_search, NotBelow, IsSorted}
use talea.Idem.Order.Laws.{compare_eq, compare-flip, compare_self}

Ordering-cases : (o : Ordering) → (o ≡ Ordering.eq) ⊎ ((o ≡ Ordering.lt) ⊎ (o ≡ Ordering.gt))
Ordering-cases Ordering.eq = inl refl
Ordering-cases Ordering.lt = inr (inl refl)
Ordering-cases Ordering.gt = inr (inr refl)

-- A text beyond the one that is probed is not the key sought.
ne_above :
    (m b key : String) → str_lt m b ≡ false → compare m key ≡ Ordering.lt → (b =? key) ≡ false
unfolding str_lt
ne_above m b key h e = elim (Bool-cases (b =? key)) [
  | inr other ↦ other
  | inl same ↦ let k : b ≡ key = (eq_iff b key).0 same in ground (arith, ap (compare m) k, h, e)
]

ne_below :
    (m b key : String) → str_lt b m ≡ false → compare m key ≡ Ordering.gt → (b =? key) ≡ false
unfolding str_lt
ne_below m b key h e = elim (Bool-cases (b =? key)) [
  | inr other ↦ other
  | inl same ↦
      let k : b ≡ key = (eq_iff b key).0 same in
      ground (arith, ap (λ x. compare x m) k, compare-flip m key, h, e)
]

module _ {ℓ κ} {A : Type ℓ} (P : String × A → Type κ) where
  pub All-take : (n : ℕ) (xs : List (String × A)) → All P xs → All P (take n xs)
  All-take zero xs h = tt
  All-take (suc n) [] h = tt
  All-take (suc n) (x ∷ xs) h = (h.0, All-take n xs h.1)

  pub All-drop : (n : ℕ) (xs : List (String × A)) → All P xs → All P (drop n xs)
  All-drop zero xs h = h
  All-drop (suc n) [] h = tt
  All-drop (suc n) (x ∷ xs) h = All-drop n xs h.1

module _ {ℓ} {A : Type ℓ} where
  -- Of the parts of a sorted slice round a pair, the keys of the one are not above the pair's, and
  -- those of the other not below.
  abbrev Splits : List (String × A) → String × A → List (String × A) → Type 0
  Splits l m r = All (λ p. str_lt m.0 p.0 ≡ false) l × NotBelow m.0 r × IsSorted l × IsSorted r

  NotBelow-append :
      (k : String) (l : List (String × A)) (m : String × A) (r : List (String × A))
      → NotBelow k (l ++ (m ∷ r))
      → NotBelow k l × (str_lt m.0 k ≡ false)
  NotBelow-append k [] m r h = (tt, h.0)
  NotBelow-append k (p ∷ l) m r h =
      let rest = NotBelow-append k l m r h.1 in ((h.0, rest.0), rest.1)

  split_lem :
      (l : List (String × A)) (m : String × A) (r : List (String × A))
      → IsSorted (l ++ (m ∷ r))
      → Splits l m r
  split_lem [] m r h = (tt, h.0, tt, h.1)
  split_lem (p ∷ l) m r h =
      let rest = split_lem l m r h.1 in
      let ends = NotBelow-append p.0 l m r h.0 in
      ((ends.1, rest.0), rest.1, (ends.0, rest.2), rest.3)

  List-cases :
      (xs : List (String × A))
      → (xs ≡ []) ⊎ ((m : String × A) × (r : List (String × A)) × (xs ≡ m ∷ r))
  List-cases [] = inl refl
  List-cases (m ∷ r) = inr (m, r, refl)

  All-mid {κ} :
      (P : String × A → Type κ) (l : List (String × A)) (m : String × A) (r : List (String × A))
      → All P (l ++ (m ∷ r))
      → P m
  All-mid P [] m r h = h.0
  All-mid P (p ∷ l) m r h = All-mid P l m r h.1

  pub or_else-none : (o : Option A) → or_else o none ≡ o
  or_else-none none = refl
  or_else-none (some a) = refl

  pub get-none :
      (k : String) (xs : List (String × A)) → All (λ p. (p.0 =? k) ≡ false) xs → get k xs ≡ none
  unfolding get
  get-none k [] h = refl
  get-none k (p ∷ xs) h = rw h.0 (get-none k xs h.1)

  module _ (T : String → Option A) where
    -- The keys have the values that `T` gives them.
    abbrev pub AllTrue : List (String × A) → Type ℓ
    AllTrue = All (λ p. T p.0 ≡ some p.1)

    pub get-true :
        (k : String) (xs : List (String × A)) {r : A}
        → AllTrue xs
        → get k xs ≡ some r
        → T k ≡ some r
    get-true k xs h e = get-All (λ p. T p.0 ≡ some p.1) k xs h e

    -- The pair that is probed, and the two parts beside it.
    module _ (key : String) (l : List (String × A)) (m : String × A) (r : List (String × A))
        (s : Splits l m r) where
      get-hit :
          compare m.0 key ≡ Ordering.eq → AllTrue (l ++ (m ∷ r)) → get key (l ++ (m ∷ r)) ≡ some m.1
      unfolding get
      get-hit e t =
          let key_eq : m.0 ≡ key = compare_eq m.0 key e in
          let same : (m.0 =? key) ≡ true = (eq_iff m.0 key).1 key_eq in
          let g = get-append key l (m ∷ r) in
          elim (Option-cases (get key l)) [
            | inl absent ↦ g ∙ rw (absent, get, same) refl
            | inr (v, before) ↦
                let found : get key (l ++ (m ∷ r)) ≡ some v = g ∙ rw before refl in
                let mine : T key ≡ some m.1 =
                  subst (λ k. T k ≡ some m.1) key_eq (All-mid _ l m r t) in
                found ∙ sym (get-true key (l ++ (m ∷ r)) t found) ∙ mine
          ]

      get-right : compare m.0 key ≡ Ordering.lt → get key (l ++ (m ∷ r)) ≡ get key r
      unfolding get
      get-right e =
          let before = get-none key l (
            All-map _ _ (λ (p : String × A) (h : str_lt m.0 p.0 ≡ false). ne_above m.0 p.0 key h e)
              l s.0) in
          let other : (m.0 =? key) ≡ false = ground (arith, eq_iff m.0 key, compare_self key, e) in
          get-append key l (m ∷ r) ∙ rw (before, get, other) refl

      get-left : compare m.0 key ≡ Ordering.gt → get key (l ++ (m ∷ r)) ≡ get key l
      unfolding get
      get-left e =
          let after = get-none key r (
            All-map _ _ (λ (p : String × A) (h : str_lt p.0 m.0 ≡ false). ne_below m.0 p.0 key h e)
              r s.1) in
          let other : (m.0 =? key) ≡ false = ground (arith, eq_iff m.0 key, compare_self key, e) in
          let g = get-append key l (m ∷ r) in
          let tail : get key (m ∷ r) ≡ none = rw (get, other) after in
          g ∙ rw tail (or_else-none (get key l))

    search_in-eq-get :
        (fuel : ℕ) (key : String) (xs : List (String × A))
        → length xs ≤ fuel
        → IsSorted xs
        → AllTrue xs
        → search_in fuel key xs ≡ get key xs
    unfolding search_in get
    search_in-eq-get zero key [] len s t = refl
    search_in-eq-get zero key (x ∷ xs) len s t = absurd (omega arith)
    search_in-eq-get (suc fuel) key [] len s t = refl
    search_in-eq-get (suc fuel) key (x ∷ xs') len s t =
        let xs = x ∷ xs' in
        let n = length xs / 2 in
        elim (List-cases (drop n xs)) [
          | inl d ↦ absurd (omega (arith, length-drop n xs, ap (length) d))
          | inr (m, r, d) ↦
              let parts : take n xs ++ (m ∷ r) ≡ xs =
                ap (λ t. take n xs ++ t) (sym d) ∙ take-append-drop n xs in
              let sp = split_lem (take n xs) m r (subst (IsSorted) (sym parts) s) in
              let t' = subst (AllTrue) (sym parts) t in
              let short : length r ≤ fuel = omega (arith, len, length-drop n xs, ap (length) d) in
              let right_true : AllTrue r = (subst (AllTrue) d (All-drop _ n xs t)).1 in
              let whole = λ (z : Option A) (g : get key (take n xs ++ (m ∷ r)) ≡ z).
                sym (subst (λ w. get key w ≡ z) parts g) in
              elim (Ordering-cases (compare m.0 key)) [
                | inl e ↦ rw (d, e, search_in) (whole (some m.1) (get-hit key _ m r sp e t'))
                | inr (inl e) ↦
                    rw (d, e, search_in)
                      (search_in-eq-get fuel key r short sp.3 right_true
                        ∙ whole (get key r) (get-right key _ m r sp e))
                | inr (inr e) ↦
                    let shorter : length (take n xs) ≤ fuel =
                      omega (arith, len, length-take n xs) in
                    rw (d, e, search_in)
                      (search_in-eq-get fuel key (take n xs) shorter sp.2 (All-take _ n xs t)
                        ∙ whole (get key (take n xs)) (get-left key _ m r sp e))
              ]
        ]

    -- In a slice that is sorted by key, and in which all pairs of one key have the same value, binary
    -- search finds for a key what a search from the front finds.
    pub binary_search-eq-get :
        (key : String) (xs : List (String × A))
        → IsSorted xs
        → AllTrue xs
        → binary_search key xs ≡ get key xs
    unfolding binary_search
    binary_search-eq-get key xs s t = search_in-eq-get (length xs) key xs (omega arith) s t
