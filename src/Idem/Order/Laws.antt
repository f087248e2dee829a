-- ===== src/Idem/Order/Laws.antt =====
-- The order of texts is total and transitive; sorting keeps what each key finds, and dropping repeated
-- keys does too.
use Prim.Native.Nat.{Ordering}
use Prim.Native.String.compare
use Prim.Native.String.{String as Text, compare}
use text.Mathlib.TextEquality.{eq_iff}
use talea.Prelude.{◌≡◌, refl, String, true, false, inl, inr}
use talea.Prelude.{some, List, [], ◌∷◌, All, All-map, Bool-cases, if◌then◌else◌, arith}
use talea.Prelude.Eq.{string_eq, ◌=?◌}
use talea.HashMap.{get}
use talea.Idem.Order.{str_lt, insert_sorted, sort_by_key, dedup_after, dedup_by_key, NotBelow}
use talea.Idem.Order.{IsSorted}

compare_trans :
    (a b c : Text)
    → compare a b ≡ Ordering.lt
    → compare b c ≡ Ordering.lt
    → compare a c ≡ Ordering.lt
compare_trans Text.[] Text.[] c h k = absurd (cc (h, compare.nil-nil))
compare_trans Text.[] (Text.◌∷◌ d t) Text.[] h k = absurd (cc (k, compare.cons-nil d t))
compare_trans Text.[] (Text.◌∷◌ d t) (Text.◌∷◌ e u) h k = compare.nil-cons e u
compare_trans (Text.◌∷◌ c s) Text.[] e h k = absurd (cc (h, compare.cons-nil c s))
compare_trans (Text.◌∷◌ c s) (Text.◌∷◌ d t) Text.[] h k = absurd (cc (k, compare.cons-nil d t))
compare_trans (Text.◌∷◌ c s) (Text.◌∷◌ d t) (Text.◌∷◌ e u) h k = ground (
  arith,
  compare.cons-cons c d s t,
  compare.cons-cons d e t u,
  compare.cons-cons c e s u,
  compare_trans s t u,
)

abbrev pub flip : Ordering → Ordering
flip Ordering.lt = Ordering.gt
flip Ordering.eq = Ordering.eq
flip Ordering.gt = Ordering.lt

pub compare-flip : (a b : Text) → compare b a ≡ flip (compare a b)
compare-flip Text.[] Text.[] = cc compare.nil-nil
compare-flip Text.[] (Text.◌∷◌ d t) = ground (arith, compare.nil-cons d t, compare.cons-nil d t)
compare-flip (Text.◌∷◌ c s) Text.[] = ground (arith, compare.nil-cons c s, compare.cons-nil c s)
compare-flip (Text.◌∷◌ c s) (Text.◌∷◌ d t) =
    ground (arith, compare.cons-cons c d s t, compare.cons-cons d c t s, compare-flip s t)

-- `compare` finds equal texts equal, and no others.
pub compare_eq : (a b : Text) → compare a b ≡ Ordering.eq → a ≡ b
compare_eq a b h = (eq_iff a b).0 (rw h refl)

pub compare_self : (a : Text) → compare a a ≡ Ordering.eq
compare_self a = ground (arith, eq_iff a a)

pub ge_trans : (a b c : Text) → str_lt b a ≡ false → str_lt c b ≡ false → str_lt c a ≡ false
unfolding str_lt
ge_trans a b c h k = ground (arith, compare-flip a b, compare_trans c a b, compare_eq a b)

pub lt_irrefl : (a : Text) → str_lt a a ≡ false
unfolding str_lt
lt_irrefl a = rw (compare_self a, str_lt) refl

pub lt_asymm : (a b : Text) → str_lt a b ≡ true → str_lt b a ≡ false
unfolding str_lt
lt_asymm a b h = ground (arith, compare-flip a b)

pub lt_ne : (a b : Text) → str_lt a b ≡ true → (a =? b) ≡ false
unfolding str_lt
lt_ne a b h = ground (arith, eq_iff a b, compare_self a)

module _ {ℓ} {A : Type ℓ} where
  get-insert_sorted :
      (p : String × A) (qs : List (String × A)) (k : String)
      → get k (insert_sorted p qs) ≡ (if p.0 =? k then some p.1 else get k qs)
  unfolding get insert_sorted
  get-insert_sorted p [] k = refl
  get-insert_sorted p (q ∷ qs) k = elim (Bool-cases (str_lt q.0 p.0)) [
    | inr first ↦ rw first refl
    | inl later ↦
        let ne = lt_ne q.0 p.0 later in
        ground
          (arith, later, ne, eq_iff q.0 p.0, eq_iff q.0 k, eq_iff p.0 k, get-insert_sorted p qs k)
  ]

  -- A stable sort leaves the first value of each key the first.
  pub get-sort_by_key : (ps : List (String × A)) (k : String) → get k (sort_by_key ps) ≡ get k ps
  unfolding get sort_by_key
  get-sort_by_key [] k = refl
  get-sort_by_key (p ∷ ps) k =
      ground (arith, get-insert_sorted p (sort_by_key ps) k, get-sort_by_key ps k)

  get-dedup_after :
      (p : String × A) (ps : List (String × A)) (k : String)
      → get k (p ∷ dedup_after p ps) ≡ get k (p ∷ ps)
  unfolding get dedup_after
  get-dedup_after p [] k = refl
  get-dedup_after p (q ∷ qs) k =
      ground (arith, compare_eq q.0 p.0, get-dedup_after p qs k, get-dedup_after q qs k)

  pub get-dedup_by_key : (ps : List (String × A)) (k : String) → get k (dedup_by_key ps) ≡ get k ps
  unfolding dedup_by_key
  get-dedup_by_key [] k = refl
  get-dedup_by_key (p ∷ ps) k = get-dedup_after p ps k

  module _ {κ} (P : String × A → Type κ) where
    All-insert_sorted :
        (p : String × A) (qs : List (String × A)) → P p → All P qs → All P (insert_sorted p qs)
    unfolding insert_sorted
    All-insert_sorted p [] h k = (h, tt)
    All-insert_sorted p (q ∷ qs) h k = elim (Bool-cases (str_lt q.0 p.0)) [
      | inl later ↦ rw later (k.0, All-insert_sorted p qs h k.1)
      | inr first ↦ rw first (h, k)
    ]

    pub All-sort_by_key : (ps : List (String × A)) → All P ps → All P (sort_by_key ps)
    unfolding sort_by_key
    All-sort_by_key [] h = h
    All-sort_by_key (p ∷ ps) h = All-insert_sorted p (sort_by_key ps) h.0 (All-sort_by_key ps h.1)

    All-dedup_after :
        (last : String × A) (ps : List (String × A)) → All P ps → All P (dedup_after last ps)
    unfolding dedup_after
    All-dedup_after last [] h = h
    All-dedup_after last (p ∷ ps) h =
        elim (compare p.0 last.0)
          as (λ o.
            All P (elim o [ Ordering.eq ↦ dedup_after last ps | _ ↦ p ∷ dedup_after p ps ])) [
              | Ordering.eq ↦ All-dedup_after last ps h.1
              | Ordering.lt ↦ (h.0, All-dedup_after p ps h.1)
              | Ordering.gt ↦ (h.0, All-dedup_after p ps h.1)
            ]

    pub All-dedup_by_key : (ps : List (String × A)) → All P ps → All P (dedup_by_key ps)
    unfolding dedup_by_key
    All-dedup_by_key [] h = h
    All-dedup_by_key (p ∷ ps) h = (h.0, All-dedup_after p ps h.1)

  NotBelow-mono :
      (j k : String) (ps : List (String × A)) → str_lt k j ≡ false → NotBelow k ps → NotBelow j ps
  NotBelow-mono j k ps h =
      All-map _ _ (λ (p : String × A) (e : str_lt p.0 k ≡ false). ge_trans j k p.0 h e) ps

  IsSorted-insert_sorted :
      (p : String × A) (qs : List (String × A)) → IsSorted qs → IsSorted (insert_sorted p qs)
  unfolding insert_sorted
  IsSorted-insert_sorted p [] h = (tt, tt)
  IsSorted-insert_sorted p (q ∷ qs) h = elim (Bool-cases (str_lt q.0 p.0)) [
    | inl later ↦ rw later (
      All-insert_sorted (λ r. str_lt r.0 q.0 ≡ false) p qs (lt_asymm q.0 p.0 later) h.0,
      IsSorted-insert_sorted p qs h.1,
    )
    | inr first ↦ rw first ((first, NotBelow-mono p.0 q.0 qs first h.0), h)
  ]

  pub IsSorted-sort_by_key : (ps : List (String × A)) → IsSorted (sort_by_key ps)
  unfolding sort_by_key
  IsSorted-sort_by_key [] = tt
  IsSorted-sort_by_key (p ∷ ps) =
      IsSorted-insert_sorted p (sort_by_key ps) (IsSorted-sort_by_key ps)

  IsSorted-dedup_after :
      (last : String × A) (ps : List (String × A)) → IsSorted ps → IsSorted (dedup_after last ps)
  unfolding dedup_after
  IsSorted-dedup_after last [] h = h
  IsSorted-dedup_after last (p ∷ ps) h =
      elim (compare p.0 last.0)
        as (λ o.
          IsSorted (elim o [ Ordering.eq ↦ dedup_after last ps | _ ↦ p ∷ dedup_after p ps ])) [
            | Ordering.eq ↦ IsSorted-dedup_after last ps h.1
            | Ordering.lt ↦ (All-dedup_after _ p ps h.0, IsSorted-dedup_after p ps h.1)
            | Ordering.gt ↦ (All-dedup_after _ p ps h.0, IsSorted-dedup_after p ps h.1)
          ]

  pub IsSorted-dedup_by_key : (ps : List (String × A)) → IsSorted ps → IsSorted (dedup_by_key ps)
  unfolding dedup_by_key
  IsSorted-dedup_by_key [] h = h
  IsSorted-dedup_by_key (p ∷ ps) h = (All-dedup_after _ p ps h.0, IsSorted-dedup_after p ps h.1)
