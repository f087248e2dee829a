-- ===== src/Store/Writes/Registered.antt =====
-- The registry after an asset was registered.
use talea.Prelude.{
  ◌≡◌, ◌⊎◌, refl, sym, ◌∙◌, ap, String, Bool, true, false, Option, none, some, arith,
}
use talea.Prelude.{inl, inr, Bool-cases, Option-cases, ==_iff, if◌then◌else◌, ◌&&◌}
use talea.Prelude.Eq.{string_eq, ◌=?◌}
use text.Mathlib.TextEquality.{eq_iff}
use Prim.Native.String.{◌++◌ as append}
use talea.HashMap.{get, insert, get-insert, get-insert_self}
use talea.Result.{Result, ok, err, Result-cases}
use talea.Types.{AssetClass, AssetDef, StoreError, fiat, crypto, already_exists}
use talea.Types.Equality.{option_eq}
use talea.Store.Data.{LogStore}
use talea.Store.Writes.{class_eq, asset_eq, register_asset}

both : (a b : Bool) → (a && b) ≡ true → (a ≡ true) × (b ≡ true)
both a b h = (ground arith, ground arith)

network_eq_sound : (a b : Option String) → option_eq (λ (x y : String). x =? y) a b ≡ true → a ≡ b
network_eq_sound none none e = refl
network_eq_sound none (some b) e = absurd (cc e)
network_eq_sound (some a) none e = absurd (cc e)
network_eq_sound (some a) (some b) e = ap some ((eq_iff a b).0 e)

class_eq_sound : (a b : AssetClass) → class_eq a b ≡ true → a ≡ b
class_eq_sound fiat fiat e = refl
class_eq_sound fiat (crypto n t) e = absurd (cc e)
class_eq_sound (crypto n t) fiat e = absurd (cc e)
class_eq_sound (crypto n t) (crypto n' t') e =
    let (network, native) = both _ _ e in
    let p = (eq_iff n n').0 network in let q = network_eq_sound t t' native in cc (p, q)

asset_eq_sound : (a b : AssetDef) → asset_eq a b ≡ true → a ≡ b
unfolding asset_eq
asset_eq_sound a b e =
    let (l, r) = both _ _ e in
    let (i, c) = both _ _ l in
    let (p, n) = both _ _ r in
    let id = (eq_iff a.id b.id).0 i in
    let class = class_eq_sound a.class b.class c in
    let precision = (==_iff a.precision b.precision).0 p in
    let name = (eq_iff a.name b.name).0 n in
    λ t. record { id = id t; class = class t; precision = precision t; name = name t }

-- What a registration that succeeds leaves: the store is up, and has the asset beside what it had.
abbrev IsRegistered : AssetDef → LogStore → LogStore → Type 0
IsRegistered asset s s' =
    (s'.shut_down ≡ false)
    × (get asset.id s'.registry ≡ some asset)
    × ((s'.registry ≡ s.registry) ⊎ (s'.registry ≡ insert asset.id asset s.registry))

up_of_ok :
    (down : Bool) (a b : LogStore × Result StoreError (Unit {0})) {e : StoreError}
    → a.1 ≡ err e
    → (if down then a else b).1 ≡ ok tt
    → down ≡ false
up_of_ok true a b fails h = absurd (cc (fails, h))
up_of_ok false a b fails h = refl

asked_again :
    (ask : AssetDef → Result StoreError (Unit {0})) (asset other : AssetDef) (s : LogStore)
    → s.shut_down ≡ false
    → get asset.id s.registry ≡ some asset
    → other.id ≡ asset.id
    → register_asset ask other s ≡ (
      s,
      (if asset_eq asset other then ok tt else err (already_exists (append "asset " asset.id))),
    )
unfolding register_asset
asked_again ask asset other s up there same =
    let found = ap (λ i. get i s.registry) same ∙ there in
    simp (up, found, register_asset)
      (ap
        (λ i.
          (s, (if asset_eq asset other then ok tt else err (already_exists (append "asset " i)))))
        same)

module _ (ask : AssetDef → Result StoreError (Unit {0})) (asset : AssetDef) (s : LogStore) where
  register_asset-IsRegistered :
      (register_asset ask asset s).1 ≡ ok tt → IsRegistered asset s (register_asset ask asset s).0
  unfolding register_asset
  register_asset-IsRegistered h =
      let up = up_of_ok s.shut_down _ _ refl h in
      elim (Option-cases (get asset.id s.registry)) [
        | inr (existing, there) ↦ elim (Bool-cases (asset_eq existing asset)) [
          | inr other ↦ absurd (ground (arith, up, there, other, h))
          | inl same ↦
              let e = asset_eq_sound existing asset same in
              rw (up, there, register_asset) (up, there ∙ ap some e, inl refl)
        ]
        | inl absent ↦ elim (Result-cases (ask asset)) [
          | inr (e, refused) ↦ absurd (ground (arith, up, absent, refused, h))
          | inl (done, asked) ↦
              rw (up, absent, asked, register_asset)
                (up, get-insert_self asset.id asset s.registry, inr refl)
        ]
      ]

  registered-get :
      (key : String) (s' : LogStore)
      → IsRegistered asset s s'
      → get key s'.registry ≡ (if asset.id =? key then some asset else get key s.registry)
  registered-get key s' r = elim r.2 [
    | inr e ↦ ap (get key) e ∙ get-insert asset.id key asset s.registry
    | inl e ↦ elim (Bool-cases (asset.id =? key)) [
      | inr other ↦ ap (get key) e ∙ sym (rw other refl)
      | inl same ↦
          let k = (eq_iff asset.id key).0 same in
          ap (λ i. get i s'.registry) (sym k) ∙ r.1 ∙ sym (rw same refl)
    ]
  ]

  -- Let a registration succeed. Then the registry has that asset under its code, and under any other code
  -- what it had. A registration of the same code that follows does not ask the writer and changes nothing:
  -- the same definition is accepted, and any other is refused as existing.
  pub register_asset-again :
      (ask_again : AssetDef → Result StoreError (Unit {0})) (other : AssetDef) (key : String)
      → (register_asset ask asset s).1 ≡ ok tt
      → other.id ≡ asset.id
      → let s' = (register_asset ask asset s).0 in
        (get key s'.registry ≡ (if asset.id =? key then some asset else get key s.registry))
        × (register_asset ask_again other s' ≡ (
          s',
          (if asset_eq asset other then ok tt else err (already_exists (append "asset " asset.id))),
        ))
  register_asset-again ask_again other key h same =
      let r = register_asset-IsRegistered h in
      let s' = (register_asset ask asset s).0 in
      (registered-get key s' r, asked_again ask_again asset other s' r.0 r.1 same)
