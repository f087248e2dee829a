-- ===== src/Tests/Registry.antt =====
-- The theorem on the registration of assets, at an empty store.
use talea.Prelude.{◌≡◌, refl, false, some, [], if◌then◌else◌}
use talea.Prelude.Eq.{string_eq, ◌=?◌}
use Prim.Native.String.{◌++◌ as append}
use talea.HashMap.{get}
use talea.Result.{Result, ok, err}
use talea.Types.{AssetDef, StoreError, fiat, already_exists}
use talea.Store.Data.{LogStore}
use talea.Store.Writes.{asset_eq, register_asset}
use talea.Store.Writes.Registered.{register_asset-again}

abbrev euro : AssetDef
euro = record { id = "EUR"; class = fiat; precision = 2; name = "Euro" }

-- Another definition of its code.
abbrev three_digits : AssetDef
three_digits = record euro { precision = 3 }

abbrev empty_store : LogStore
empty_store = record { shut_down = false; registry = []; books = [] }

abbrev accepts : AssetDef → Result StoreError (Unit {0})
accepts def = ok tt

abbrev refuses : AssetDef → Result StoreError (Unit {0})
refuses def = err (already_exists "all")

accepted : (register_asset accepts euro empty_store).1 ≡ ok tt
unfolding register_asset get
accepted = refl

register_asset-again_example :
    (get "EUR" (register_asset accepts euro empty_store).0.registry
      ≡ (if euro.id =? "EUR" then some euro else get "EUR" empty_store.registry))
    × (register_asset refuses three_digits (register_asset accepts euro empty_store).0 ≡ (
      (register_asset accepts euro empty_store).0,
      (if asset_eq euro three_digits then ok tt else err (already_exists (append "asset " "EUR"))),
    ))
register_asset-again_example =
    register_asset-again accepts euro empty_store refuses three_digits "EUR" accepted refl
