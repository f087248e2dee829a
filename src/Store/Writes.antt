-- ===== src/Store/Writes.antt =====
-- The registration of assets and the opening of accounts. What the writer of the book answers to the job
-- is the argument `ask`.
pub mod Registered
use Prim.Native.String.{◌++◌ as append}
use talea.Prelude.{String, Bool, true, false, none, some, if◌then◌else◌}
use talea.Prelude.{◌==◌, ◌&&◌}
use talea.Prelude.Eq.{string_eq, ◌=?◌}
use talea.HashMap.{get, insert, contains_key}
use talea.Result.{Result, ok, err, ◌>>◌}
use talea.Types.{
  AssetClass, AssetDef, AccountDef, AccountCfg, StoreError, fiat, crypto, is_reserved,
}
use talea.Types.{already_exists, invalid_book, unknown_asset, io}
use talea.Types.Equality.{option_eq}
use talea.Store.Data.{LogStore, validate_book_name}

abbrev pub class_eq : AssetClass → AssetClass → Bool
class_eq fiat fiat = true
class_eq (crypto network native) (crypto network' native') =
    network =? network' && option_eq (λ (x y : String). x =? y) native native'
class_eq _ _ = false

-- `==` of `AssetDef`
unfoldable pub asset_eq : AssetDef → AssetDef → Bool
asset_eq a b =
    (a.id =? b.id && class_eq a.class b.class) && (a.precision == b.precision && a.name =? b.name)

-- `register_asset`, with the store after it.
unfoldable pub register_asset :
    (AssetDef → Result StoreError (Unit {0}))
    → AssetDef
    → LogStore
    → LogStore × Result StoreError (Unit {0})
register_asset ask asset s =
    if s.shut_down
    then (s, err (io "store has been shut down"))
    else elim (get asset.id s.registry) [
      | some existing ↦ (
        s,
        (if asset_eq existing asset
            then ok tt
            else err (already_exists (append "asset " asset.id))),
      )
      | none ↦ elim (ask asset) [
        | err e ↦ (s, err e)
        | ok _ ↦ (record s { registry = insert asset.id asset s.registry }, ok tt)
      ]
    ]

-- `open_account`; `book_writer` tests the store and the name of the book.
unfoldable pub open_account :
    (AccountDef → AccountCfg → Result StoreError (Unit {0}))
    → AccountDef
    → AccountCfg
    → LogStore
    → Result StoreError (Unit {0})
open_account ask def cfg s =
    if is_reserved def.id.book
    then err (invalid_book def.id.book)
    else if contains_key def.asset s.registry
    then (if s.shut_down
        then err (io "store has been shut down")
        else validate_book_name def.id.book >> ask def cfg)
    else err (unknown_asset def.asset)
