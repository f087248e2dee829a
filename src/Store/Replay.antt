-- ===== src/Store/Replay.antt =====
-- The replay of a book's log in `open_with`: the fold of its events into a state and into the registry of
-- assets.
pub mod Sums
use talea.Prelude.{String, Option, none, some, List, [], ◌∷◌, ◌+◌, ℕ}
use talea.Prelude.Eq.{string_eq}
use talea.HashMap.{HashMap, insert}
use talea.Result.{Result, ok, err, ◌>>=◌}
use talea.Types.{AssetDef, LedgerEvent, StoreError, io}
use talea.Types.{asset_registered, account_opened, transaction_posted}
use talea.State.{BookState, FramePos}
use talea.State.Apply.{try_apply_transaction, apply_account_opened, bump_seq}
use talea.Writer.Classify.{WireEvent}

pub record Replayed : Type 0 where
  pub state : BookState
  pub registry : HashMap String AssetDef

-- One round of the loop, by the event.
unfoldable pub replay_event :
    WireEvent → FramePos → LedgerEvent → Replayed → Result StoreError Replayed
replay_event wire place (transaction_posted tx) r =
    elim (try_apply_transaction tx wire.seq wire.at place r.state) [
      | none ↦ err (io "corrupt log")
      | some st ↦ ok (record r { state = st })
    ]
replay_event wire place (account_opened def cfg) r =
    ok (record r { state = apply_account_opened def cfg wire.seq wire.at r.state })
replay_event wire place (asset_registered def) r =
    ok (record {
      state = bump_seq wire.seq wire.at r.state;
      registry = insert def.id def r.registry;
    })

unfoldable pub replay : List (WireEvent × FramePos) → Replayed → Result StoreError Replayed
unfolding replay_event
replay [] r = ok r
replay ((wire, place) ∷ pairs) r = replay_event wire place wire.event r >>= λ r'. replay pairs r'
