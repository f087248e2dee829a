-- ===== src/Writer/Resolve.antt =====
-- Phases 2a and 2b of `run_loop`: the keys of a batch that the memory does not have, but that the Bloom
-- filter passes, are looked up in the spilled runs. The filter and the lookup are those of `Runs`.
pub mod Lookup
pub mod Fresh
pub mod Tiered
use talea.Prelude.{◌≡◌, ◌≢◌, String, Bool, true, false, Option, none, some, List, [], ◌∷◌}
use talea.Prelude.{if◌then◌else◌}
use talea.Prelude.Eq.{string_eq}
use talea.HashMap.{HashMap, insert}
use talea.Result.{or_else}
use talea.Types.{DateTime}
use talea.Idem.{CommittedRec, get_hot}
use talea.State.{BookState}
use talea.Writer.Classify.{Job, commit, open_account, register_asset, snapshot}

-- `bloom_might_contain` and `lookup_runs` of the index, as the files stand.
pub record Runs : Type 0 where
  pub might_contain : String → Bool
  pub lookup : String → Option CommittedRec

-- The filter has no false negative.
abbrev pub IsSound : Runs → Type 0
IsSound runs = (key : String) → runs.lookup key ≢ none → runs.might_contain key ≡ true

-- What the index knows of a key, in the memory or in the runs.
abbrev pub found : Runs → BookState → String → Option CommittedRec
found runs st key = or_else (get_hot key st.idem) (runs.lookup key)

abbrev pub is_some {ℓ} : {A : Type ℓ} → Option A → Bool
is_some none = false
is_some (some _) = true

-- Phase 2a
unfoldable pub bloom_positive : Runs → BookState → List (Job × DateTime) → List String
bloom_positive runs st [] = []
bloom_positive runs st ((commit tx, _) ∷ jobs) =
    let rest = bloom_positive runs st jobs in
    if is_some (get_hot tx.idempotency_key st.idem)
    then rest
    else if runs.might_contain tx.idempotency_key
    then tx.idempotency_key ∷ rest
    else rest
bloom_positive runs st ((open_account def cfg, _) ∷ jobs) = bloom_positive runs st jobs
bloom_positive runs st ((register_asset def, _) ∷ jobs) = bloom_positive runs st jobs
bloom_positive runs st ((snapshot, _) ∷ jobs) = bloom_positive runs st jobs

-- One step of the loop, by what is found.
unfoldable pub insert_found :
    Option CommittedRec → String → HashMap String CommittedRec → HashMap String CommittedRec
insert_found none key resolved = resolved
insert_found (some rec) key resolved = insert key rec resolved

-- Phase 2b; the memory is asked first.
unfoldable pub resolve :
    Runs → BookState → List String → HashMap String CommittedRec → HashMap String CommittedRec
resolve runs st [] resolved = resolved
resolve runs st (key ∷ keys) resolved =
    resolve runs st keys (insert_found (found runs st key) key resolved)
