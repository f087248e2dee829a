-- ===== src/Writer/Resolve/Tiered.antt =====
-- The tiered index as the `Runs` of the writer: the filter and the runs that the writer asks.
use talea.Prelude.{◌≡◌, sym, ◌∙◌, ap, String, none, some, List, []}
use talea.Prelude.Eq.{string_eq}
use talea.HashMap.{get}
use talea.Result.{or_else}
use talea.Types.{DateTime, Transaction, transaction_posted}
use talea.Prelude.{ℕ, get_elem?}
use talea.Idem.{TieredIdem, get_hot}
use talea.Idem.Filter.{Hasher, might_contain}
use talea.Idem.Spill.{Disk, RunFormat, IsRunFormat, Attempts, lookup_runs, flush_spill}
use talea.Idem.Spill.Index.{Known, IsIndex, lookup_runs-all, passes-lookup_runs}
use talea.Idem.Spill.Flush.{flush_spill-IsIndex}
use talea.State.{BookState}
use talea.Writer.Classify.{Job, Batch, Staged, classify}
use talea.Writer.Resolve.{Runs, IsSound, found, bloom_positive, resolve}
use talea.Writer.Resolve.Fresh.{classify-new_key}

module _ (f : RunFormat) (h : Hasher) where
  -- `bloom_might_contain` and `lookup_runs` of an index.
  unfoldable pub index_runs : Disk → TieredIdem → Runs
  index_runs disk t = record {
    might_contain = λ key. might_contain h key t.bloom;
    lookup = λ key. lookup_runs f disk key t.runs;
  }

  pub index_runs-IsSound :
      (disk : Disk) (t : TieredIdem) (known : Known)
      → IsIndex f h disk t known
      → IsSound (index_runs disk t)
  unfolding index_runs
  index_runs-IsSound disk t known i key there = passes-lookup_runs f h disk t known i key there

  -- What the writer finds in the memory or the runs is what `get` finds.
  pub found-index_runs :
      (disk : Disk) (st : BookState) (known : Known) (key : String)
      → IsIndex f h disk st.idem known
      → found (index_runs disk st.idem) st key ≡ known key
  unfolding index_runs get_hot
  found-index_runs disk st known key i =
      ap (or_else (get key st.idem.hot)) (lookup_runs-all f h disk st.idem known i key)
      ∙ i.complete key

  -- Let the index of the state, with its run files, stand for a map of the keys that are committed.
  -- Then a commit that a batch stages, with the filter and the run files of that index, after the index
  -- was flushed, whatever of the flush failed, has a key that the map does not have. The JSON codec
  -- reads back what it wrote.
  pub classify-unknown_key :
      (io : Attempts) (disk : Disk) (st : BookState) (known : Known) (now : DateTime)
      (jobs : List (Job × DateTime)) {b : Batch} (i : ℕ) (s : Staged) (tx : Transaction)
      → IsRunFormat f
      → IsIndex f h disk st.idem known
      → (let flushed = flush_spill f h io st.idem disk in
          let st' = record st { idem = flushed.0 } in
          let runs = index_runs flushed.1 flushed.0 in
          classify st' (resolve runs st' (bloom_positive runs st' jobs) []) now jobs ≡ some b)
      → get_elem? b.staged i ≡ some s
      → s.wire.event ≡ transaction_posted tx
      → known tx.idempotency_key ≡ none
  classify-unknown_key io disk st known now jobs i s tx codec index e at_i is_tx =
      let flushed = flush_spill f h io st.idem disk in
      let st' = record st { idem = flushed.0 } in
      let after = flush_spill-IsIndex f codec h io known disk st.idem index in
      let sound = index_runs-IsSound flushed.1 flushed.0 known after in
      sym (found-index_runs flushed.1 st' known tx.idempotency_key after)
      ∙ classify-new_key (index_runs flushed.1 flushed.0) st' now jobs i s tx sound e at_i is_tx
