-- ===== src/Tests/Restart.antt =====
-- The theorem on the attachment of an index to its folder, with an index of one run.
use talea.Prelude.{◌≡◌, ◌≢◌, refl, String, some, [], ◌∷◌}
use talea.Prelude.Eq.{string_eq}
use talea.HashMap.{get}
use talea.Result.{or_else}
use talea.Frame.{from_le_bytes}
use talea.Idem.{CommittedRec, TieredIdem}
use talea.Idem.Filter.{new_bloom, insert_keys}
use talea.Idem.Filter.Sound.{new_bloom-IsBloom, insert_keys-IsBloom, might_contain-insert_keys}
use talea.Idem.Spill.{Pairs, Disk, read_all, read_run, decode_run, min_key, max_key}
use talea.Idem.Spill.Index.{Known, IsIndex}
use talea.Idem.Spill.Attach.{run_numbers, sort_numbers, insert_number, attach_dir}
use talea.Idem.Spill.Attach.Restart.{AllFilled, attach_dir-IsIndex}
use talea.Tests.Spill.{rec, numbers_format, hasher, all_go}

abbrev pub one_pair : Pairs
one_pair = ("b", rec 1) ∷ []

abbrev pub only_b : String × String
only_b = ("b", "b")

-- The run file 0 has the key "b".
abbrev pub one_file : Disk
one_file = (0, 4 ∷ 0 ∷ 0 ∷ 0 ∷ 1 ∷ 1 ∷ 1 ∷ 1 ∷ []) ∷ []

abbrev pub with_run : TieredIdem
with_run = record {
  hot = [];
  order = [];
  runs = record { number = 0; key_range = only_b; len = 1 } ∷ [];
  bloom = insert_keys hasher one_pair (new_bloom 1);
  cap = 1;
}

-- What a restart has of it before the attachment.
abbrev loaded : TieredIdem
loaded = record with_run { runs = []; bloom = new_bloom 1 }

abbrev pub one_known : Known
one_known key = or_else (get key with_run.hot) (get key one_pair)

pub one_read : read_run numbers_format one_file 0 ≡ some one_pair
unfolding read_run decode_run from_le_bytes get
one_read = refl

pub all_read : read_all numbers_format one_file with_run.runs ≡ some one_pair
unfolding read_all read_run decode_run from_le_bytes get
all_read = refl

pub one_range : only_b ≡ (min_key one_pair, max_key one_pair)
unfolding min_key max_key
one_range = refl

pub one_true : one_known "b" ≡ some (rec 1)
unfolding get
one_true = refl

pub memory_first :
    (key : String) (r : CommittedRec) → get key with_run.hot ≡ some r → one_known key ≡ some r
memory_first key r e = rw e refl

abbrev pub with_run-IsIndex : IsIndex numbers_format hasher one_file with_run one_known
with_run-IsIndex = record {
  all = one_pair;
  readable = all_read;
  runs = (record { pairs = one_pair; reads = one_read; sorted = (tt, tt); range = one_range }, tt);
  runs_true = (one_true, tt);
  hot_true = memory_first;
  complete = λ key. refl;
  bloom = insert_keys-IsBloom hasher one_pair (new_bloom 1) (new_bloom-IsBloom 1);
  passes = might_contain-insert_keys hasher one_pair (new_bloom 1) (new_bloom-IsBloom 1);
}

pub some_run : with_run.runs ≢ []
some_run = cc

pub one_listed : run_numbers one_file ≡ 0 ∷ []
unfolding run_numbers sort_numbers insert_number
one_listed = refl

pub one_filled : AllFilled numbers_format hasher one_file with_run.runs with_run-IsIndex.runs
one_filled = (cc, tt)

attach_dir-IsIndex_example :
    IsIndex numbers_format hasher
      (attach_dir numbers_format hasher all_go [] loaded one_file).1
      (attach_dir numbers_format hasher all_go [] loaded one_file).0
      one_known
    × ((attach_dir numbers_format hasher all_go [] loaded one_file).1 ≡ one_file)
attach_dir-IsIndex_example =
    attach_dir-IsIndex numbers_format hasher one_file all_go [] with_run loaded one_known
      with_run-IsIndex some_run one_filled one_listed refl
