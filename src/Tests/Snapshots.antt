-- ===== src/Tests/Snapshots.antt =====
-- The theorem on snapshots, with a book that has no account yet and a folder with an older, broken file.
use talea.Prelude.{
  ℕ, ◌%◌, ◌≡◌, ◌≢◌, refl, subst, String, true, false, Option, none, some, List, [], ◌∷◌,
}
use talea.Prelude.{length, arith}
use talea.Prelude.Int.{ℤ}
use talea.HashMap.{HashMap}
use talea.Result.{Result, ok, err, ok_inj}
use talea.Types.{Seq, Uuid, DateTime}
use talea.Idem.{CommittedRec}
use talea.Idem.Filter.{new_bloom}
use talea.Idem.Spill.{failed}
use talea.State.Data.{AccountState, BookState, FramePos}
use talea.Snapshot.{Folder, SnapFormat, IsSnapFormat, persisted, persisted_accounts}
use talea.Snapshot.{load_latest, write_snapshot}
use talea.Snapshot.Latest.{AllBefore, load_latest-write_snapshot}
use talea.Tests.Spill.{all_go}

-- A state whose index has no run.
abbrev stored :
    Seq
    → HashMap String AccountState
    → HashMap String CommittedRec
    → List String
    → ℕ
    → HashMap Uuid (Seq × FramePos)
    → HashMap String (ℤ × ℤ)
    → Option DateTime
    → BookState
stored n accounts hot order cap txids sums last_at = record {
  next_seq = n;
  accounts = accounts;
  idem = record { hot = hot; order = order; runs = []; bloom = new_bloom 1; cap = cap };
  txids = txids;
  sums = sums;
  last_at = last_at;
  writer_attached = false;
}

-- A format for the states of empty books.
abbrev write_parts :
    Seq
    → HashMap String AccountState
    → HashMap String CommittedRec
    → List String
    → ℕ
    → HashMap Uuid (Seq × FramePos)
    → HashMap String (ℤ × ℤ)
    → Option DateTime
    → Result String (List ℕ)
write_parts n [] [] [] cap [] [] none = ok (n ∷ cap ∷ [])
write_parts n [] [] [] cap [] [] (some at) = ok (n ∷ cap ∷ at ∷ [])
write_parts _ _ _ _ _ _ _ _ = err "a book in use"

abbrev write_state : BookState → Result String (List ℕ)
write_state st =
    write_parts st.next_seq st.accounts st.idem.hot st.idem.order st.idem.cap st.txids st.sums
      st.last_at

abbrev read_state : List ℕ → Result String BookState
read_state (n ∷ cap ∷ []) = ok (stored n [] [] [] cap [] [] none)
read_state (n ∷ cap ∷ at ∷ []) = ok (stored n [] [] [] cap [] [] (some at))
read_state _ = err "not a state"

reads_parts :
    (n : Seq) (accounts : HashMap String AccountState) (hot : HashMap String CommittedRec)
    (order : List String) (cap : ℕ) (txids : HashMap Uuid (Seq × FramePos))
    (sums : HashMap String (ℤ × ℤ)) (last_at : Option DateTime) (bytes : List ℕ)
    → write_parts n accounts hot order cap txids sums last_at ≡ ok bytes
    → read_state bytes
      ≡ ok (stored n (persisted_accounts accounts) hot order cap txids sums last_at)
unfolding persisted_accounts
reads_parts n [] [] [] cap [] [] none bytes e =
    subst (λ b. read_state b ≡ ok (stored n [] [] [] cap [] [] none)) (ok_inj e) refl
reads_parts n [] [] [] cap [] [] (some at) bytes e =
    subst (λ b. read_state b ≡ ok (stored n [] [] [] cap [] [] (some at))) (ok_inj e) refl
reads_parts n (a ∷ more) hot order cap txids sums last_at bytes e = absurd (cc e)
reads_parts n [] (h ∷ hs) order cap txids sums last_at bytes e = absurd (cc e)
reads_parts n [] [] (o ∷ os) cap txids sums last_at bytes e = absurd (cc e)
reads_parts n [] [] [] cap (t ∷ ts) sums last_at bytes e = absurd (cc e)
reads_parts n [] [] [] cap [] (s ∷ ss) last_at bytes e = absurd (cc e)

reads_state :
    (st : BookState) (bytes : List ℕ)
    → write_state st ≡ ok bytes
    → read_state bytes ≡ ok (persisted st)
unfolding persisted
reads_state st bytes e =
    reads_parts st.next_seq st.accounts st.idem.hot st.idem.order st.idem.cap st.txids st.sums
      st.last_at bytes e

abbrev pub empty_format : SnapFormat
empty_format = record {
  to_vec = write_state;
  from_slice = read_state;
  hash = λ bytes. length bytes % 4294967296;
}

pub empty_format-IsSnapFormat : IsSnapFormat empty_format
empty_format-IsSnapFormat = record { reads_back = reads_state; hash_u32 = λ bytes. omega arith }

abbrev pub empty_book : BookState
empty_book = record (stored 5 [] [] [] 8 [] [] (some 7)) { writer_attached = true }

abbrev pub broken_file : Folder
broken_file = (3, 9 ∷ 9 ∷ []) ∷ []

pub broken_file-AllBefore : AllBefore 4 broken_file
broken_file-AllBefore = (omega arith, tt)

pub goes : all_go.write 4 ≢ failed
goes = cc

load_latest-write_snapshot_example :
    load_latest empty_format (write_snapshot empty_format all_go empty_book 4 broken_file).0
    ≡ some (persisted empty_book, 4)
load_latest-write_snapshot_example =
    load_latest-write_snapshot empty_format all_go empty_book 4 broken_file (5 ∷ 8 ∷ 7 ∷ [])
      empty_format-IsSnapFormat broken_file-AllBefore refl goes
