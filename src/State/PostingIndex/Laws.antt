-- ===== src/State/PostingIndex/Laws.antt =====
-- The chunked index refines the plain list of its entries.
use talea.Prelude.{ℕ, suc, ◌-◌, ◌*◌, ◌/◌, ◌%◌, ◌<◌, ◌≡◌, refl, sym, ◌∙◌}
use talea.Prelude.{List, [], ◌∷◌, ◌++◌, append-nil, append_assoc, All, All-append, arith}
use talea.Prelude.{length, length-append, get_elem?, get_elem?-append, drop, drop-append}
use talea.Prelude.{min, Bool-cases, inl, inr, ◌==◌, ltb, drop_all, drop_nil}
use talea.Result.{bind_option}
use talea.State.Data.{PostingEntry, PostingIndex}
use talea.State.PostingIndex.{chunk_len, push, default, len, get, concat, chunks_from}
use talea.State.PostingIndex.{iter_from, serialize}

abbrev pub IsFull : List PostingEntry → Type 0
IsFull c = length c ≡ chunk_len

-- Every sealed chunk is full, and the tail is not.
pub record IsChunked (x : PostingIndex) : Type 0 where
  pub full : All IsFull x.sealed
  pub open_tail : length x.tail < chunk_len

-- The empty index is well formed.
pub default-IsChunked : IsChunked default
unfolding default
default-IsChunked = record { full = tt; open_tail = omega arith }

-- A push keeps the index well formed.
pub push-IsChunked : (x : PostingIndex) (e : PostingEntry) → IsChunked x → IsChunked (push x e)
unfolding push
push-IsChunked x e h =
    let grown = length-append x.tail (e ∷ []) in
    elim (Bool-cases (length (x.tail ++ (e ∷ [])) == chunk_len)) [
      | inl eq ↦ rw eq (record {
        full = All-append IsFull x.sealed _ h.full (ground arith, tt);
        open_tail = omega arith;
      })
      | inr ne ↦ rw ne (record { full = h.full; open_tail = ground (arith, h.open_tail) })
    ]

concat-append :
    (cs : List (List PostingEntry)) (c : List PostingEntry)
    → concat (cs ++ (c ∷ [])) ≡ concat cs ++ c
concat-append [] c = append-nil c
concat-append (b ∷ cs) c = rw (concat-append cs c) (sym (append_assoc b (concat cs) c))

length-concat :
    (cs : List (List PostingEntry)) → All IsFull cs → length (concat cs) ≡ length cs * chunk_len
length-concat [] h = omega arith
length-concat (c ∷ cs) h = omega (arith, length-append c (concat cs), length-concat cs h.1, h.0)

-- A push appends one entry to the history.
pub serialize-push :
    (x : PostingIndex) (e : PostingEntry) → serialize (push x e) ≡ serialize x ++ (e ∷ [])
unfolding serialize push
serialize-push x e = elim (Bool-cases (length (x.tail ++ (e ∷ [])) == chunk_len)) [
  | inl eq ↦
      rw eq (rw (append-nil, concat-append) (sym (append_assoc (concat x.sealed) x.tail (e ∷ []))))
  | inr ne ↦ rw ne (sym (append_assoc (concat x.sealed) x.tail (e ∷ [])))
]

-- The length counts the entries.
pub len-serialize : (x : PostingIndex) → IsChunked x → len x ≡ length (serialize x)
unfolding len serialize
len-serialize x h =
    omega (arith, length-append (concat x.sealed) x.tail, length-concat x.sealed h.full)

get-concat :
    (cs : List (List PostingEntry)) (i : ℕ)
    → All IsFull cs
    → bind_option (get_elem? cs (i / chunk_len)) (λ c. get_elem? c (i % chunk_len))
      ≡ get_elem? (concat cs) i
get-concat [] i h = refl
get-concat (c ∷ cs) i h = elim (Bool-cases (ltb i chunk_len)) [
  | inl lt ↦
      let q : i / chunk_len ≡ 0 = ground arith in
      let r : i % chunk_len ≡ i = ground arith in
      rw (q, r) (ground (arith, get_elem?-append c (concat cs) i, h.0))
  | inr ge ↦
      let q : i / chunk_len ≡ suc ((i - chunk_len) / chunk_len) = ground arith in
      let r : i % chunk_len ≡ (i - chunk_len) % chunk_len = ground arith in
      rw (q, r)
        (ground (arith, get_elem?-append c (concat cs) i, h.0, get-concat cs (i - chunk_len) h.1))
]

-- `get` reads the entry at an index of the history, and nothing past its end.
pub get-serialize : (x : PostingIndex) (i : ℕ) → IsChunked x → get x i ≡ get_elem? (serialize x) i
unfolding get serialize
get-serialize x i h = ground (
  arith,
  get_elem?-append (concat x.sealed) x.tail i,
  length-concat x.sealed h.full,
  get-concat x.sealed i h.full,
)

chunks_from-drop :
    (cs : List (List PostingEntry)) (i : ℕ)
    → All IsFull cs
    → chunks_from (i % chunk_len) (drop (i / chunk_len) cs) ≡ drop i (concat cs)
chunks_from-drop [] i h = rw (drop_nil, drop_nil)
chunks_from-drop (c ∷ cs) i h = elim (Bool-cases (ltb i chunk_len)) [
  | inl lt ↦
      let q : i / chunk_len ≡ 0 = ground arith in
      let r : i % chunk_len ≡ i = ground arith in
      rw (q, r) (ground (arith, drop-append i c (concat cs), h.0))
  | inr ge ↦
      let q : i / chunk_len ≡ suc ((i - chunk_len) / chunk_len) = ground arith in
      let r : i % chunk_len ≡ (i - chunk_len) % chunk_len = ground arith in
      rw (q, r)
        (ground (
          arith,
          drop-append i c (concat cs),
          h.0,
          drop_all i c,
          chunks_from-drop cs (i - chunk_len) h.1,
        ))
]

drop-min : (n : ℕ) (xs : List PostingEntry) → drop (min n (length xs)) xs ≡ drop n xs
drop-min n xs = elim (Bool-cases (ltb n (length xs))) [
  | inl lt ↦ let m : min n (length xs) ≡ n = ground arith in rw m
  | inr ge ↦
      let m : min n (length xs) ≡ length xs = ground arith in
      rw m (drop_all (length xs) xs (omega arith) ∙ sym (drop_all n xs (ground arith)))
]

-- On a well-formed index (each sealed chunk is full, the open one is not), `iter_from` yields the history
-- from a position on.
pub iter_from-serialize :
    (x : PostingIndex) (i : ℕ) → IsChunked x → iter_from x i ≡ drop i (serialize x)
unfolding iter_from serialize
iter_from-serialize x i h = ground (
  arith,
  drop-min (i - length x.sealed * chunk_len) x.tail,
  drop-append i (concat x.sealed) x.tail,
  length-concat x.sealed h.full,
  chunks_from-drop x.sealed i h.full,
  drop_all i (concat x.sealed),
)
