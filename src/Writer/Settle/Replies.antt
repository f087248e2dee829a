-- ===== src/Writer/Settle/Replies.antt =====
-- The answers to replies, as the staged events and the replies grow.
use talea.Prelude.{ℕ, ◌≡◌, ap, some}
use talea.Prelude.{List, [], ◌∷◌, ◌++◌, get_elem?}
use talea.Prelude.Eq.{string_eq}
use talea.Prelude.Seqs.{get_elem?-append_left}
use talea.Result.{bind_option-eq-some, some_inj}
use talea.Types.{}
use talea.Writer.Classify.{Staged, Reply}
use talea.Writer.Classify.{dup, dup_in_batch, reject, open_exists_ok, staged_reply}
use talea.Writer.Settle.{Answer, answer, answers}

pub answer-append :
    (staged : List Staged) (s : Staged) (r : Reply) {a : ℕ × Answer}
    → answer staged r ≡ some a
    → answer (staged ++ (s ∷ [])) r ≡ some a
unfolding answer
answer-append staged s (dup idx rec) h = h
answer-append staged s (reject idx e) h = h
answer-append staged s (open_exists_ok idx) h = h
answer-append staged s (dup_in_batch idx slot) h =
    let (t, e, f) = bind_option-eq-some (get_elem? staged slot) _ h in
    rw (get_elem?-append_left staged (s ∷ []) slot e) f
answer-append staged s (staged_reply slot) h =
    let (t, e, f) = bind_option-eq-some (get_elem? staged slot) _ h in
    rw (get_elem?-append_left staged (s ∷ []) slot e) f

pub answers-append :
    (staged : List Staged) (s : Staged) (rs : List Reply) {l : List (ℕ × Answer)}
    → answers staged rs ≡ some l
    → answers (staged ++ (s ∷ [])) rs ≡ some l
unfolding answers
answers-append staged s [] h = h
answers-append staged s (r ∷ rs) h =
    let (a, e, h') = bind_option-eq-some (answer staged r) _ h in
    let (rest, f, g) = bind_option-eq-some (answers staged rs) _ h' in
    rw (answer-append staged s r e, answers-append staged s rs f) g

pub answers-snoc :
    (staged : List Staged) (rs : List Reply) (r : Reply) {l : List (ℕ × Answer)} {a : ℕ × Answer}
    → answers staged rs ≡ some l
    → answer staged r ≡ some a
    → answers staged (rs ++ (r ∷ [])) ≡ some (l ++ (a ∷ []))
unfolding answers
answers-snoc staged [] r {a = a} h e = rw e (ap (λ l. some (l ++ (a ∷ []))) (some_inj h))
answers-snoc staged (x ∷ rs) r {a = a} h e =
    let (y, ey, h') = bind_option-eq-some (answer staged x) _ h in
    let (rest, f, g) = bind_option-eq-some (answers staged rs) _ h' in
    rw (ey, answers-snoc staged rs r f e) (ap (λ l. some (l ++ (a ∷ []))) (some_inj g))
