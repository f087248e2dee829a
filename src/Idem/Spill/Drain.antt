-- ===== src/Idem/Spill/Drain.antt =====
-- The drain takes pairs out of the memory, and the failed flush returns them: no key is lost on the way.
use talea.Prelude.{ℕ, zero, suc, ◌≡◌, refl, sym, ◌∙◌, ap, String, inl}
use talea.Prelude.{inr, Option, none, some, List, [], ◌∷◌, Bool-cases}
use talea.Prelude.{Option-cases, arith}
use talea.Prelude.Eq.{string_eq, ◌=?◌}
use talea.HashMap.{HashMap, get, remove, get-remove}
use talea.Result.{or_else}
use text.Mathlib.TextEquality.{eq_iff}
use talea.Idem.{CommittedRec}
use talea.Idem.Order.Search.{AllTrue, or_else-none}
use talea.Idem.Spill.{drain}
use talea.Idem.Spill.Index.{Known}

pub left_none : (o p : Option CommittedRec) → or_else o p ≡ none → o ≡ none
left_none none p e = refl
left_none (some r) p e = cc

removed :
    (k key : String) (hot : HashMap String CommittedRec) {r : CommittedRec}
    → get key (remove k hot) ≡ some r
    → get key hot ≡ some r
removed k key hot e = ground (arith, get-remove k key hot, e)

-- What each key had in the memory it has in what is left of it, or in what was taken.
pub get-drain :
    (n : ℕ) (order : List String) (hot : HashMap String CommittedRec) (key : String)
    → or_else (get key (drain n order hot).hot) (get key (drain n order hot).spilled) ≡ get key hot
unfolding drain get
get-drain zero order hot key = or_else-none (get key hot)
get-drain (suc n) [] hot key = or_else-none (get key hot)
get-drain (suc n) (k ∷ order) hot key = elim (Option-cases (get k hot)) [
  | inl absent ↦ rw (absent, drain) (get-drain n order hot key)
  | inr (rec, there) ↦
      let ih = get-drain n order (remove k hot) key in
      let g = get-remove k key hot in
      elim (Bool-cases (k =? key)) [
        | inl same ↦
            let e : k ≡ key = (eq_iff k key).0 same in
            let gone : get key (remove k hot) ≡ none = g ∙ rw same refl in
            let cold = left_none (get key (drain n order (remove k hot)).hot) _ (ih ∙ gone) in
            rw (there, drain, cold, get, same) (sym (ap (λ j. get j hot) (sym e) ∙ there))
        | inr other ↦ rw (there, drain, get, other) (ih ∙ g ∙ rw other refl)
      ]
]

-- What is left was there.
pub get-drain_hot :
    (n : ℕ) (order : List String) (hot : HashMap String CommittedRec) (key : String)
    {r : CommittedRec}
    → get key (drain n order hot).hot ≡ some r
    → get key hot ≡ some r
get-drain_hot n order hot key e = sym (sym (rw e refl) ∙ get-drain n order hot key)

pub drain-AllTrue :
    (known : Known) (n : ℕ) (order : List String) (hot : HashMap String CommittedRec)
    → ((key : String) (r : CommittedRec) → get key hot ≡ some r → known key ≡ some r)
    → AllTrue known (drain n order hot).spilled
unfolding drain
drain-AllTrue known zero order hot h = tt
drain-AllTrue known (suc n) [] hot h = tt
drain-AllTrue known (suc n) (k ∷ order) hot h = elim (Option-cases (get k hot)) [
  | inl absent ↦ rw (absent, drain) (drain-AllTrue known n order hot h)
  | inr (rec, there) ↦
      let left = λ (key : String) (r : CommittedRec) (e : get key (remove k hot) ≡ some r).
        h key r (removed k key hot e) in
      rw (there, drain) (h k rec there, drain-AllTrue known n order (remove k hot) left)
]
