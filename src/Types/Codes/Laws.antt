-- ===== src/Types/Codes/Laws.antt =====
-- The database codes read back, and nothing but a code is read.
use text.Mathlib.TextEquality.{eq_iff}
use talea.Prelude.{String, ◌≡◌, refl, ◌↔◌, some, arith}
use talea.Types.Codes.{Direction, debit, credit, direction_str, direction_from_db}
use talea.Types.Codes.{AccountKind, asset}
use talea.Types.Codes.{kind_str, kind_from_db}

-- A text is read as a direction exactly when it is the code of that direction.
pub direction-from_db_iff :
    (s : String) (d : Direction) → (direction_from_db s ≡ some d) ↔ (s ≡ direction_str d)
unfolding direction_from_db direction_str
direction-from_db_iff s debit =
    ((λ h. ground (arith, eq_iff s "D", eq_iff s "C")), (λ h. rw h refl))
direction-from_db_iff s credit =
    ((λ h. ground (arith, eq_iff s "D", eq_iff s "C")), (λ h. rw h refl))

kind-from_db-some : (s : String) (k : AccountKind) → kind_from_db s ≡ some k → s ≡ kind_str k
unfolding kind_from_db kind_str
kind-from_db-some s asset h = ground (
  arith,
  eq_iff s "asset",
  eq_iff s "liability",
  eq_iff s "income",
  eq_iff s "expense",
  eq_iff s "equity",
  eq_iff s "clearing",
)
kind-from_db-some s _ h = ground (
  arith,
  eq_iff s "asset",
  eq_iff s "liability",
  eq_iff s "income",
  eq_iff s "expense",
  eq_iff s "equity",
  eq_iff s "clearing",
)

kind-from_db-str : (k : AccountKind) → kind_from_db (kind_str k) ≡ some k
unfolding kind_from_db kind_str
kind-from_db-str asset = refl
kind-from_db-str _ = refl

-- A text is read as an account kind exactly when it is the code of that kind.
pub kind-from_db_iff : (s : String) (k : AccountKind) → (kind_from_db s ≡ some k) ↔ (s ≡ kind_str k)
kind-from_db_iff s k = (kind-from_db-some s k, λ h. rw h (kind-from_db-str k))
