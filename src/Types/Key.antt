-- ===== src/Types/Key.antt =====
-- `AccountId` and its flat key `book:path` (talea-core/src/types/accounts.rs).
use Prim.Native.Char.{Char, code}
use Prim.Native.String.{◌++◌}
use text.Mathlib.TextLemmas.{nil-append, cons-append}
use talea.Prelude.{String, ◌≡◌, refl, ap, Bool, true, ◌||◌, arith, ◌==◌, if◌then◌else◌}
use talea.Prelude.{Bool-cases, inl, inr, ◌≢◌, sym}

pub record AccountId : Type 0 where
  pub book : String
  pub path : String

-- `:` and the backslash are what `to_key` escapes.
is_special : Char → Bool
is_special c = code c == b':' || code c == b'\\'

-- The loop over the characters of the book.
escape : String → String
escape String.[] = String.[]
escape (String.◌∷◌ c s) =
    if is_special c then String.◌∷◌ "\\" (String.◌∷◌ c (escape s)) else String.◌∷◌ c (escape s)

-- `AccountId::to_key`
unfoldable pub to_key : AccountId → String
unfolding escape is_special
to_key a = escape a.book ++ String.◌∷◌ ":" a.path

key_test : to_key (record { book = "a:b"; path = "c:d" }) ≡ "a\\:b:c:d"
unfolding to_key
key_test = refl

-- One step of the concatenation, on a character of the book.
escape-cons :
    (d : Char) (b r : String)
    → escape (String.◌∷◌ d b) ++ r ≡ (
        if is_special d
        then String.◌∷◌ "\\" (String.◌∷◌ d (escape b ++ r))
        else String.◌∷◌ d (escape b ++ r))
unfolding escape
escape-cons d b r = elim (Bool-cases (is_special d)) [
  | inl e ↦ rw (e, cons-append, cons-append)
  | inr e ↦ rw (e, cons-append)
]

colon_special : (d : Char) → ":" ≡ d → is_special d ≡ true
unfolding is_special
colon_special d h = rw (← h) refl

backslash_special : (d : Char) → "\\" ≡ d → is_special d ≡ true
unfolding is_special
backslash_special d h = rw (← h) refl

colon-ne-backslash : ◌≢◌ {A = Char} ":" "\\"
colon-ne-backslash h = absurd (omega (arith, ap code h))

-- The empty book ends at once, a book with a character does not.
nil-ne-cons :
    (d : Char) (c p q : String) → String.◌∷◌ ":" p ≢ escape (String.◌∷◌ d c) ++ String.◌∷◌ ":" q
nil-ne-cons d c p q h =
    ground (arith, escape-cons d c (String.◌∷◌ ":" q), colon_special d, colon-ne-backslash)

-- The first unescaped `:` ends the book, so both parts can be read back.
escape_inj :
    (b c p q : String)
    → escape b ++ String.◌∷◌ ":" p ≡ escape c ++ String.◌∷◌ ":" q
    → (b ≡ c) × (p ≡ q)
unfolding escape
escape_inj String.[] String.[] p q h =
    ground (arith, nil-append (String.◌∷◌ ":" p), nil-append (String.◌∷◌ ":" q))
escape_inj String.[] (String.◌∷◌ d c) p q h = absurd (nil-ne-cons d c p q (rw nil-append at h))
escape_inj (String.◌∷◌ d b) String.[] p q h =
    absurd (nil-ne-cons d b q p (rw nil-append at (sym h)))
escape_inj (String.◌∷◌ d b) (String.◌∷◌ e c) p q h = ground (
  arith,
  escape-cons d b (String.◌∷◌ ":" p),
  escape-cons e c (String.◌∷◌ ":" q),
  escape_inj b c p q,
  backslash_special d,
  backslash_special e,
)

-- `to_key` gives two accounts the same key only if they are the same account.
pub to_key_injective : (a b : AccountId) → to_key a ≡ to_key b → a ≡ b
unfolding to_key
to_key_injective a b h =
    let e = escape_inj a.book b.book a.path b.path h in λ i. record { book = e.0 i; path = e.1 i }
