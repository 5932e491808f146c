-- ===== src/Strings.antt =====
-- `CStrings::EscapeString` of CStrings.cpp, and what undoes it. The C strings hold no NUL.
use epics_tcl.Prelude.{
  ◌≡◌, refl, ap, String, Bool, true, false, not, ◌&&◌, ◌||◌, Option, none, some, Bool-cases, inl,
  inr, nat_eq, nat_eq_iff, arith, if◌then◌else◌,
}
use Prim.Native.Char.{Char, code}
use text.Mathlib.TextEquality.{Char-path}
use epics_tcl.Channel.{Result, ok, throw}

-- `strchr(charset, c)`, as a test.
unfoldable pub strchr : String → Char → Bool
strchr String.[] c = false
strchr (String.◌∷◌ d s) c = nat_eq (code d) (code c) || strchr s c

-- The loop, for a prefix and perhaps a suffix.
unfoldable pub escape : Char → Option Char → String → String → String
unfolding strchr
escape before after charset String.[] = String.[]
escape before after charset (String.◌∷◌ c s) =
    let rest = escape before after charset s in
    if strchr charset c
    then String.◌∷◌ before (String.◌∷◌ c (elim after [ none ↦ rest | some a ↦ String.◌∷◌ a rest ]))
    else String.◌∷◌ c rest

-- `EscapeString(in, charset, how)`; characters of `how` after the second are not looked at.
unfoldable pub escape_string : String → String → String → Result String
unfolding escape
escape_string s charset String.[] = throw "CStrings::EscapeString - quoting string 0 characters"
escape_string s charset (String.◌∷◌ before String.[]) = ok (escape before none charset s)
escape_string s charset (String.◌∷◌ before (String.◌∷◌ after more)) =
    ok (escape before (some after) charset s)

-- The reading of a text in which `before` escapes the character after it; the flag tells whether
-- the character that comes is escaped.
unfoldable pub unescape : Char → Bool → String → String
unescape before escaped String.[] = String.[]
unescape before escaped (String.◌∷◌ c s) =
    let skipped = unescape before true s in
    let rest = unescape before false s in
    if not escaped && nat_eq (code c) (code before) then skipped else String.◌∷◌ c rest

unescape-escape :
    (before : Char) (charset s : String)
    → strchr charset before ≡ true
    → unescape before false (escape before none charset s) ≡ s
unfolding unescape escape
unescape-escape before charset String.[] h = refl
unescape-escape before charset (String.◌∷◌ c s) h = elim (Bool-cases (strchr charset c)) [
  | inl escaped ↦
      rw (escaped, (nat_eq_iff (code before) (code before)).1 refl)
        (ap (String.◌∷◌ c) (unescape-escape before charset s h))
  | inr plain ↦ elim (Bool-cases (nat_eq (code c) (code before))) [
    | inl same ↦
        let alike : c ≡ before = ground (arith, Char-path c before) in
        let clash : strchr charset c ≡ true = rw alike h in absurd (cc)
    | inr other ↦ rw (plain, other) (ap (String.◌∷◌ c) (unescape-escape before charset s h))
  ]
]

-- With one quoting character, that is itself to be escaped, the escaped text reads back as the text
-- that was given, for every set of characters and every text.
pub unescape-escape_string :
    (before : Char) (charset s : String)
    → strchr charset before ≡ true
    → (out : String) × (escape_string s charset (String.◌∷◌ before String.[]) ≡ ok out)
      × (unescape before false out ≡ s)
unfolding escape_string
unescape-escape_string before charset s h =
    (escape before none charset s, refl, unescape-escape before charset s h)
