-- ===== src/Sql/Regex.antt =====
-- The matching of a regular expression by Python's `re`, as the language defines it for the constructs
-- and the flags, IGNORECASE and DOTALL, that analyzers/database/parser.py uses: a backtracking search
-- that tries the alternatives in order. Last, the choice by the first pattern that matches.
use Prim.Native.Char.{Char, code}
use db_platform.Base.{
  ℕ, zero, suc, ◌-◌, String, Bool, true, false, not, ◌&&◌, ◌||◌, Option, none, some, List, [], ◌∷◌,
  ◌==◌, leb, eqb, if◌then◌else◌,
}
use db_platform.Base.Dict.{get}
use db_platform.Change.{lower_code}
use db_platform.Readiness.{is_space}
use db_platform.RiskPolicy.Operators.{count_chars}
use db_platform.Sql.{Unicode}

-- A set of characters: `\s`, `\w`, `[A-Za-z_]`, `[A-Za-z0-9_$]`, `.`, and `[^c]`.
pub data CharSet : Type 0 where
  space word_char ident_start ident_char any_char : CharSet
  other_than : ℕ → CharSet

pub data Regex : Type 0 where
  literal : String → Regex
  one_of : CharSet → Regex
  nothing end_of_text word_boundary : Regex
  ◌then◌ : Regex → Regex → Regex
  ◌or◌ : Regex → Regex → Regex
  many few : Regex → Regex
  group : String → Regex → Regex

infixr 4 ◌then◌
infixr 3 ◌or◌
-- Where a match is: the character before it, what is left, and the groups that were closed, the
-- latest one first.
pub record Place : Type 0 where
  pub before : Option Char
  pub rest : String
  pub groups : List (String × String)

-- The lower-case character that IGNORECASE compares: `İ`, `ı`, `ſ` and the Kelvin sign stand for
-- ASCII letters.
unfoldable pub fold_case : ℕ → ℕ
fold_case n =
    if eqb n 304 || eqb n 305
    then 105
    else if eqb n 383
    then 115
    else if eqb n 8490
    then 107
    else lower_code n

abbrev is_letter : ℕ → Bool
is_letter n = let m = fold_case n in leb b'a' m && leb m b'z'

abbrev is_digit : ℕ → Bool
is_digit n = leb b'0' n && leb n b'9'

abbrev is_ascii : ℕ → Bool
is_ascii n = leb n 127

-- `\w`
unfoldable pub is_word_char : Unicode → Char → Bool
unfolding fold_case
is_word_char unicode c =
    let n = code c in
    eqb n b'_' || (if is_ascii n then is_letter n || is_digit n else unicode.is_alphanumeric c)

unfoldable pub is_in_set : Unicode → CharSet → Char → Bool
unfolding fold_case is_word_char is_space
is_in_set unicode space c = is_space c
is_in_set unicode word_char c = is_word_char unicode c
is_in_set unicode ident_start c = is_letter (code c) || eqb (code c) b'_'
is_in_set unicode ident_char c =
    is_letter (code c) || is_digit (code c) || eqb (code c) b'_' || eqb (code c) b'$'
is_in_set unicode any_char c = true
is_in_set unicode (other_than n) c = not (eqb (code c) n)

-- The place after one character, where it passes the test.
unfoldable pub advance : (Char → Bool) → Place → Option Place
advance p place = elim place.rest [
  | String.[] ↦ none
  | String.◌∷◌ c s ↦ if p c then some (record (place) { before = some c; rest = s }) else none
]

unfoldable pub advance_literal : String → Place → Option Place
unfolding advance fold_case
advance_literal String.[] place = some place
advance_literal (String.◌∷◌ c s) place =
    elim (advance (λ d. eqb (fold_case (code d)) (fold_case (code c))) place) [
      | none ↦ none
      | some next ↦ advance_literal s next
    ]

-- `$` also stands before a newline that ends the text.
unfoldable pub is_at_end : String → Bool
is_at_end String.[] = true
is_at_end (String.◌∷◌ c s) = eqb (code c) 10 && s == ""

unfoldable pub is_word_start : Unicode → String → Bool
unfolding is_word_char
is_word_start unicode String.[] = false
is_word_start unicode (String.◌∷◌ c _) = is_word_char unicode c

unfoldable pub is_at_boundary : Unicode → Place → Bool
unfolding is_word_char is_word_start
is_at_boundary unicode place =
    let right = is_word_start unicode place.rest in
    elim place.before [
      | none ↦ right
      | some c ↦ if is_word_char unicode c then not right else right
    ]

-- The rest of the search, from a place on.
abbrev pub Next : Type 0
Next = Place → Option Place

abbrev pub RegexSearch : Type 0
RegexSearch = Place → Next → Option Place

-- The greedy repetition of a search. Every body that is repeated takes a character or more, so that as
-- many rounds as there are characters left are enough.
unfoldable pub repeat_many : RegexSearch → ℕ → RegexSearch
repeat_many body zero place k = k place
repeat_many body (suc n) place k = elim (body place (λ next. repeat_many body n next k)) [
  | some end ↦ some end
  | none ↦ k place
]

-- The lazy repetition.
unfoldable pub repeat_few : RegexSearch → ℕ → RegexSearch
repeat_few body zero place k = k place
repeat_few body (suc n) place k = elim (k place) [
  | some end ↦ some end
  | none ↦ body place (λ next. repeat_few body n next k)
]

-- The first `n` characters.
unfoldable pub take_chars : ℕ → String → String
take_chars zero s = ""
take_chars (suc n) String.[] = ""
take_chars (suc n) (String.◌∷◌ c s) = String.◌∷◌ c (take_chars n s)

-- The group `name` is the text from one place to another.
unfoldable pub close_group : String → String → Place → Place
unfolding take_chars count_chars
close_group name from place = record (place) {
  groups = (name, take_chars (count_chars from - count_chars place.rest) from) ∷ place.groups;
}

unfoldable pub search : Unicode → Regex → RegexSearch
unfolding is_in_set advance advance_literal is_at_end is_at_boundary repeat_many repeat_few
    close_group
search u (literal s) place k = elim (advance_literal s place) [ none ↦ none | some next ↦ k next ]
search u (one_of set) place k = elim (advance (is_in_set u set) place) [
  | none ↦ none
  | some next ↦ k next
]
search u nothing place k = k place
search u end_of_text place k = if is_at_end place.rest then k place else none
search u word_boundary place k = if is_at_boundary u place then k place else none
search u (r then s) place k = search u r place (λ next. search u s next k)
search u (r or s) place k = elim (search u r place k) [
  | some end ↦ some end
  | none ↦ search u s place k
]
search u (many r) place k = repeat_many (search u r) (count_chars place.rest) place k
search u (few r) place k = repeat_few (search u r) (count_chars place.rest) place k
search u (group name r) place k = search u r place (λ next. k (close_group name place.rest next))

-- `pattern.match(text)`: the groups of the first match that starts where the text does.
unfoldable pub match : Unicode → Regex → String → Option (List (String × String))
unfolding search
match u pattern text =
    elim (search u pattern (record { before = none; rest = text; groups = [] }) some) [
      | none ↦ none
      | some end ↦ some end.groups
    ]

-- `m.group(name)` of a group that every match has
unfoldable pub group_of : String → List (String × String) → String
group_of name groups = elim (get name groups) [ none ↦ "" | some text ↦ text ]

-- A pattern with what is made of its groups, and the first of a list that matches.
abbrev pub Attempt : Type 0 → Type 0
Attempt A = Regex × (List (String × String) → A)

unfoldable pub first_match : {A : Type 0} → Unicode → List (Attempt A) → String → Option A
unfolding match
first_match u [] text = none
first_match u ((pattern, make) ∷ attempts) text = elim (match u pattern text) [
  | none ↦ first_match u attempts text
  | some groups ↦ some (make groups)
]
