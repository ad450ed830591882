-- ===== src/Sql/Text.antt =====
-- The helpers on text of analyzers/database/parser.py: `_unquote`, `_split_qualified` and
-- `_top_level_split`.
use Prim.Native.Char.{Char, code}
use db_platform.Base.{
  ℕ, zero, suc, String, Bool, true, false, not, ◌&&◌, ◌||◌, Option, none, some, List, [], ◌∷◌, ◌==◌,
  eqb, if◌then◌else◌, map, keep, concat,
}
use db_platform.Readiness.{strip}

-- `s.rstrip(c)` of one character
unfoldable pub strip_trailing : ℕ → String → String
strip_trailing n String.[] = ""
strip_trailing n (String.◌∷◌ c s) =
    let rest = strip_trailing n s in if eqb (code c) n && rest == "" then "" else String.◌∷◌ c rest

unfoldable pub starts_at : ℕ → String → Bool
starts_at n String.[] = false
starts_at n (String.◌∷◌ c _) = eqb (code c) n

-- The last character, where there is one.
unfoldable pub last_char : String → Option Char
last_char String.[] = none
last_char (String.◌∷◌ c s) = elim (last_char s) [ none ↦ some c | some d ↦ some d ]

unfoldable pub ends_at : ℕ → String → Bool
unfolding last_char
ends_at n s = elim (last_char s) [ none ↦ false | some c ↦ eqb (code c) n ]

unfoldable pub drop_first : String → String
drop_first String.[] = ""
drop_first (String.◌∷◌ _ s) = s

unfoldable pub drop_last : String → String
drop_last String.[] = ""
drop_last (String.◌∷◌ c s) = let rest = drop_last s in if s == "" then "" else String.◌∷◌ c rest

-- The code of `"`, which an escape writes.
abbrev pub double_quote : ℕ
double_quote = 34

-- `_unquote`; `ident[1:-1]` of a single `"` is empty
unfoldable pub unquote : String → String
unfolding strip starts_at ends_at drop_first drop_last
unquote raw =
    let ident = strip raw in
    if starts_at double_quote ident && ends_at double_quote ident
    then drop_last (drop_first ident)
    else ident

-- `s.partition(c)` of one character: what is before and after its first occurrence
unfoldable pub partition_at : ℕ → String → Option (String × String)
partition_at n String.[] = none
partition_at n (String.◌∷◌ c s) =
    let rest = partition_at n s in
    if eqb (code c) n
    then some ("", s)
    else elim rest [ none ↦ none | some (before, after) ↦ some (String.◌∷◌ c before, after) ]

-- `s.partition('"."')`
unfoldable pub partition_quoted : String → Option (String × String)
unfolding starts_at drop_first
partition_quoted String.[] = none
partition_quoted (String.◌∷◌ c s) =
    let rest = partition_quoted s in
    if eqb (code c) double_quote && starts_at b'.' s && starts_at double_quote (drop_first s)
    then some ("", drop_first (drop_first s))
    else elim rest [ none ↦ none | some (before, after) ↦ some (String.◌∷◌ c before, after) ]

unfoldable pub without_schema : String → String × String
unfolding unquote
without_schema text = ("public", unquote text)

-- `_split_qualified`, with the schema first
unfoldable pub split_qualified : String → String × String
unfolding strip strip_trailing partition_at partition_quoted unquote without_schema starts_at
split_qualified raw =
    let text = strip (strip_trailing b';' (strip raw)) in
    if starts_at double_quote text
    then elim (partition_quoted text) [
      | none ↦ without_schema text
      | some (schema, name) ↦
          (unquote (concat (schema ∷ "\"" ∷ [])), unquote (concat ("\"" ∷ name ∷ [])))
    ]
    else elim (partition_at b'.' text) [
      | none ↦ without_schema text
      | some (schema, name) ↦ (unquote schema, unquote name)
    ]

-- The depth of parentheses is an integer, below zero where more are closed than opened.
pub data ℤ : Type 0 where
  pos : ℕ → ℤ
  negsuc : ℕ → ℤ

unfoldable pub next : ℤ → ℤ
next (pos n) = pos (suc n)
next (negsuc zero) = pos 0
next (negsuc (suc n)) = negsuc n

unfoldable pub previous : ℤ → ℤ
previous (pos zero) = negsuc 0
previous (pos (suc n)) = pos n
previous (negsuc n) = negsuc (suc n)

abbrev pub is_level : ℤ → Bool
is_level (pos n) = eqb n 0
is_level (negsuc _) = false

-- `in_single`, `in_double` and `depth`
pub record Scan : Type 0 where
  pub in_single : Bool
  pub in_double : Bool
  pub depth : ℤ

abbrev pub scan_start : Scan
scan_start = record { in_single = false; in_double = false; depth = pos 0 }

abbrev pub is_bare : Scan → Bool
is_bare scan = not scan.in_single && not scan.in_double

-- The code of `'`.
abbrev pub single_quote : ℕ
single_quote = 39

-- Where the loop splits.
unfoldable pub cuts : Char → Char → Scan → Bool
cuts sep ch scan =
    is_bare scan
    && not (eqb (code ch) single_quote || eqb (code ch) double_quote)
    && not (eqb (code ch) b'(' || eqb (code ch) b')')
    && eqb (code ch) (code sep)
    && is_level scan.depth

-- What the loop keeps of a character that it does not split at.
unfoldable pub scan_char : Char → Scan → Scan
unfolding next previous
scan_char ch scan =
    let n = code ch in
    if not scan.in_double && eqb n single_quote && not scan.in_single
    then record (scan) { in_single = true }
    else if scan.in_single && eqb n single_quote
    then record (scan) { in_single = false }
    else if not scan.in_single && eqb n double_quote
    then record (scan) { in_double = not scan.in_double }
    else if is_bare scan && eqb n b'('
    then record (scan) { depth = next scan.depth }
    else if is_bare scan && eqb n b')'
    then record (scan) { depth = previous scan.depth }
    else scan

-- `current.append(ch)`, where `current` heads the parts
unfoldable pub put_char : Char → List String → List String
put_char ch [] = String.◌∷◌ ch "" ∷ []
put_char ch (part ∷ parts) = String.◌∷◌ ch part ∷ parts

-- The loop, from a place in the text on: the part that it is in, and the parts after it.
unfoldable pub parts_from : Char → Scan → String → List String
unfolding cuts scan_char put_char
parts_from sep scan String.[] = "" ∷ []
parts_from sep scan (String.◌∷◌ ch text) =
    let cut = cuts sep ch scan in
    let rest = parts_from sep (if cut then scan else scan_char ch scan) text in
    if cut then "" ∷ rest else put_char ch rest

-- `_top_level_split`
unfoldable pub top_level_split : Char → String → List String
unfolding parts_from strip
top_level_split sep text =
    map strip (keep (λ p. not (strip p == "")) (parts_from sep scan_start text))
