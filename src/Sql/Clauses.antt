-- ===== src/Sql/Clauses.antt =====
-- Which texts `_top_level_split` of analyzers/database/parser.py takes for one clause, described by
-- their quotes and parentheses.
use Prim.Native.Char.{Char, code}
use db_platform.Base.{
  ℕ, suc, String, Bool, true, false, not, ◌&&◌, ◌||◌, List, [], ◌∷◌, ◌≡◌, refl, arith, ap, eqb, map,
  keep, All, ◌==◌, Bool-cases, inl, inr,
}
use db_platform.Readiness.{strip}
use db_platform.Sql.Text.{
  pos, Scan, scan_start, cuts, scan_char, next, previous, single_quote, double_quote,
  top_level_split,
}
use db_platform.Sql.Splitting.{stands_alone, append, join, parts_from-join}

-- A character that means nothing to the loop; the comma does not inside of parentheses.
abbrev pub is_plain : Bool → Char → Bool
is_plain inside c =
    let n = code c in
    not (eqb n single_quote || eqb n double_quote)
    && not (eqb n b'(' || eqb n b')')
    && (inside || not (eqb n b','))

unfoldable pub lacks : ℕ → String → Bool
lacks n String.[] = true
lacks n (String.◌∷◌ c s) = not (eqb (code c) n) && lacks n s

-- A text with its quotes and its parentheses closed, and, where it is not inside of parentheses, with
-- no comma outside of them.
pub data Nested : Bool → String → Type 0 where
  finished : (inside : Bool) → Nested inside ""
  plain :
      (inside : Bool) (c : Char) (s : String)
      → is_plain inside c ≡ true
      → Nested inside s
      → Nested inside (String.◌∷◌ c s)
  in_quotes :
      (inside : Bool) (body s : String)
      → lacks single_quote body ≡ true
      → Nested inside s
      → Nested inside (String.◌∷◌ "'" (append body (String.◌∷◌ "'" s)))
  in_double_quotes :
      (inside : Bool) (body s : String)
      → lacks double_quote body ≡ true
      → Nested inside s
      → Nested inside (String.◌∷◌ "\"" (append body (String.◌∷◌ "\"" s)))
  in_parens :
      (inside : Bool) (body s : String)
      → Nested true body
      → Nested inside s
      → Nested inside (String.◌∷◌ "(" (append body (String.◌∷◌ ")" s)))

abbrev bare : ℕ → Scan
bare n = record { in_single = false; in_double = false; depth = pos n }

-- The depths at which such a text can stand.
abbrev fits : Bool → ℕ → Bool
fits false n = eqb n 0
fits true n = not (eqb n 0)

append_assoc : (a b c : String) → append (append a b) c ≡ append a (append b c)
unfolding append
append_assoc String.[] b c = refl
append_assoc (String.◌∷◌ x a) b c = rw (append_assoc a b c) refl

quoted-stands_alone :
    (n : ℕ) (body rest : String)
    → lacks single_quote body ≡ true
    → stands_alone "," (bare n) rest ≡ true
    → stands_alone "," (record (bare n) { in_single = true }) (append body (String.◌∷◌ "'" rest))
      ≡ true
unfolding stands_alone append lacks cuts scan_char
quoted-stands_alone n String.[] rest h k = k
quoted-stands_alone n (String.◌∷◌ c body) rest h k = elim (Bool-cases (eqb (code c) single_quote)) [
  | inl e ↦ cc (rw (e, lacks) at h)
  | inr e ↦ rw (e, scan_char) (quoted-stands_alone n body rest (rw (e, lacks) at h) k)
]

double_quoted-stands_alone :
    (n : ℕ) (body rest : String)
    → lacks double_quote body ≡ true
    → stands_alone "," (bare n) rest ≡ true
    → stands_alone "," (record (bare n) { in_double = true }) (append body (String.◌∷◌ "\"" rest))
      ≡ true
unfolding stands_alone append lacks cuts scan_char
double_quoted-stands_alone n String.[] rest h k = k
double_quoted-stands_alone n (String.◌∷◌ c body) rest h k =
    elim (Bool-cases (eqb (code c) double_quote)) [
      | inl e ↦ cc (rw (e, lacks) at h)
      | inr e ↦ rw (e, scan_char) (double_quoted-stands_alone n body rest (rw (e, lacks) at h) k)
    ]

plain-cuts :
    (inside : Bool) (c : Char) (n : ℕ)
    → is_plain inside c ≡ true
    → fits inside n ≡ true
    → (cuts "," c (bare n) ≡ false) × (scan_char c (bare n) ≡ bare n)
unfolding cuts scan_char
plain-cuts true c n p f = ground arith
plain-cuts false c n p f = ground arith

Nested-stands_alone :
    (inside : Bool) (text : String) (n : ℕ) (rest : String)
    → Nested inside text
    → fits inside n ≡ true
    → stands_alone "," (bare n) rest ≡ true
    → stands_alone "," (bare n) (append text rest) ≡ true
unfolding stands_alone append cuts scan_char next previous
Nested-stands_alone inside _ n rest (finished _) f k = k
Nested-stands_alone inside _ n rest (plain _ c s p m) f k =
    let unread = plain-cuts inside c n p f in
    rw (unread.0, unread.1) (Nested-stands_alone inside s n rest m f k)
Nested-stands_alone inside _ n rest (in_quotes _ body s l m) f k =
    rw (append_assoc body (String.◌∷◌ "'" s) rest)
      (quoted-stands_alone n body (append s rest) l (Nested-stands_alone inside s n rest m f k))
Nested-stands_alone inside _ n rest (in_double_quotes _ body s l m) f k =
    rw (append_assoc body (String.◌∷◌ "\"" s) rest) (
      double_quoted-stands_alone n body (append s rest) l
        (Nested-stands_alone inside s n rest m f k))
Nested-stands_alone inside _ n rest (in_parens _ body s m m') f k =
    rw (append_assoc body (String.◌∷◌ ")" s) rest) (
      Nested-stands_alone true body (suc n) (append (String.◌∷◌ ")" s) rest) m (ground arith)
        (Nested-stands_alone inside s n rest m' f k))

append-empty : (s : String) → append s "" ≡ s
unfolding append
append-empty String.[] = refl
append-empty (String.◌∷◌ c s) = rw (append-empty s) refl

All-stands_alone :
    (clauses : List String)
    → All (λ c. Nested false c) clauses
    → All (λ c. stands_alone "," scan_start c ≡ true) clauses
unfolding stands_alone
All-stands_alone [] h = tt
All-stands_alone (clause ∷ clauses) h = (
  rw (append-empty clause) at (Nested-stands_alone false clause 0 "" h.0 refl refl),
  All-stands_alone clauses h.1,
)

-- Where every one of some clauses has its quotes and parentheses closed and no comma outside of them,
-- joining the clauses by commas and splitting the text gives the clauses back, stripped of the space
-- around them and without the blank ones.
pub top_level_split-join :
    (clause : String) (clauses : List String)
    → All (λ c. Nested false c) (clause ∷ clauses)
    → top_level_split "," (join "," (clause ∷ clauses))
      ≡ map strip (keep (λ c. not (strip c == "")) (clause ∷ clauses))
unfolding top_level_split
top_level_split-join clause clauses h =
    ap (λ ps. map strip (keep (λ c. not (strip c == "")) ps))
      (parts_from-join "," clause clauses refl (All-stands_alone (clause ∷ clauses) h))
