-- ===== src/Sql/Splitting.antt =====
-- Where `_top_level_split` of analyzers/database/parser.py splits, against the clauses that were
-- joined.
use Prim.Native.Char.{Char}
use db_platform.Base.{
  ℕ, String, Bool, true, false, not, ◌&&◌, List, [], ◌∷◌, ◌≡◌, refl, arith, ap, ◌∙◌, eqb, All,
  Bool-cases, inl, inr,
}
use db_platform.Sql.Text.{
  ℤ, pos, negsuc, Scan, scan_start, is_bare, is_level, cuts, scan_char, next, put_char, parts_from,
}

-- Nothing in the text is split at, and it ends outside of quotes and parentheses.
unfoldable pub stands_alone : Char → Scan → String → Bool
unfolding cuts scan_char
stands_alone sep scan String.[] = is_bare scan && is_level scan.depth
stands_alone sep scan (String.◌∷◌ ch text) =
    not (cuts sep ch scan) && stands_alone sep (scan_char ch scan) text

-- `a + b`
unfoldable pub append : String → String → String
append String.[] t = t
append (String.◌∷◌ c s) t = String.◌∷◌ c (append s t)

-- `sep.join(clauses)`
unfoldable pub join : Char → List String → String
unfolding append
join sep [] = ""
join sep (clause ∷ []) = clause
join sep (clause ∷ next ∷ rest) = append clause (String.◌∷◌ sep (join sep (next ∷ rest)))

bare_parts :
    (single double : Bool) (depth : ℤ)
    → ((not single && not double) && is_level depth) ≡ true
    → record { in_single = single; in_double = double; depth = depth } ≡ scan_start
bare_parts true double depth h = cc
bare_parts false true depth h = cc
bare_parts false false (negsuc n) h = cc
bare_parts false false (pos n) h = rw (zero_of n h) refl
  where
    zero_of : (n : ℕ) → eqb n 0 ≡ true → n ≡ 0
    zero_of n h = ground arith

bare-scan_start : (scan : Scan) → (is_bare scan && is_level scan.depth) ≡ true → scan ≡ scan_start
bare-scan_start scan h = bare_parts scan.in_single scan.in_double scan.depth h

-- Nothing is split in the last clause.
parts_from-alone :
    (sep : Char) (scan : Scan) (clause : String)
    → stands_alone sep scan clause ≡ true
    → parts_from sep scan clause ≡ clause ∷ []
unfolding stands_alone parts_from put_char
parts_from-alone sep scan String.[] h = refl
parts_from-alone sep scan (String.◌∷◌ ch text) h = elim (Bool-cases (cuts sep ch scan)) [
  | inl c ↦ cc (rw c at h)
  | inr c ↦ rw (c, parts_from-alone sep (scan_char ch scan) text (rw c at h)) refl
]

parts_from-clause :
    (sep : Char) (scan : Scan) (clause rest : String)
    → cuts sep sep scan_start ≡ true
    → stands_alone sep scan clause ≡ true
    → parts_from sep scan (append clause (String.◌∷◌ sep rest))
      ≡ clause ∷ parts_from sep scan_start rest
unfolding stands_alone parts_from put_char append
parts_from-clause sep scan String.[] rest s h = rw (bare-scan_start scan h, s) refl
parts_from-clause sep scan (String.◌∷◌ ch text) rest s h = elim (Bool-cases (cuts sep ch scan)) [
  | inl c ↦ cc (rw c at h)
  | inr c ↦ rw (c, parts_from-clause sep (scan_char ch scan) text rest s (rw c at h)) refl
]

pub parts_from-join :
    (sep : Char) (clause : String) (clauses : List String)
    → cuts sep sep scan_start ≡ true
    → All (λ c. stands_alone sep scan_start c ≡ true) (clause ∷ clauses)
    → parts_from sep scan_start (join sep (clause ∷ clauses)) ≡ clause ∷ clauses
unfolding join
parts_from-join sep clause [] s h = parts_from-alone sep scan_start clause h.0
parts_from-join sep clause (next ∷ rest) s h =
    parts_from-clause sep scan_start clause (join sep (next ∷ rest)) s h.0
    ∙ ap (λ ps. clause ∷ ps) (parts_from-join sep next rest s h.1)
