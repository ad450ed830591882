-- ===== src/Sql/Patterns.antt =====
-- The patterns of analyzers/database/parser.py, as data. Every one of them is tried from the start of
-- the text, where its `^` holds.
pub mod Clauses
use db_platform.Base.{String, List, [], ◌∷◌}
use db_platform.Sql.Regex.{
  CharSet, space, word_char, ident_start, ident_char, any_char, other_than, Regex, literal, one_of,
  nothing, end_of_text, word_boundary, ◌then◌, ◌or◌, many, few, group,
}
use db_platform.Sql.Text.{double_quote}

-- `r?`
abbrev pub optional : Regex → Regex
optional r = r or nothing

-- `r+`
abbrev pub some_of : CharSet → Regex
some_of set = one_of set then many (one_of set)

-- `r+?`
abbrev pub few_of : CharSet → Regex
few_of set = one_of set then few (one_of set)

abbrev pub spaces : Regex
spaces = some_of space

abbrev pub may_space : Regex
may_space = many (one_of space)

-- Words with `\s+` between them, and with `\s+` after each.
abbrev pub words : List String → Regex
words [] = nothing
words (w ∷ []) = literal w
words (w ∷ v ∷ rest) = literal w then spaces then words (v ∷ rest)

abbrev pub phrase : List String → Regex
phrase [] = nothing
phrase (w ∷ rest) = literal w then spaces then phrase rest

-- `_IDENT`
unfoldable pub ident : Regex
ident =
    (literal "\"" then some_of (other_than double_quote) then literal "\"")
    or (one_of ident_start then many (one_of ident_char))

-- `{_IDENT}(?:\.{_IDENT})?`
unfoldable pub dotted : Regex
unfolding ident
dotted = ident then optional (literal "." then ident)

abbrev pub in_parens : Regex → Regex
in_parens r = literal "(" then r then literal ")"

abbrev pub if_exists : Regex
if_exists = optional (phrase ("IF" ∷ "EXISTS" ∷ []))

abbrev pub if_not_exists : Regex
if_not_exists = optional (phrase ("IF" ∷ "NOT" ∷ "EXISTS" ∷ []))

unfoldable pub create_table_pattern : Regex
unfolding dotted
create_table_pattern =
    phrase ("CREATE" ∷ [])
    then optional
        (phrase ("UNLOGGED" ∷ []) or literal "TEMP" then optional (literal "ORARY") then spaces)
    then phrase ("TABLE" ∷ [])
    then if_not_exists
    then group "table" dotted
    then may_space
    then in_parens (group "body" (many (one_of any_char)))
    then may_space
    then optional (phrase ("PARTITION" ∷ "BY" ∷ []) then group "partition_by" (some_of any_char))
    then end_of_text

unfoldable pub drop_table_pattern : Regex
drop_table_pattern =
    phrase ("DROP" ∷ "TABLE" ∷ [])
    then if_exists
    then group "names" (few_of any_char)
    then optional (spaces then (literal "CASCADE" or literal "RESTRICT"))
    then end_of_text

unfoldable pub alter_table_pattern : Regex
unfolding dotted
alter_table_pattern =
    phrase ("ALTER" ∷ "TABLE" ∷ [])
    then if_exists
    then optional (phrase ("ONLY" ∷ []))
    then group "table" dotted
    then spaces
    then group "actions" (some_of any_char)
    then end_of_text

unfoldable pub create_index_pattern : Regex
unfolding ident dotted
create_index_pattern =
    phrase ("CREATE" ∷ [])
    then optional (group "unique" (phrase ("UNIQUE" ∷ [])))
    then phrase ("INDEX" ∷ [])
    then optional (group "concurrently" (phrase ("CONCURRENTLY" ∷ [])))
    then if_not_exists
    then optional (group "index" ident)
    then may_space
    then phrase ("ON" ∷ [])
    then optional (phrase ("ONLY" ∷ []))
    then group "table" dotted
    then may_space
    then optional (phrase ("USING" ∷ []) then some_of word_char then may_space)
    then in_parens (group "cols" (few (one_of any_char)))

unfoldable pub drop_index_pattern : Regex
unfolding dotted
drop_index_pattern =
    phrase ("DROP" ∷ "INDEX" ∷ [])
    then optional (group "concurrently" (phrase ("CONCURRENTLY" ∷ [])))
    then if_exists
    then group "index" dotted

unfoldable pub create_view_pattern : Regex
unfolding dotted
create_view_pattern =
    phrase ("CREATE" ∷ [])
    then optional (phrase ("OR" ∷ "REPLACE" ∷ []))
    then optional (group "matview" (phrase ("MATERIALIZED" ∷ [])))
    then phrase ("VIEW" ∷ [])
    then group "view" dotted
    then one_of space
    then few (one_of any_char)
    then word_boundary
    then literal "AS"
    then word_boundary
    then spaces
    then group "query" (many (one_of any_char))
    then end_of_text

unfoldable pub drop_view_pattern : Regex
unfolding dotted
drop_view_pattern =
    phrase ("DROP" ∷ [])
    then optional (group "matview" (phrase ("MATERIALIZED" ∷ [])))
    then phrase ("VIEW" ∷ [])
    then if_exists
    then group "view" dotted

unfoldable pub create_function_pattern : Regex
unfolding dotted
create_function_pattern =
    phrase ("CREATE" ∷ [])
    then optional (phrase ("OR" ∷ "REPLACE" ∷ []))
    then phrase ("FUNCTION" ∷ [])
    then group "name" dotted
    then may_space
    then literal "("

unfoldable pub drop_function_pattern : Regex
unfolding dotted
drop_function_pattern = phrase ("DROP" ∷ "FUNCTION" ∷ []) then if_exists then group "name" dotted

unfoldable pub alter_function_pattern : Regex
unfolding dotted
alter_function_pattern = phrase ("ALTER" ∷ "FUNCTION" ∷ []) then group "name" dotted
