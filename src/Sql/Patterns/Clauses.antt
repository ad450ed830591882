-- ===== src/Sql/Patterns/Clauses.antt =====
-- The patterns of the clauses of ALTER TABLE, in analyzers/database/parser.py.
use db_platform.Base.{String, [], ◌∷◌}
use db_platform.Sql.Regex.{
  any_char, other_than, Regex, literal, one_of, end_of_text, ◌then◌, ◌or◌, many, group,
}
use db_platform.Sql.Patterns.{
  optional, some_of, few_of, spaces, may_space, words, phrase, in_parens, if_exists, if_not_exists,
  ident, dotted,
}

abbrev constraint_words : Regex
constraint_words =
    words ("NOT" ∷ "NULL" ∷ [])
    or literal "NULL"
    or phrase ("DEFAULT" ∷ []) then some_of any_char
    or words ("PRIMARY" ∷ "KEY" ∷ [])
    or literal "UNIQUE"
    or phrase ("REFERENCES" ∷ []) then some_of any_char
    or literal "CHECK" then may_space then in_parens (some_of any_char)

unfoldable pub add_column_pattern : Regex
unfolding ident
add_column_pattern =
    phrase ("ADD" ∷ [])
    then optional (phrase ("COLUMN" ∷ []))
    then if_not_exists
    then group "col" ident
    then spaces
    then group "type" (few_of (other_than b','))
    then group "constraints" (many (spaces then constraint_words))
    then may_space
    then end_of_text

unfoldable pub drop_column_pattern : Regex
unfolding ident
drop_column_pattern = phrase ("DROP" ∷ "COLUMN" ∷ []) then if_exists then group "col" ident

-- `^ALTER\s+(?:COLUMN\s+)?(?P<col>{_IDENT})\s+`
unfoldable pub alter_column : Regex
unfolding ident
alter_column =
    phrase ("ALTER" ∷ []) then optional (phrase ("COLUMN" ∷ [])) then group "col" ident then spaces

unfoldable pub alter_column_type_pattern : Regex
unfolding alter_column
alter_column_type_pattern =
    alter_column
    then optional (phrase ("SET" ∷ "DATA" ∷ []))
    then phrase ("TYPE" ∷ [])
    then group "type" (few_of any_char)
    then optional (spaces then phrase ("USING" ∷ []) then some_of any_char)
    then end_of_text

unfoldable pub set_not_null_pattern : Regex
unfolding alter_column
set_not_null_pattern = alter_column then words ("SET" ∷ "NOT" ∷ "NULL" ∷ []) then end_of_text

unfoldable pub drop_not_null_pattern : Regex
unfolding alter_column
drop_not_null_pattern = alter_column then words ("DROP" ∷ "NOT" ∷ "NULL" ∷ []) then end_of_text

unfoldable pub set_default_pattern : Regex
unfolding alter_column
set_default_pattern =
    alter_column
    then phrase ("SET" ∷ "DEFAULT" ∷ [])
    then group "default" (some_of any_char)
    then end_of_text

unfoldable pub drop_default_pattern : Regex
unfolding alter_column
drop_default_pattern = alter_column then words ("DROP" ∷ "DEFAULT" ∷ []) then end_of_text

unfoldable pub rename_column_pattern : Regex
unfolding ident
rename_column_pattern =
    phrase ("RENAME" ∷ "COLUMN" ∷ [])
    then group "old" ident
    then spaces
    then phrase ("TO" ∷ [])
    then group "new" ident
    then end_of_text

unfoldable pub rename_table_pattern : Regex
unfolding ident
rename_table_pattern = phrase ("RENAME" ∷ "TO" ∷ []) then group "new" ident then end_of_text

-- `\((?P<name>[^)]*)\)`
abbrev columns : String → Regex
columns name = in_parens (group name (many (one_of (other_than b')'))))

unfoldable pub add_foreign_key_pattern : Regex
unfolding ident dotted
add_foreign_key_pattern =
    phrase ("ADD" ∷ "CONSTRAINT" ∷ [])
    then group "name" ident
    then spaces
    then words ("FOREIGN" ∷ "KEY" ∷ [])
    then may_space
    then columns "cols"
    then may_space
    then phrase ("REFERENCES" ∷ [])
    then group "ref" dotted
    then may_space
    then columns "ref_cols"

unfoldable pub add_primary_key_pattern : Regex
unfolding ident
add_primary_key_pattern =
    phrase ("ADD" ∷ [])
    then optional (phrase ("CONSTRAINT" ∷ []) then group "name" ident then spaces)
    then words ("PRIMARY" ∷ "KEY" ∷ [])
    then may_space
    then columns "cols"

unfoldable pub add_constraint_pattern : Regex
unfolding ident
add_constraint_pattern =
    phrase ("ADD" ∷ "CONSTRAINT" ∷ [])
    then group "name" ident
    then spaces
    then group "def" (some_of any_char)
    then end_of_text

unfoldable pub drop_constraint_pattern : Regex
unfolding ident
drop_constraint_pattern = phrase ("DROP" ∷ "CONSTRAINT" ∷ []) then if_exists then group "name" ident

unfoldable pub attach_partition_pattern : Regex
unfolding dotted
attach_partition_pattern = phrase ("ATTACH" ∷ "PARTITION" ∷ []) then group "name" dotted

unfoldable pub detach_partition_pattern : Regex
unfolding dotted
detach_partition_pattern = phrase ("DETACH" ∷ "PARTITION" ∷ []) then group "name" dotted
