-- ===== src/Change/Kinds.antt =====
-- The sets of operations that risk/factors.py and risk/recommendations.py test for, and the
-- comparison of operations by which Python's sets of them are counted.
use db_platform.Base.{
  ℕ, ◌≡◌, refl, sym, ap, ◌∙◌, Bool, true, false, eqb, ◌↔◌, arith, ◌||◌, if◌then◌else◌, List, [],
  ◌∷◌,
}
use db_platform.Change.{DatabaseOperation}

-- The place in the enumeration, for the comparison of operations.
unfoldable pub place : DatabaseOperation → ℕ
place DatabaseOperation.create_table = 0
place DatabaseOperation.alter_table = 1
place DatabaseOperation.drop_table = 2
place DatabaseOperation.rename_table = 3
place DatabaseOperation.add_column = 4
place DatabaseOperation.drop_column = 5
place DatabaseOperation.alter_column_type = 6
place DatabaseOperation.rename_column = 7
place DatabaseOperation.set_column_default = 8
place DatabaseOperation.drop_column_default = 9
place DatabaseOperation.set_column_not_null = 10
place DatabaseOperation.drop_column_not_null = 11
place DatabaseOperation.create_index = 12
place DatabaseOperation.create_index_concurrently = 13
place DatabaseOperation.drop_index = 14
place DatabaseOperation.add_constraint = 15
place DatabaseOperation.drop_constraint = 16
place DatabaseOperation.add_foreign_key = 17
place DatabaseOperation.add_primary_key = 18
place DatabaseOperation.create_view = 19
place DatabaseOperation.drop_view = 20
place DatabaseOperation.alter_view = 21
place DatabaseOperation.create_function = 22
place DatabaseOperation.drop_function = 23
place DatabaseOperation.alter_function = 24
place DatabaseOperation.attach_partition = 25
place DatabaseOperation.detach_partition = 26
place DatabaseOperation.unknown = 27

unfoldable pub same_operation : DatabaseOperation → DatabaseOperation → Bool
unfolding place
same_operation a b = eqb (place a) (place b)

at_place : ℕ → DatabaseOperation
at_place n =
    if eqb n 0
    then DatabaseOperation.create_table
    else if eqb n 1
    then DatabaseOperation.alter_table
    else if eqb n 2
    then DatabaseOperation.drop_table
    else if eqb n 3
    then DatabaseOperation.rename_table
    else if eqb n 4
    then DatabaseOperation.add_column
    else if eqb n 5
    then DatabaseOperation.drop_column
    else if eqb n 6
    then DatabaseOperation.alter_column_type
    else if eqb n 7
    then DatabaseOperation.rename_column
    else if eqb n 8
    then DatabaseOperation.set_column_default
    else if eqb n 9
    then DatabaseOperation.drop_column_default
    else if eqb n 10
    then DatabaseOperation.set_column_not_null
    else if eqb n 11
    then DatabaseOperation.drop_column_not_null
    else if eqb n 12
    then DatabaseOperation.create_index
    else if eqb n 13
    then DatabaseOperation.create_index_concurrently
    else if eqb n 14
    then DatabaseOperation.drop_index
    else if eqb n 15
    then DatabaseOperation.add_constraint
    else if eqb n 16
    then DatabaseOperation.drop_constraint
    else if eqb n 17
    then DatabaseOperation.add_foreign_key
    else if eqb n 18
    then DatabaseOperation.add_primary_key
    else if eqb n 19
    then DatabaseOperation.create_view
    else if eqb n 20
    then DatabaseOperation.drop_view
    else if eqb n 21
    then DatabaseOperation.alter_view
    else if eqb n 22
    then DatabaseOperation.create_function
    else if eqb n 23
    then DatabaseOperation.drop_function
    else if eqb n 24
    then DatabaseOperation.alter_function
    else if eqb n 25
    then DatabaseOperation.attach_partition
    else if eqb n 26
    then DatabaseOperation.detach_partition
    else DatabaseOperation.unknown

at_place-place : (a : DatabaseOperation) → at_place (place a) ≡ a
unfolding place at_place
at_place-place DatabaseOperation.create_table = refl
at_place-place DatabaseOperation.alter_table = refl
at_place-place DatabaseOperation.drop_table = refl
at_place-place DatabaseOperation.rename_table = refl
at_place-place DatabaseOperation.add_column = refl
at_place-place DatabaseOperation.drop_column = refl
at_place-place DatabaseOperation.alter_column_type = refl
at_place-place DatabaseOperation.rename_column = refl
at_place-place DatabaseOperation.set_column_default = refl
at_place-place DatabaseOperation.drop_column_default = refl
at_place-place DatabaseOperation.set_column_not_null = refl
at_place-place DatabaseOperation.drop_column_not_null = refl
at_place-place DatabaseOperation.create_index = refl
at_place-place DatabaseOperation.create_index_concurrently = refl
at_place-place DatabaseOperation.drop_index = refl
at_place-place DatabaseOperation.add_constraint = refl
at_place-place DatabaseOperation.drop_constraint = refl
at_place-place DatabaseOperation.add_foreign_key = refl
at_place-place DatabaseOperation.add_primary_key = refl
at_place-place DatabaseOperation.create_view = refl
at_place-place DatabaseOperation.drop_view = refl
at_place-place DatabaseOperation.alter_view = refl
at_place-place DatabaseOperation.create_function = refl
at_place-place DatabaseOperation.drop_function = refl
at_place-place DatabaseOperation.alter_function = refl
at_place-place DatabaseOperation.attach_partition = refl
at_place-place DatabaseOperation.detach_partition = refl
at_place-place DatabaseOperation.unknown = refl

pub same_operation_iff : (a b : DatabaseOperation) → (same_operation a b ≡ true) ↔ (a ≡ b)
unfolding same_operation
same_operation_iff a b = (
  λ h.
      let places : place a ≡ place b = ground arith in
      sym (at_place-place a) ∙ ap at_place places ∙ at_place-place b,
  λ e. rw e (ground arith),
)

-- `_BREAKING_HARD`
unfoldable pub is_breaking_hard : DatabaseOperation → Bool
is_breaking_hard DatabaseOperation.drop_table = true
is_breaking_hard DatabaseOperation.drop_column = true
is_breaking_hard DatabaseOperation.alter_column_type = true
is_breaking_hard DatabaseOperation.rename_column = true
is_breaking_hard DatabaseOperation.rename_table = true
is_breaking_hard DatabaseOperation.drop_view = true
is_breaking_hard DatabaseOperation.drop_function = true
is_breaking_hard _ = false

-- `_BREAKING_SOFT`
unfoldable pub is_breaking_soft : DatabaseOperation → Bool
is_breaking_soft DatabaseOperation.set_column_not_null = true
is_breaking_soft DatabaseOperation.drop_constraint = true
is_breaking_soft DatabaseOperation.drop_index = true
is_breaking_soft DatabaseOperation.detach_partition = true
is_breaking_soft _ = false

-- The keys of `_HARD_TO_ROLL_BACK`
unfoldable pub is_hard_to_roll_back : DatabaseOperation → Bool
is_hard_to_roll_back DatabaseOperation.drop_table = true
is_hard_to_roll_back DatabaseOperation.drop_column = true
is_hard_to_roll_back DatabaseOperation.alter_column_type = true
is_hard_to_roll_back DatabaseOperation.drop_constraint = true
is_hard_to_roll_back DatabaseOperation.drop_index = true
is_hard_to_roll_back _ = false

-- `_EASY_TO_ROLL_BACK`
unfoldable pub is_easy_to_roll_back : DatabaseOperation → Bool
is_easy_to_roll_back DatabaseOperation.add_column = true
is_easy_to_roll_back DatabaseOperation.create_table = true
is_easy_to_roll_back DatabaseOperation.create_index = true
is_easy_to_roll_back DatabaseOperation.create_index_concurrently = true
is_easy_to_roll_back DatabaseOperation.create_view = true
is_easy_to_roll_back DatabaseOperation.create_function = true
is_easy_to_roll_back DatabaseOperation.set_column_default = true
is_easy_to_roll_back DatabaseOperation.drop_column_default = true
is_easy_to_roll_back DatabaseOperation.drop_column_not_null = true
is_easy_to_roll_back _ = false

-- The operations that `compute_index_impact` looks at
unfoldable pub is_index_operation : DatabaseOperation → Bool
is_index_operation DatabaseOperation.create_index = true
is_index_operation DatabaseOperation.create_index_concurrently = true
is_index_operation DatabaseOperation.drop_index = true
is_index_operation _ = false

-- `rewrite_ops` of `compute_query_impact`
unfoldable pub is_rewrite : DatabaseOperation → Bool
is_rewrite DatabaseOperation.alter_column_type = true
is_rewrite DatabaseOperation.set_column_not_null = true
is_rewrite DatabaseOperation.add_primary_key = true
is_rewrite DatabaseOperation.add_foreign_key = true
is_rewrite DatabaseOperation.add_constraint = true
is_rewrite _ = false

-- `_NON_CONCURRENT_INDEX_OPS`
unfoldable pub is_create_index : DatabaseOperation → Bool
is_create_index DatabaseOperation.create_index = true
is_create_index _ = false

-- `op.operation is DatabaseOperation.UNKNOWN`
unfoldable pub is_unknown : DatabaseOperation → Bool
is_unknown DatabaseOperation.unknown = true
is_unknown _ = false

unfoldable pub contains : DatabaseOperation → List DatabaseOperation → Bool
unfolding same_operation
contains a [] = false
contains a (b ∷ bs) = same_operation a b || contains a bs

-- The members of a Python set of operations, in the order of their last occurrence.
unfoldable pub distinct : List DatabaseOperation → List DatabaseOperation
unfolding contains
distinct [] = []
distinct (a ∷ as_list) =
    let rest = distinct as_list in if contains a as_list then rest else a ∷ rest
