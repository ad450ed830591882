-- ===== src/Sql.antt =====
-- analyzers/database/parser.py: the structured operations that the DDL of a migration stands for.
pub mod Text
pub mod Regex
pub mod Patterns
pub mod Alter
pub mod Statement
pub mod Splitting
pub mod Clauses
pub mod Traced
use Prim.Native.Char.{Char}
use db_platform.Base.{String, Bool}

-- What Python knows of the characters that are not ASCII: `isalnum` and `upper` of one.
pub record Unicode : Type 0 where
  pub is_alphanumeric : Char → Bool
  pub upper : Char → String
