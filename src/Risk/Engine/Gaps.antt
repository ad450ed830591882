-- ===== src/Risk/Engine/Gaps.antt =====
-- What `_confidence_and_uncertainty` of risk/engine.py lists, against what the assessment lacks.
use db_platform.Base.{
  String, ◌≡◌, true, false, none, some, List, [], ◌∷◌, ◌++◌, inl, Has, Has-append,
}
use db_platform.Base.Dict.{has}
use db_platform.Base.Number.{Number, plus, lt_number}
use db_platform.Change.{DatabaseChangeOperation, qualified_table}
use db_platform.BlastRadius.{BlastRadius}
use db_platform.Metadata.{TableMetadata}
use db_platform.Risk.{RiskFactorType, FactorContext}
use db_platform.Risk.Engine.{Doubt, Uncertainty, doubt_tables}
use db_platform.Risk.Weights.{RiskWeightsPolicy}

-- The table of an operation, if it has one, is among those with metadata.
abbrev pub IsKnown : List (String × TableMetadata) → DatabaseChangeOperation → Type 0
IsKnown tables op = (name : String) → qualified_table op ≡ some name → has name tables ≡ true

-- What each block keeps of the list, and what it adds to it.
kept : (x y : Uncertainty) (xs : List Uncertainty) → Has x xs → Has x (xs ++ y ∷ [])
kept x y xs h = (Has-append x xs (y ∷ [])).1 (inl h)

doubt_tables-kept :
    (x : Uncertainty) (missing : List String) (d : Doubt)
    → Has x d.uncertainty
    → Has x (doubt_tables missing d).uncertainty
unfolding doubt_tables
doubt_tables-kept x [] d h = h
doubt_tables-kept x (m ∷ missing) d h = kept x _ d.uncertainty h

-- A list of uncertainties has one for each gap of the assessment.
pub record ListsGaps (policy : RiskWeightsPolicy) (context : FactorContext)
    (listed : List Uncertainty) : Type 0 where
  pub tables_listed :
      (op : DatabaseChangeOperation) (name : String)
      → Has op context.operations
      → qualified_table op ≡ some name
      → has name context.tables ≡ false
      → (names : List String) × Has (Uncertainty.no_metadata names) listed × Has name names
  pub graph_listed : context.blast_radius ≡ none → Has Uncertainty.no_graph listed
  pub confidence_listed :
      (br : BlastRadius)
      → context.blast_radius ≡ some br
      → lt_number (plus br.confidence) policy.min_confidence_for_no_note ≡ true
      → Has (Uncertainty.graph_confidence br.confidence) listed
  pub factors_listed :
      (t : RiskFactorType) → Has t policy.unimplemented → Has (Uncertainty.not_assessed t) listed
