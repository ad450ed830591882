-- ===== src/Examples/Risks.antt =====
-- The assessment of an index build on the orders table of the example, under a small policy.
use mathlib.Core.Path.{subst}
use mathlib.Core.Option.{some-injective}
use db_platform.Base.{
  ◌≡◌, refl, some, none, List, [], ◌∷◌, ◌≤◌, arith, Has, true, false, keep, All, ◌↔◌,
}
use db_platform.Base.Frac.{Frac, whole, percent, round_frac, round_half_even}
use db_platform.Base.Number.{plus}
use db_platform.Base.Dict.{has}
use db_platform.Change.Kinds.{is_unknown}
use db_platform.Base.Result.{ok}
use db_platform.Change.{
  Change, ChangeType, ChangeSource, DatabaseChangeOperation, DatabaseOperation,
}
use db_platform.Risk.{FactorContext, RiskFactorType, factor_named, value_of}
use db_platform.Risk.Factors.{factor_functions, compute_factors}
use db_platform.Risk.Factors.Bounds.{
  IsWeighed, types_of, implemented_types, is_weighted, compute_factors_exact,
}
use db_platform.Risk.Weights.{
  RawPolicy, RiskWeightsPolicy, FactorSpec, load_policy, read_factors, add_spec, kept_weight,
  check_total, total_weight,
}
use db_platform.Risk.Weights.Loading.{IsLoaded, load_policy-IsLoaded}
use db_platform.Base.Frac.{IsUnit}
use db_platform.BlastRadius.{BlastRadius}
use db_platform.Metadata.{TableMetadata}
use db_platform.Risk.{target_tables}
use db_platform.Risk.Factors.Context.{compute_table_size}
use db_platform.Risk.Factors.Operations.{or_zero}
use db_platform.Risk.Factors.Size.{table_size_threshold}
use db_platform.Risk.Engine.{confidence_and_uncertainty, Uncertainty}
use db_platform.Base.Frac.{le_frac, ten_thousandths}
use db_platform.Risk.Engine.{overall_score}
use db_platform.Risk.Engine.Score.{overall_score_at_most_100}
use db_platform.Examples.Radius.{orders_radius}

abbrev pub operation : DatabaseOperation → DatabaseChangeOperation
operation kind = record {
  operation = kind;
  database = some "shop";
  schema = "public";
  table = some "orders";
  column = none;
  index = none;
  constraint = none;
  data_type = none;
  old_state = none;
  proposed_state = none;
  raw_sql = "";
}

abbrev pub build_index : List DatabaseChangeOperation
build_index = operation DatabaseOperation.add_column ∷ operation DatabaseOperation.create_index ∷ []

abbrev pub change : Change
change = record {
  change_type = ChangeType.database;
  source = ChangeSource.cli;
  title = "Index the orders";
  submitted_by = "dba";
  environment = "Production";
  raw_content = "";
  description = "";
  id = "chg-1";
  submitted_at = "2026-01-01T00:00:00Z";
  target_database = some "shop";
  operations = build_index;
  metadata = [];
}

abbrev pub context : FactorContext
context = record {
  change = change;
  operations = build_index;
  tables = [];
  blast_radius = some orders_radius;
  query_stats = [];
  historical_incidents = [];
}

abbrev spec : Frac → FactorSpec
spec w = record { weight = some (plus w); implemented = none }

abbrev raw_policy : RawPolicy
raw_policy = record {
  version = some "1.0";
  factors =
      ("lock_risk", spec (percent 60))
      ∷ ("criticality", spec (percent 40))
      ∷ ("test_coverage", record { weight = some (plus (percent 10)); implemented = some false })
      ∷ [];
  low_max = none;
  medium_max = none;
  high_max = none;
  min_confidence = none;
}

abbrev pub policy : RiskWeightsPolicy
policy = record {
  version = "1.0";
  weights = (RiskFactorType.lock_risk, percent 60) ∷ (RiskFactorType.criticality, percent 40) ∷ [];
  unimplemented = RiskFactorType.test_coverage ∷ [];
  low_max = plus (whole 24);
  medium_max = plus (whole 49);
  high_max = plus (whole 74);
  min_confidence_for_no_note = plus (percent 85);
}

policy_loads : load_policy raw_policy ≡ ok policy
unfolding load_policy read_factors add_spec kept_weight check_total total_weight factor_named
    value_of round_frac round_half_even
policy_loads = refl

load_policy-IsLoaded_example : IsLoaded raw_policy policy
load_policy-IsLoaded_example = load_policy-IsLoaded raw_policy policy policy_loads

compute_factors_exact_example :
    (types_of (compute_factors context policy.weights)
      ≡ keep (is_weighted policy.weights) (implemented_types factor_functions))
    × All (IsWeighed policy.weights) (compute_factors context policy.weights)
compute_factors_exact_example = compute_factors_exact context policy.weights

radius-IsUnit : (br : BlastRadius) → context.blast_radius ≡ some br → IsUnit br.confidence
radius-IsUnit br e =
    subst (λ (x : BlastRadius). IsUnit x.confidence) (some-injective _ _ e)
      (record { pos = omega arith; le_one = omega arith })

-- The same assessment with the metadata of the table, a certain graph and no factor left out.
abbrev known : FactorContext
known = record context {
  tables =
      (
        "public.orders",
        record {
          schema = "public";
          name = "orders";
          columns = [];
          indexes = [];
          constraints = [];
          foreign_keys = [];
          row_estimate = none;
          table_size_bytes = none;
          index_size_bytes = none;
          is_partitioned = false;
          partition_key = none;
        },
      )
      ∷ [];
  blast_radius = some (record orders_radius { confidence = whole 1 });
}

abbrev complete : RiskWeightsPolicy
complete = record policy { unimplemented = [] }

nothing_listed : (confidence_and_uncertainty complete known).uncertainty ≡ []
unfolding confidence_and_uncertainty has is_unknown
nothing_listed = refl

-- The first assessment has no metadata of its table, and leaves out one factor.
two_listed :
    (confidence_and_uncertainty policy context).uncertainty
    ≡ Uncertainty.no_metadata ("public.orders" ∷ [])
      ∷ Uncertainty.not_assessed RiskFactorType.test_coverage
      ∷ []
unfolding confidence_and_uncertainty has is_unknown
two_listed = refl

table_size_threshold_example : (75 ≤ (compute_table_size context (percent 10)).score) ↔ (
    (t : TableMetadata) × Has t (target_tables context)
    × (107374182400 ≤ or_zero t.table_size_bytes))
table_size_threshold_example = table_size_threshold context (percent 10)

overall_score_at_most_100_example :
    le_frac
      (overall_score (
        compute_factors context (
          (RiskFactorType.lock_risk, ten_thousandths 6000)
          ∷ (RiskFactorType.criticality, ten_thousandths 4000)
          ∷ [])))
      (whole 100)
    ≡ true
overall_score_at_most_100_example =
    overall_score_at_most_100 context
      ((RiskFactorType.lock_risk, ten_thousandths 6000)
        ∷ (RiskFactorType.criticality, ten_thousandths 4000)
        ∷ [])
      (refl, (refl, tt)) (omega arith)
