-- ===== src/Policy/Loading.antt =====
-- `PolicyEngine.load` and `rules_for` of policy/engine.py of src/dbre_platform. The reading of a YAML
-- file is an argument; a directory is the list of its file names, as `sorted` puts them.
use db_platform.Base.{
  String, Bool, true, false, Option, none, some, List, [], ◌∷◌, ◌++◌, ◌==◌, if◌then◌else◌,
}
use db_platform.Base.Dict.{get, put}
use db_platform.Base.Result.{Result, ok, err}
use db_platform.Request.{DatabaseRequest, environment_name}
use db_platform.Request.Document.{model_dump}
use db_platform.RiskPolicy.Operators.{Matcher}
use db_platform.Policy.{PolicyRule, PolicyResult, RuleError}
use db_platform.Policy.Engine.{evaluate_document}

-- A mapping that a policy file has, with the keys that the engine reads.
pub record PolicyDocument : Type 0 where
  pub environment : Option String
  pub rules : List PolicyRule

-- ConfigurationError: no directory, or a file that is no YAML or no mapping.
pub data PolicyLoadError : Type 0 where
  no_directory : PolicyLoadError
  invalid_file : String → PolicyLoadError

-- Names without the `.yaml` of the files; `environments` is empty where that directory is missing.
pub record PolicyDirectory : Type 0 where
  pub files : List String
  pub environments : List String

pub record PolicyEngine : Type 0 where
  pub global_rules : List PolicyRule
  pub env_rules : List (String × List PolicyRule)
  pub loaded : Bool

abbrev pub new_engine : PolicyEngine
new_engine = record { global_rules = []; env_rules = []; loaded = false }

abbrev pub Reader : Type 0
Reader = String → Result PolicyLoadError PolicyDocument

-- The first loop of `load`: the engine after it, and what it raised.
unfoldable pub load_global :
    Reader → List String → PolicyEngine → PolicyEngine × Option PolicyLoadError
load_global read [] engine = (engine, none)
load_global read (path ∷ paths) engine = elim (read path) [
  | err e ↦ (engine, some e)
  | ok document ↦
      load_global read paths
        (record engine { global_rules = engine.global_rules ++ document.rules })
]

-- `document.get("environment") or path.stem`
unfoldable pub environment_of : String → PolicyDocument → String
environment_of stem document = elim document.environment [
  | none ↦ stem
  | some name ↦ if name == "" then stem else name
]

unfoldable pub load_environments :
    Reader → List String → PolicyEngine → PolicyEngine × Option PolicyLoadError
unfolding put environment_of
load_environments read [] engine = (engine, none)
load_environments read (stem ∷ stems) engine = elim (read stem) [
  | err e ↦ (engine, some e)
  | ok document ↦ load_environments read stems (record engine {
    env_rules = put (environment_of stem document) document.rules engine.env_rules;
  })
]

-- The files below `environments` are read by `read_environment`.
unfoldable pub load :
    Reader → Reader → Option PolicyDirectory → PolicyEngine → PolicyEngine × Option PolicyLoadError
unfolding load_global load_environments
load read read_environment directory engine =
    if engine.loaded then (engine, none) else elim directory [
      | none ↦ (engine, some no_directory)
      | some d ↦
          let (global, failed) = load_global read d.files engine in
          elim failed [
            | some e ↦ (global, some e)
            | none ↦
                let (all, broken) = load_environments read_environment d.environments global in
                elim broken [ some e ↦ (all, some e) | none ↦ (record all { loaded = true }, none) ]
          ]
    ]

-- What `rules_for` returns, when the engine is loaded.
unfoldable pub rules_for : String → PolicyEngine → List PolicyRule
unfolding get
rules_for environment engine =
    engine.global_rules
    ++ elim (get environment engine.env_rules) [ none ↦ [] | some rules ↦ rules ]

-- `evaluate`, when the engine is loaded.
unfoldable pub evaluate_request :
    Matcher → PolicyEngine → DatabaseRequest → Result RuleError PolicyResult
unfolding rules_for evaluate_document model_dump environment_name
evaluate_request matches engine request =
    evaluate_document matches (rules_for (environment_name request.metadata.environment) engine)
      (model_dump request)
