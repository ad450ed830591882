-- ===== src/Policy/RuleSet.antt =====
-- Which rules a loaded engine of policy/engine.py of src/dbre_platform applies, described by the
-- files alone.
use mathlib.Core.Path.{subst}
use db_platform.Base.{
  String, Bool, true, false, Option, none, some, List, [], ◌∷◌, ◌++◌, ◌≡◌, refl, ap, ◌∙◌, ◌==◌,
  if◌then◌else◌, inl, inr, or_else, Option-cases,
}
use db_platform.Base.Dict.{get, put, get-put}
use db_platform.Base.Result.{ok, err, Result-cases}
use db_platform.Policy.{PolicyRule}
use db_platform.Policy.Loading.{
  PolicyDirectory, PolicyEngine, Reader, new_engine, load_global, environment_of, load_environments,
  load, rules_for,
}

-- The rules of all the files, in their order.
abbrev pub rules_of_files : Reader → List String → List PolicyRule
rules_of_files read [] = []
rules_of_files read (path ∷ paths) =
    (elim (read path) [ err e ↦ [] | ok document ↦ document.rules ]) ++ rules_of_files read paths

-- The rules of the last file that is for an environment.
abbrev pub rules_of_last : Reader → String → List String → Option (List PolicyRule)
rules_of_last read environment [] = none
rules_of_last read environment (stem ∷ stems) =
    or_else (rules_of_last read environment stems) (elim (read stem) [
      | err e ↦ none
      | ok document ↦
          if environment_of stem document == environment then some document.rules else none
    ])

append_assoc : (xs ys zs : List PolicyRule) → (xs ++ ys) ++ zs ≡ xs ++ (ys ++ zs)
append_assoc [] ys zs = refl
append_assoc (x ∷ xs) ys zs = ap (λ l. x ∷ l) (append_assoc xs ys zs)

append_nil : (xs : List PolicyRule) → xs ++ [] ≡ xs
append_nil [] = refl
append_nil (x ∷ xs) = ap (λ l. x ∷ l) (append_nil xs)

load_global_lem :
    (read : Reader) (paths : List String) (engine : PolicyEngine)
    → (load_global read paths engine).1 ≡ none
    → (load_global read paths engine).0
      ≡ record engine { global_rules = engine.global_rules ++ rules_of_files read paths }
unfolding load_global
load_global_lem read [] engine h = rw (append_nil engine.global_rules) refl
load_global_lem read (path ∷ paths) engine h = elim (Result-cases (read path)) [
  | inr (e, bad) ↦ cc (rw (load_global, bad) at h)
  | inl (document, good) ↦
      rw (load_global, good)
        (load_global_lem read paths
            (record engine { global_rules = engine.global_rules ++ document.rules })
            (rw (load_global, good) at h)
          ∙ rw (append_assoc engine.global_rules document.rules (rules_of_files read paths)) refl)
]

or_else_assoc :
    (later old : Option (List PolicyRule)) (here : Bool) (rules : List PolicyRule)
    → or_else later (if here then some rules else old)
      ≡ or_else (or_else later (if here then some rules else none)) old
or_else_assoc (some r) old here rules = refl
or_else_assoc none old true rules = refl
or_else_assoc none old false rules = refl

or_else-none : (o : Option (List PolicyRule)) → or_else o none ≡ o
or_else-none none = refl
or_else-none (some rules) = refl

load_environments_lem :
    (read : Reader) (stems : List String) (engine : PolicyEngine) (environment : String)
    → (load_environments read stems engine).1 ≡ none
    → ((load_environments read stems engine).0.global_rules ≡ engine.global_rules)
      × (get environment (load_environments read stems engine).0.env_rules
          ≡ or_else (rules_of_last read environment stems) (get environment engine.env_rules))
unfolding load_environments
load_environments_lem read [] engine environment h = (refl, refl)
load_environments_lem read (stem ∷ stems) engine environment h = elim (Result-cases (read stem)) [
  | inr (e, bad) ↦ cc (rw (load_environments, bad) at h)
  | inl (document, good) ↦
      let key = environment_of stem document in
      let (same, found) =
        load_environments_lem read stems
          (record engine { env_rules = put key document.rules engine.env_rules }) environment
          (rw (load_environments, good) at h) in
      (
        rw (load_environments, good) same,
        rw (load_environments, good)
            (found
              ∙ ap (or_else (rules_of_last read environment stems))
                  (get-put key environment document.rules engine.env_rules)
              ∙ or_else_assoc (rules_of_last read environment stems)
                  (get environment engine.env_rules) (key == environment) document.rules),
      )
]

-- What the engine is after `load` returns.
abbrev pub IsLoaded : Reader → Reader → PolicyDirectory → PolicyEngine → Type 0
IsLoaded read read_environment d engine =
    (engine.loaded ≡ true)
    × ((environment : String)
        → rules_for environment engine
          ≡ rules_of_files read d.files
            ++ elim (rules_of_last read_environment environment d.environments) [
              | none ↦ []
              | some rules ↦ rules
            ])

-- A new engine that `load` loads applies to an environment the rules of all the files, in their
-- order, and after them those of the last file for the environment. Loading it again changes
-- nothing.
pub load-IsLoaded :
    (read read_environment : Reader) (d : PolicyDirectory) (engine : PolicyEngine)
    → load read read_environment (some d) new_engine ≡ (engine, none)
    → IsLoaded read read_environment d engine
      × ((directory : Option PolicyDirectory)
          → load read read_environment directory engine ≡ (engine, none))
unfolding load rules_for
load-IsLoaded read read_environment d engine e =
    elim (Option-cases (load_global read d.files new_engine).1) [
      | inr (x, failed) ↦ cc (rw (load, failed) at e)
      | inl read_all ↦
          let global = (load_global read d.files new_engine).0 in
          elim (Option-cases (load_environments read_environment d.environments global).1) [
            | inr (x, broken) ↦ cc (rw (load, read_all, broken) at e)
            | inl read_both ↦
                let same = ap (λ x. x.0) (rw (load, read_all, read_both) at e) in
                subst
                  (λ x.
                    IsLoaded read read_environment d x
                    × ((directory : Option PolicyDirectory)
                        → load read read_environment directory x ≡ (x, none)))
                  same
                  (
                    (
                      refl,
                      λ environment.
                          let (kept, found) =
                            load_environments_lem read_environment d.environments global environment
                              read_both in
                          let made = load_global_lem read d.files new_engine read_all in
                          let last = rules_of_last read_environment environment d.environments in
                          let first_rules = kept ∙ ap (λ g. g.global_rules) made in
                          let more_rules =
                            found
                            ∙ ap (λ g. or_else last (get environment g.env_rules)) made
                            ∙ or_else-none last in
                          rw (rules_for, first_rules, more_rules) refl,
                    ),
                    λ directory. refl,
                  )
          ]
    ]
