-- ===== src/Lib.antt =====
-- The core of DB-Platform, which has two programs. The Change Risk Engine estimates what a proposed
-- database change could reach and how risky it is, before it is deployed. The provisioning
-- platform, dbre_platform, takes a request for a database through its policies and a readiness
-- score before it hands it to a provisioner, and reports on the service levels afterwards.
--
-- The parts of the Change Risk Engine, in the order in which an assessment runs through them:
--
-- Graph.antt: src/change_risk_engine/domain/dependency.py. `DependencyGraph` keeps its nodes by
-- id, its edges in the order of insertion, and an index of the edges at each end; `add_node` and
-- `add_edge` return the graph after the call, and `none` is the KeyError of `add_edge`.
-- Graph/WellFormed is the invariant of the graph. Graph/Traverse is `_traverse` with
-- `downstream_of` and `upstream_of`; its children are about its end (Ends), the paths that it
-- keeps (Sound), the lengths of these (Shortest), and the dependencies of the graph (Exact).
-- Dependencies.antt: dependencies/config.py and dependencies/graph_builder.py of
-- src/change_risk_engine. The builder makes the graph from the metadata that a connector collected
-- (Collected) and from the configured databases, services, replication and APIs (Configured). Total,
-- Edges and References are about the nodes at the ends of an edge, the end of the loops, and how
-- the configured references end.
-- Sql.antt: analyzers/database/parser.py of src/change_risk_engine, which makes operations of the
-- text of a change, with `analyze` of analyzers/database/analyzer.py. Sql/Text has the helpers on
-- text, with Splitting and Clauses about the splitting of a list; Sql/Regex writes out how `re` of
-- the standard library matches a regular expression, and Sql/Patterns has the expressions of the
-- parser; Sql/Alter has the clauses of ALTER TABLE, Sql/Statement the statements, and Traced is
-- about what the operations carry of the text.
-- Change.antt and Change/Kinds: src/change_risk_engine/domain/change.py, and the sets of
-- operations that the factors test for. Metadata.antt: metadata/models.py of that package.
-- BlastRadius.antt: src/change_risk_engine/blast_radius/analyzer.py, with the result of
-- domain/blast_radius.py. Collect is one list that the loop fills, Rounds the loop over the
-- changed resources, Contents what the lists hold, Direct and Bounds the counts and the numbers.
-- Risk.antt: the types of src/change_risk_engine/domain/risk.py and the context of
-- risk/factors.py. Risk/Factors is `compute_factors`, with the thirteen factor functions in
-- Operations and Context; Risk/Recommendations is risk/recommendations.py; Risk/Weights and
-- Risk/Engine are risk/engine.py: the weights policy with its levels, and the assessment with its
-- score and its confidence; Gaps is about the list of uncertainties, and Weights/Entries about the
-- entries of the weights file.
-- RiskPolicy.antt: the rules of src/change_risk_engine/domain/policy.py. RiskPolicy/Operators and
-- RiskPolicy/Fields are policy/rules.py, RiskPolicy/Document and RiskPolicy/Engine are
-- policy/engine.py, what a rule reads and how the rules are evaluated, and RiskPolicy/Shipped has
-- the rules of policies/risk/rules/database-change-policies.yaml.
-- Pipeline.antt: src/change_risk_engine/pipeline.py, which runs the parts above in order.
--
-- The parts of the provisioning platform, in the order in which a request runs through them:
--
-- Request.antt: config/models.py of src/dbre_platform, the records of a request with the defaults
-- written out by whoever builds one. Request/Tags is tagging/governance.py, Request/Document
-- the dictionary (`model_dump`) that the policies read.
-- Overrides.antt: `set_field_path` of src/dbre_platform/config/overrides.py, and the reading of
-- such a path in src/dbre_platform/policy/rules.py. Overrides/Flags is the rest of overrides.py.
-- Policy.antt: policy/models.py of src/dbre_platform and the raw form of a rule. Policy/Rules is
-- policy/rules.py; policy/engine.py is Policy/Loading, which reads the rule files of a directory,
-- with RuleSet about the set that is loaded, and Policy/Engine, the evaluation, with Verdict and
-- Warnings about it; Policy/Shipped has the rules that are shipped for production.
-- Readiness.antt: src/dbre_platform/readiness/scorecard.py, and Score about the number.
-- Provisioning.antt: `Provisioner.provision` of src/dbre_platform/provisioning/base.py, the gate in
-- front of every provisioner. Gate has the abstract gate that it refines; Requests has the sequences
-- of such calls.
-- Slo.antt: src/dbre_platform/slo/calculator.py. Slo/Budget has the burn rate and the error budget,
-- Slo/Status one service level, Slo/Report the report; Meaning and Worst are about the two.
-- Audit.antt: src/dbre_platform/audit/logger.py, the audit log to which the gate writes, whose
-- construction the Change Risk Engine repeats for its own log.
--
-- Base.antt has what they share: dictionaries, fractions, numbers, values, results and lists.
-- Examples.antt has a small shop with its graph, its blast radius and its assessment, and the
-- requests, the policies and the service levels of the platform, and some migrations.
--
-- Python's floats are exact fractions here, non-negative ones but for the thresholds, and `round`
-- goes to the nearest decimal with ties to the even one; errors of binary rounding are not
-- modelled. A dictionary is an association list in insertion order, and a set that is sorted
-- before it is used is a sorted list with no repetition. Texts for people (reasons, descriptions)
-- are replaced by the facts that they print. Random ids, the clock, the analyzers of a change and
-- the matching of a rule's pattern (`re.match` on a printed value) are arguments, and so is the
-- SHA-256 digest of an audit event. What a YAML file holds is an argument, as a parsed value, and so
-- is the outcome of a provisioner. Counts of requests are natural numbers.
--
-- The `while` loop of `_traverse` runs on fuel: a round takes one entry off the frontier, and an
-- entry is put on it only where the hop count of its node falls, at most max_hops + 1 times for
-- each edge, so twice the number of edges times (max_hops + 1), plus one, is enough.
--
-- A repetition in a regular expression runs for as many rounds as there are characters left. The
-- letters and the upper case of characters outside ASCII are an argument of the matching, and so is
-- sqlparse, which splits a text into statements.
--
-- Not modelled: persistence, the connectors, authentication, the API and the command lines; of the
-- provisioning platform, the capacity forecast, backup and disaster recovery, the generated roles
-- and manifests, the provisioners and observability. These are mostly calls of other systems, or
-- texts that are generated for them.
pub mod Base
pub mod Graph
pub mod Change
pub mod BlastRadius
pub mod Metadata
pub mod Dependencies
pub mod Risk
pub mod RiskPolicy
pub mod Pipeline
pub mod Audit
pub mod Overrides
pub mod Request
pub mod Policy
pub mod Readiness
pub mod Slo
pub mod Sql
pub mod Provisioning
pub mod Examples
