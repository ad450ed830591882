-- ===== src/Audit.antt =====
-- The audit log of src/dbre_platform/audit/logger.py, a chain of hashed events. The file is the list
-- of its events. The SHA-256 digest of an event's canonical JSON is an argument, as are the clock
-- and the actor that the environment names.
pub mod Chain
use db_platform.Base.{
  ℕ, suc, String, Bool, true, false, Option, none, some, List, [], ◌∷◌, ◌++◌, is_empty,
  if◌then◌else◌, ◌==◌,
}
use db_platform.Base.Value.{Fields, end}

-- `GENESIS_HASH`
abbrev pub genesis_hash : String
genesis_hash = "0000000000000000000000000000000000000000000000000000000000000000"

-- Everything of an event but the hash of the event itself.
pub record Payload : Type 0 where
  pub action : String
  pub target : String
  pub environment : String
  pub outcome : String
  pub actor : String
  pub timestamp : String
  pub details : Fields
  pub prev_hash : String

pub record AuditEvent : Type 0 where
  pub payload : Payload
  pub event_hash : String

unfoldable pub last_hash_after : String → List AuditEvent → String
last_hash_after hash [] = hash
last_hash_after hash (e ∷ events) = last_hash_after e.event_hash events

-- `_last_hash`
unfoldable pub last_hash : List AuditEvent → String
unfolding last_hash_after
last_hash events = last_hash_after genesis_hash events

-- The arguments of `record`.
pub record Action : Type 0 where
  pub action : String
  pub target : String
  pub environment : String
  pub outcome : String
  pub actor : Option String
  pub details : Option Fields

abbrev pub Digest : Type 0
Digest = Payload → String

unfoldable pub event_of : Digest → String → String → String → Action → AuditEvent
event_of digest environment_actor now prev_hash a =
    let payload : Payload = record {
      action = a.action;
      target = a.target;
      environment = a.environment;
      outcome = a.outcome;
      actor = elim a.actor [ none ↦ environment_actor | some actor ↦ actor ];
      timestamp = now;
      details = elim a.details [ none ↦ end | some d ↦ d ];
      prev_hash = prev_hash;
    } in
    record { payload = payload; event_hash = digest payload }

-- The log after `record`; the event that it returns is the last one.
unfoldable pub record_action : Digest → String → String → Action → List AuditEvent → List AuditEvent
unfolding last_hash event_of
record_action digest environment_actor now a log =
    log ++ event_of digest environment_actor now (last_hash log) a ∷ []

-- A line with its number, counted from 1.
pub data Problem : Type 0 where
  bad_link bad_hash : ℕ → Problem

-- The loop of `verify_chain`, from the line after `index` on.
unfoldable pub problems_from : Digest → ℕ → String → List AuditEvent → List Problem
problems_from digest index expected_prev [] = []
problems_from digest index expected_prev (e ∷ events) =
    (if e.payload.prev_hash == expected_prev then [] else bad_link (suc index) ∷ [])
    ++ ((if digest e.payload == e.event_hash then [] else bad_hash (suc index) ∷ [])
        ++ problems_from digest (suc index) e.event_hash events)

unfoldable pub verify_chain : Digest → List AuditEvent → Bool × List Problem
unfolding problems_from
verify_chain digest log =
    let problems = problems_from digest 0 genesis_hash log in (is_empty problems, problems)
