-- ===== src/Examples/Audits.antt =====
-- An audit log of two actions, with the action and the link as the digest.
use db_platform.Base.{
  String, ◌≡◌, refl, true, none, some, List, [], ◌∷◌, ◌++◌, concat, Has, inl, inr, ◌↔◌,
}
use db_platform.Audit.{
  AuditEvent, Action, Digest, genesis_hash, last_hash, last_hash_after, event_of, record_action,
  problems_from, verify_chain,
}
use db_platform.Audit.Chain.{
  IsChain, verify_chain_iff, record_action_verifies, same_last_hash_same_log,
}

abbrev digest : Digest
digest p = concat (p.action ∷ "<-" ∷ p.prev_hash ∷ [])

abbrev action : String → Action
action name = record {
  action = name;
  target = "orders";
  environment = "prod";
  outcome = "success";
  actor = some "dba";
  details = none;
}

abbrev one_event : List AuditEvent
one_event = record_action digest "ci" "2026-01-01" (action "provision") []

abbrev two_events : List AuditEvent
two_events = record_action digest "ci" "2026-01-02" (action "backup") one_event

one_verifies : (verify_chain digest one_event).0 ≡ true
unfolding verify_chain problems_from record_action event_of last_hash last_hash_after
one_verifies = refl

record_action_verifies_example : (verify_chain digest two_events).0 ≡ true
record_action_verifies_example =
    record_action_verifies digest "ci" "2026-01-02" (action "backup") one_event one_verifies

verify_chain_iff_example :
    ((verify_chain digest two_events).0 ≡ true) ↔ IsChain digest genesis_hash two_events
verify_chain_iff_example = verify_chain_iff digest two_events

second : List AuditEvent
second = event_of digest "ci" "2026-01-02" (last_hash one_event) (action "backup") ∷ []

both_verify : (verify_chain digest (one_event ++ second)).0 ≡ true
unfolding second verify_chain problems_from record_action event_of last_hash last_hash_after
both_verify = refl

tells_apart :
    (x y : AuditEvent)
    → Has x one_event
    → Has y one_event
    → digest x.payload ≡ digest y.payload
    → x.payload ≡ y.payload
unfolding record_action
tells_apart x y (inl e) (inl k) same = cc
tells_apart x y (inr none_left) k same = absurd none_left
tells_apart x y e (inr none_left) same = absurd none_left

same_last_hash_same_log_example : one_event ≡ one_event
same_last_hash_same_log_example =
    same_last_hash_same_log digest one_event one_event tells_apart one_verifies one_verifies refl
      refl
