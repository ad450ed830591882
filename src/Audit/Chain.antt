-- ===== src/Audit/Chain.antt =====
-- What `verify_chain` of audit/logger.py accepts.
use db_platform.Base.{
  ℕ, suc, String, ◌≡◌, refl, sym, ap, ◌∙◌, true, List, [], ◌∷◌, ◌++◌, arith, is_empty, length,
  eq_iff, Has, inl, inr, ◌↔◌,
}
use db_platform.Audit.{
  Payload, AuditEvent, Action, Digest, genesis_hash, last_hash_after, last_hash, event_of,
  record_action, problems_from, verify_chain,
}

module _ (digest : Digest) where
  -- Each event names the hash before it and carries its own.
  abbrev pub IsChain : String → List AuditEvent → Type 0
  IsChain prev [] = Unit
  IsChain prev (e ∷ events) =
      (e.payload.prev_hash ≡ prev) × (e.event_hash ≡ digest e.payload) × IsChain e.event_hash events

  problems_from-IsChain :
      (index : ℕ) (prev : String) (events : List AuditEvent)
      → (is_empty (problems_from digest index prev events) ≡ true) ↔ IsChain prev events
  unfolding problems_from
  problems_from-IsChain index prev [] = (λ h. tt, λ h. refl)
  problems_from-IsChain index prev (e ∷ events) = ground (
    arith,
    eq_iff e.payload.prev_hash prev,
    eq_iff (digest e.payload) e.event_hash,
    problems_from-IsChain (suc index) e.event_hash events,
  )

  IsChain-append :
      (prev : String) (xs ys : List AuditEvent)
      → IsChain prev (xs ++ ys) ↔ (IsChain prev xs × IsChain (last_hash_after prev xs) ys)
  unfolding last_hash_after
  IsChain-append prev [] ys = (λ h. (tt, h), λ h. h.1)
  IsChain-append prev (x ∷ xs) ys =
      let (there, back) = IsChain-append x.event_hash xs ys in
      (
        λ (link, hash, rest). let (l, r) = there rest in ((link, hash, l), r),
        λ ((link, hash, l), r). (link, hash, back (l, r)),
      )

-- `verify_chain` reports no problem exactly where the log is a chain from the genesis hash: each
-- event names the hash of the one before it and carries the digest of its own payload.
pub verify_chain_iff :
    (digest : Digest) (log : List AuditEvent)
    → ((verify_chain digest log).0 ≡ true) ↔ IsChain digest genesis_hash log
unfolding verify_chain
verify_chain_iff digest log = problems_from-IsChain digest 0 genesis_hash log

-- A log that verifies does so after every action that is recorded.
pub record_action_verifies :
    (digest : Digest) (environment_actor now : String) (a : Action) (log : List AuditEvent)
    → (verify_chain digest log).0 ≡ true
    → (verify_chain digest (record_action digest environment_actor now a log)).0 ≡ true
unfolding record_action event_of last_hash
record_action_verifies digest environment_actor now a log h = (verify_chain_iff digest _).1 (
    (IsChain-append digest genesis_hash log
        (event_of digest environment_actor now (last_hash log) a ∷ [])).1
      ((verify_chain_iff digest log).0 h, (refl, refl, tt)))

-- A log that verifies still does when events are cut off its end, so a deletion there is not seen.
pub verify_chain_after_cut :
    (digest : Digest) (kept cut : List AuditEvent)
    → (verify_chain digest (kept ++ cut)).0 ≡ true
    → (verify_chain digest kept).0 ≡ true
verify_chain_after_cut digest kept cut h =
    (verify_chain_iff digest kept).1
      ((IsChain-append digest genesis_hash kept cut).0
        ((verify_chain_iff digest (kept ++ cut)).0 h)).0

same_event : (x y : AuditEvent) → x.payload ≡ y.payload → x.event_hash ≡ y.event_hash → x ≡ y
same_event x y p h = cc

chains-equal :
    (digest : Digest) (p q : String) (xs ys : List AuditEvent)
    → IsChain digest p xs
    → IsChain digest q ys
    → length xs ≡ length ys
    → last_hash_after p xs ≡ last_hash_after q ys
    → ((x y : AuditEvent)
        → Has x xs
        → Has y ys
        → digest x.payload ≡ digest y.payload
        → x.payload ≡ y.payload)
    → (xs ≡ ys) × (p ≡ q)
unfolding last_hash_after
chains-equal digest p q [] [] h k n e apart = (refl, e)
chains-equal digest p q [] (y ∷ ys) h k n e apart = absurd (omega (arith, n))
chains-equal digest p q (x ∷ xs) [] h k n e apart = absurd (omega (arith, n))
chains-equal digest p q (x ∷ xs) (y ∷ ys) (xp, xh, h) (yp, yh, k) n e apart =
    let (rest, hash) =
      chains-equal digest x.event_hash y.event_hash xs ys h k (omega (arith, n)) e
        (λ a b i j. apart a b (inr i) (inr j)) in
    let payload = apart x y (inl refl) (inl refl) (sym xh ∙ hash ∙ yh) in
    let event = same_event x y payload hash in
    (cc (event, rest), sym xp ∙ ap (λ (z : Payload). z.prev_hash) payload ∙ yp)

-- Two logs that verify, with as many events and the same last hash, are the same log, where the
-- digest tells the payloads of the one from those of the other: an edit changes the last hash.
pub same_last_hash_same_log :
    (digest : Digest) (log other : List AuditEvent)
    → ((x y : AuditEvent)
        → Has x log
        → Has y other
        → digest x.payload ≡ digest y.payload
        → x.payload ≡ y.payload)
    → (verify_chain digest log).0 ≡ true
    → (verify_chain digest other).0 ≡ true
    → length log ≡ length other
    → last_hash log ≡ last_hash other
    → log ≡ other
unfolding last_hash
same_last_hash_same_log digest log other apart h k n e =
    (chains-equal digest genesis_hash genesis_hash log other ((verify_chain_iff digest log).0 h)
      ((verify_chain_iff digest other).0 k) n e apart).0
