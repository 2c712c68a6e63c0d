-- ===== src/Incidents/Authorized/Effects.antt =====
-- What an authorized review does (src/sentinel_edge/incidents/engine.py).
use sentinel_edge.Prelude.{
  ◌==◌, Bool-cases, Option-cases, Result-cases, nat_eq, lookup, insert, lookup-insert_self, String,
  ◌≡◌, refl, sym, ap, ◌∙◌, inl, inr, some, arith, str_eq, eq_iff, ok,
}
use sentinel_edge.Domain.Kinds.{Uuid, ReviewActionKind}
use sentinel_edge.Domain.Kinds.Equality.{hazard_eq}
use sentinel_edge.Domain.Records.{IncidentReviewState, ReviewAction, CommandReceipt}
use sentinel_edge.Security.Authorization
use sentinel_edge.Security.Authorization.{Macs, CommandAuthorizer}
use sentinel_edge.Security.Authorization.Decisions.{IsAccepted, verify_iff}
use sentinel_edge.Storage.Journal.{JournalStore, AuthorityPayload, append_authority}
use sentinel_edge.Storage.Journal.Reads.{command_receipt, review_state}
use sentinel_edge.Storage.Journal.Writes.{record_review, reviewed, record_command_receipt}
use sentinel_edge.Storage.Journal.Receipts.{record_command_receipt-found}
use sentinel_edge.Incidents.{Engine, Externals}
use sentinel_edge.Incidents.Review.{review}
use sentinel_edge.Incidents.Authorized.{
  AuthorizedReviewCommand, ReviewPayload, review_payload, action_of, operation_text, Answer,
  target_text, scoped_key, review_receipt, stored_receipt, carried_out, apply_authorized_review,
}

module _ {Float : Type 0} (digest : AuthorityPayload Float → String) where
  record_command_receipt-reviews :
      (r : CommandReceipt) (s : JournalStore Float)
      → (record_command_receipt digest r s).1.incident_review_state ≡ s.incident_review_state
  unfolding record_command_receipt append_authority
  record_command_receipt-reviews r s = ground arith

  record_review-kept :
      (a : ReviewAction) (state : IncidentReviewState) (s t : JournalStore Float)
      → record_review digest a s ≡ (ok state, t)
      → (state ≡ reviewed digest a a.action (review_state s a.incident_id))
        × (t.incident_review_state ≡ insert state.incident_id state s.incident_review_state)
        × (t.incident_events ≡ s.incident_events)
  unfolding record_review append_authority
  record_review-kept a state s t h = (ground arith, ground arith, ground arith)

  reviewed-id :
      (a : ReviewAction) (k : ReviewActionKind) (s : IncidentReviewState)
      → (reviewed digest a k s).incident_id ≡ s.incident_id
  unfolding reviewed
  reviewed-id a ReviewActionKind.acknowledge s = refl
  reviewed-id a ReviewActionKind.snooze s = refl
  reviewed-id a ReviewActionKind.unsnooze s = refl
  reviewed-id a ReviewActionKind.comment s = refl

module _ {Float : Type 0} (ex : Externals Float) where
  -- A review that the engine takes.
  record IsReviewed (a : ReviewAction) (state : IncidentReviewState) (e e' : Engine Float)
      : Type 0 where
    pub current_kept : e'.current ≡ e.current
    pub events_kept : e'.journal.incident_events ≡ e.journal.incident_events
    pub stored :
        e'.journal.incident_review_state
        ≡ insert state.incident_id state e.journal.incident_review_state
    pub named : state.incident_id ≡ (review_state e.journal a.incident_id).incident_id

  review-ok :
      (a : ReviewAction) (state : IncidentReviewState) (e e' : Engine Float)
      → review ex a e ≡ (ok state, e')
      → IsReviewed a state e e'
  unfolding review
  review-ok a state e e' h = elim (Option-cases (lookup a.hazard e.current)) [
    | inl k ↦ absurd ground arith
    | inr (c, k) ↦ elim (Bool-cases (c.incident_id == a.incident_id)) [
      | inr other ↦ absurd ground arith
      | inl same ↦ elim (Result-cases (record_review ex.authority_digest a e.journal).0) [
        | inr (x, l) ↦ absurd ground arith
        | inl (s, l) ↦
            let (made, put, kept) =
              record_review-kept ex.authority_digest a state e.journal
                (record_review ex.authority_digest a e.journal).1 (ground arith) in
            record {
              current_kept = ground arith;
              events_kept = ground (arith, kept);
              stored = ground (arith, put);
              named =
                  ap (λ (x : IncidentReviewState). x.incident_id) made
                  ∙ reviewed-id ex.authority_digest a a.action
                      (review_state e.journal a.incident_id);
            }
      ]
    ]
  ]

module _ {Float : Type 0} (ex : Externals Float) (mc : Macs)
    (review_digest : ReviewPayload → String) (state_digest : IncidentReviewState → String) where
  -- The receipt is found under the command's scoped key, is for the command's payload, and the
  -- incidents are as before.
  pub record IsReceipted (c : AuthorizedReviewCommand) (e e' : Engine Float) (r : CommandReceipt)
      : Type 0 where
    pub found : command_receipt e'.journal (scoped_key ex mc review_digest state_digest c) ≡ some r
    pub for_payload : r.payload_sha256 ≡ c.payload_sha256
    pub current_kept : e'.current ≡ e.current
    pub events_kept : e'.journal.incident_events ≡ e.journal.incident_events

  stored_receipt-ok :
      (c : AuthorizedReviewCommand) (state state' : IncidentReviewState) (r : CommandReceipt)
      (e e' : Engine Float)
      → stored_receipt ex mc review_digest state_digest c state e ≡ (ok (state', r), e')
      → IsReceipted c e e' r
        × (e'.journal.incident_review_state ≡ e.journal.incident_review_state)
        × (state' ≡ state)
  unfolding stored_receipt
  stored_receipt-ok c state state' r e e' h =
      let wanted = review_receipt ex mc review_digest state_digest c state in
      let w = record_command_receipt ex.authority_digest wanted e.journal in
      elim (Result-cases w.0) [
        | inr (x, k) ↦ absurd ground arith
        | inl (x, k) ↦
            let (found, payload, events, intents, relations, actions, states, rows) =
              record_command_receipt-found ex.authority_digest wanted x e.journal w.1
                (ground (arith, k)) in
            let reviews = record_command_receipt-reviews ex.authority_digest wanted e.journal in
            (
              record {
                found = ground (arith, found);
                for_payload = ground (arith, payload);
                current_kept = ground arith;
                events_kept = ground (arith, events);
              },
              ground (arith, reviews),
              ground arith,
            )
      ]

  carried_out-ok :
      (c : AuthorizedReviewCommand) (state : IncidentReviewState) (r : CommandReceipt)
      (e e' : Engine Float)
      → (review_state e.journal c.incident_id).incident_id ≡ c.incident_id
      → carried_out ex mc review_digest state_digest c e ≡ (ok (state, r), e')
      → IsReceipted c e e' r × (review_state e'.journal c.incident_id ≡ state)
  unfolding carried_out review_state
  carried_out-ok c state r e e' n h =
      let v = review ex (action_of c) e in
      elim (Result-cases v.0) [
        | inr (x, k) ↦ absurd ground arith
        | inl (made, k) ↦
            let rev = review-ok ex (action_of c) made e v.1 (ground (arith, k)) in
            let (done, tables, same) =
              stored_receipt-ok c made state r v.1 e' (ground (arith, k)) in
            let at : lookup c.incident_id e'.journal.incident_review_state ≡ some state =
              ap (lookup c.incident_id) (tables ∙ rev.stored)
              ∙ ap
                  (λ (j : Uuid).
                    lookup c.incident_id (insert j made e.journal.incident_review_state))
                  (rev.named ∙ n)
              ∙ lookup-insert_self c.incident_id made e.journal.incident_review_state
              ∙ ap (λ (x : IncidentReviewState). some x) (sym same) in
            (
              record {
                found = done.found;
                for_payload = done.for_payload;
                current_kept = done.current_kept ∙ rev.current_kept;
                events_kept = done.events_kept ∙ rev.events_kept;
              },
              ground (arith, at),
            )
      ]

  -- An accepted review with its receipt, and the answer to its repetition.
  pub record IsAuthorized (z : CommandAuthorizer mc) (c : AuthorizedReviewCommand)
      (e e' : Engine Float) (state : IncidentReviewState) (r : CommandReceipt) : Type 0 where
    pub accepted :
        IsAccepted mc review_digest z c.authorization
          (review_payload c)
          (operation_text c.action)
          (target_text ex mc review_digest state_digest c)
          (some c.authorization.principal)
          c.submitted_at
    pub receipted : IsReceipted c e e' r
    pub again :
        apply_authorized_review ex mc review_digest state_digest z c e' ≡ (ok (state, r), e')

  answered-again :
      (z : CommandAuthorizer mc) (c : AuthorizedReviewCommand) (e : Engine Float)
      (r : CommandReceipt)
      → Authorization.verify mc review_digest z c.authorization
          (review_payload c)
          (operation_text c.action)
          (target_text ex mc review_digest state_digest c)
          (some c.authorization.principal)
          c.submitted_at
        ≡ ok tt
      → command_receipt e.journal (scoped_key ex mc review_digest state_digest c) ≡ some r
      → r.payload_sha256 ≡ c.payload_sha256
      → apply_authorized_review ex mc review_digest state_digest z c e
        ≡ (ok (review_state e.journal c.incident_id, r), e)
  unfolding apply_authorized_review
  answered-again z c e r v found payload =
      let same = (eq_iff r.payload_sha256 c.payload_sha256).1 payload in ground arith

  -- A review that succeeds was accepted by the authorizer for exactly its operation, target,
  -- payload and time; it has a receipt for its payload under its scoped key, leaves the incidents
  -- as they were, and answers in the same way, with no further effect, when it is repeated. The
  -- incident's review state must carry the incident's identity.
  pub apply_authorized_review-IsAuthorized :
      (z : CommandAuthorizer mc) (c : AuthorizedReviewCommand) (e e' : Engine Float)
      (state : IncidentReviewState) (r : CommandReceipt)
      → (review_state e.journal c.incident_id).incident_id ≡ c.incident_id
      → apply_authorized_review ex mc review_digest state_digest z c e ≡ (ok (state, r), e')
      → IsAuthorized z c e e' state r
  unfolding apply_authorized_review
  apply_authorized_review-IsAuthorized z c e e' state r n h =
      let (to, back) =
        verify_iff mc review_digest z c.authorization (review_payload c) (operation_text c.action)
          (target_text ex mc review_digest state_digest c) (some c.authorization.principal)
          c.submitted_at in
      elim (Result-cases (
        Authorization.verify mc review_digest z c.authorization (review_payload c)
          (operation_text c.action) (target_text ex mc review_digest state_digest c)
          (some c.authorization.principal) c.submitted_at)) [
            | inr (x, k) ↦ absurd ground arith
            | inl (u, k) ↦
                elim (Option-cases
                  (command_receipt e.journal (scoped_key ex mc review_digest state_digest c))) [
                    | inr (old, l) ↦
                        elim (Bool-cases (str_eq old.payload_sha256 c.payload_sha256)) [
                          | inr other ↦ absurd ground arith
                          | inl same ↦
                              let payload = (eq_iff old.payload_sha256 c.payload_sha256).0 same in
                              record {
                                accepted = to k;
                                receipted = record {
                                  found = ground arith;
                                  for_payload = ground arith;
                                  current_kept = ground arith;
                                  events_kept = ground arith;
                                };
                                again = ground (arith, answered-again z c e old k l payload);
                              }
                        ]
                    | inl l ↦
                        let answer_of : IncidentReviewState
                            → Answer ex mc review_digest state_digest =
                          λ x. (ok (x, r), e') in
                        let (done, state_kept) = carried_out-ok c state r e e' n (ground arith) in
                        record {
                          accepted = to k;
                          receipted = done;
                          again =
                              answered-again z c e' r k done.found done.for_payload
                              ∙ ap (λ (x : IncidentReviewState). answer_of x) state_kept;
                        }
                  ]
          ]
