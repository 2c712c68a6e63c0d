-- ===== src/Storage/Journal/Delivery.antt =====
-- Notification delivery: `dispatchable_notifications` and `record_delivery` of
-- src/sentinel_edge/storage/sqlite_store.py, and the dispatcher and the idempotent sink of
-- src/sentinel_edge/incidents/human_factors.py. A sender is a function on its own state that returns
-- a receipt or the text of its exception.
pub mod Effects
use sentinel_edge.Prelude.{
  ltb, leb, ◌==◌, if◌then◌else◌, length, keep, first, Result, ℕ, ◌+◌, String, Bool, true, false,
  ◌&&◌, ◌||◌, none, some, List, [], ◌∷◌, ◌++◌, str_eq, ok, err,
}
use sentinel_edge.Prelude.Stateful.{Action}
use sentinel_edge.Domain.Kinds.{Uuid, Instant, NotificationStatus, AuthorityMutationKind}
use sentinel_edge.Domain.Records.{NotificationIntent, NotificationKey}
use sentinel_edge.Storage.Journal.{
  AuthorityPayload, JournalStore, StoreError, notification, missing_notification, append_authority,
}
use sentinel_edge.Storage.Journal.Writes.{same_key}

-- `ORDER BY created_at,notification_id`
abbrev before : NotificationIntent → NotificationIntent → Bool
before a b =
    ltb a.created_at b.created_at
    || (a.created_at == b.created_at && leb a.notification_id b.notification_id)

unfoldable pub insert_ordered :
    NotificationIntent → List NotificationIntent → List NotificationIntent
insert_ordered n [] = n ∷ []
insert_ordered n (m ∷ l) =
    let rest = insert_ordered n l in if before n m then n ∷ m ∷ l else m ∷ rest

unfoldable pub ordered : List NotificationIntent → List NotificationIntent
ordered [] = []
ordered (n ∷ l) = insert_ordered n (ordered l)

abbrev pub is_dispatchable : NotificationStatus → Bool
is_dispatchable NotificationStatus.pending = true
is_dispatchable NotificationStatus.failed = true
is_dispatchable _ = false

abbrev pub is_delivered : NotificationStatus → Bool
is_delivered NotificationStatus.delivered = true
is_delivered _ = false

abbrev pub may_send : Instant → NotificationIntent → Bool
may_send now n =
    is_dispatchable n.status && ltb n.attempt_count n.max_attempts && leb n.created_at now

-- The intent after one attempt: `outcome` is the receipt or the error of the sender.
unfoldable pub attempted : Instant → Result String String → NotificationIntent → NotificationIntent
attempted at (ok receipt_id) n = record n {
  status = NotificationStatus.delivered;
  attempt_count = n.attempt_count + 1;
  updated_at = at;
  receipt_id = some receipt_id;
  last_error = none;
}
attempted at (err e) n = record n {
  status =
      if leb n.max_attempts (n.attempt_count + 1)
      then NotificationStatus.dead_letter
      else NotificationStatus.failed;
  attempt_count = n.attempt_count + 1;
  updated_at = at;
  receipt_id = none;
  last_error = some (if str_eq e "" then "delivery_failed" else e);
}

-- `UPDATE notification_intents … WHERE notification_id=?`
unfoldable pub update_intent :
    NotificationIntent → List NotificationIntent → List NotificationIntent
update_intent u [] = []
update_intent u (n ∷ l) =
    (if n.notification_id == u.notification_id
      then record n {
        status = u.status;
        updated_at = u.updated_at;
        attempt_count = u.attempt_count;
        last_error = u.last_error;
        receipt_id = u.receipt_id;
      }
      else n)
    ∷ update_intent u l

module _ {Float : Type 0} (digest : AuthorityPayload Float → String) where
  unfoldable pub dispatchable_notifications : Instant → JournalStore Float → List NotificationIntent
  dispatchable_notifications now s = keep (may_send now) (ordered s.notification_intents)

  unfoldable pub record_delivery :
      Uuid
      → Result String String
      → Instant
      → Action (JournalStore Float) StoreError NotificationIntent
  record_delivery id outcome at s =
      elim (first (λ n. n.notification_id == id) s.notification_intents) [
        | none ↦ (err missing_notification, s)
        | some n ↦
            let u = attempted at outcome n in
            let t =
              append_authority digest AuthorityMutationKind.notification_delivery u.notification_id
                at (notification u) s in
            if is_delivered n.status
            then (ok n, s)
            else (ok u, record t { notification_intents = update_intent u s.notification_intents })
      ]

  module _ {H : Type 0} (sender : NotificationIntent → H → Result String String × H)
      (now : Instant) where
    abbrev Dispatch : Type 0
    Dispatch = Result StoreError (List NotificationIntent) × JournalStore Float × H

    abbrev prepend : NotificationIntent → Dispatch → Dispatch
    prepend n (ok ns, s, h) = (ok (n ∷ ns), s, h)
    prepend n (err e, s, h) = (err e, s, h)

    -- The loop of `NotificationDispatcher.dispatch`.
    unfoldable pub dispatch_each : List NotificationIntent → JournalStore Float → H → Dispatch
    dispatch_each [] s h = (ok [], s, h)
    dispatch_each (n ∷ ns) s h =
        let (outcome, h') = sender n h in
        let (r, s') = record_delivery n.notification_id outcome now s in
        elim r [ ok u ↦ prepend u (dispatch_each ns s' h') | err e ↦ (err e, s', h') ]

    unfoldable pub dispatch : JournalStore Float → H → Dispatch
    dispatch s h = dispatch_each (dispatchable_notifications now s) s h

-- `InMemoryIdempotentNotificationSink`; a receipt is the text `local:{count}:{key}`.
pub record Sink : Type 0 where
  pub receipts : List (NotificationKey × (ℕ × NotificationKey))
  pub effects : List NotificationKey

unfoldable pub send : NotificationIntent → Sink → (ℕ × NotificationKey) × Sink
send n k = elim (first (λ r. same_key r.0 n.idempotency_key) k.receipts) [
  | some (key, receipt) ↦ (receipt, k)
  | none ↦
      let receipt : ℕ × NotificationKey = (length k.receipts + 1, n.idempotency_key) in
      (
        receipt,
        record {
          receipts = k.receipts ++ (n.idempotency_key, receipt) ∷ [];
          effects = k.effects ++ n.idempotency_key ∷ [];
        },
      )
]

unfoldable pub send_all : List NotificationIntent → Sink → Sink
send_all [] k = k
send_all (n ∷ ns) k = send_all ns (send n k).1
