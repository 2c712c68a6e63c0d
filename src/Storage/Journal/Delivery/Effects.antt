-- ===== src/Storage/Journal/Delivery/Effects.antt =====
-- The effects of `InMemoryIdempotentNotificationSink` (src/sentinel_edge/incidents/human_factors.py).
use sentinel_edge.Prelude.{
  if◌then◌else◌, Option-cases, length, keep, first, any, any-append, length-keep_append, nat_eq, ℕ,
  ◌+◌, ◌≡◌, refl, inl, inr, Bool, true, false, ◌||◌, none, some, List, [], ◌∷◌, arith,
}
use sentinel_edge.Domain.Records.{NotificationIntent, NotificationKey}
use sentinel_edge.Storage.Journal.Writes.{same_key}
use sentinel_edge.Storage.Journal.Delivery.{Sink, send, send_all}

abbrev pub empty_sink : Sink
empty_sink = record { receipts = []; effects = [] }

-- How often a key has had its effect.
abbrev pub effects_of : NotificationKey → Sink → ℕ
effects_of key k = length (keep (same_key key) k.effects)

abbrev pub asks_for : NotificationKey → List NotificationIntent → Bool
asks_for key ns = any (λ (n : NotificationIntent). same_key key n.idempotency_key) ns

abbrev pub Receipts : Type 0
Receipts = List (NotificationKey × (ℕ × NotificationKey))

abbrev pub knows : NotificationKey → Receipts → Bool
knows key rs = any (λ (r : NotificationKey × (ℕ × NotificationKey)). same_key r.0 key) rs

same_key_trans : (a b c : NotificationKey) → same_key a b ≡ true → same_key c a ≡ same_key c b
same_key_trans a b c h = ground arith

same_key_sym : (a b : NotificationKey) → same_key a b ≡ same_key b a
same_key_sym a b = ground arith

knows-same_key :
    (a b : NotificationKey) (rs : Receipts) → same_key a b ≡ true → knows a rs ≡ knows b rs
knows-same_key a b [] h = refl
knows-same_key a b (r ∷ rs) h = ground (arith, knows-same_key a b rs h, same_key_trans a b r.0 h)

knows-first :
    (key : NotificationKey) (rs : Receipts)
    → first (λ (r : NotificationKey × (ℕ × NotificationKey)). same_key r.0 key) rs ≡ none
    → knows key rs ≡ false
knows-first key [] h = refl
knows-first key (r ∷ rs) h = ground (arith, knows-first key rs)

first-knows :
    (key : NotificationKey) (rs : Receipts) (r : NotificationKey × (ℕ × NotificationKey))
    → first (λ (q : NotificationKey × (ℕ × NotificationKey)). same_key q.0 key) rs ≡ some r
    → knows key rs ≡ true
first-knows key [] r h = ground arith
first-knows key (q ∷ rs) r h = ground (arith, first-knows key rs r)

-- Each key that has a receipt has had its effect once, the other keys none.
abbrev pub IsOnce : Sink → Type 0
IsOnce k = (key : NotificationKey) → effects_of key k ≡ (if knows key k.receipts then 1 else 0)

send-IsOnce :
    (n : NotificationIntent) (k : Sink)
    → IsOnce k
    → IsOnce (send n k).1
      × ((key : NotificationKey)
          → knows key (send n k).1.receipts
            ≡ (knows key k.receipts || same_key key n.idempotency_key))
unfolding send
send-IsOnce n k h =
    let key = n.idempotency_key in
    elim (Option-cases
      (first (λ (r : NotificationKey × (ℕ × NotificationKey)). same_key r.0 key) k.receipts)) [
        | inr (r, m) ↦ (
          λ j. ground (arith, h j),
          λ j. ground (arith, first-knows key k.receipts r m, knows-same_key j key k.receipts),
        )
        | inl m ↦
            let receipt : ℕ × NotificationKey = (length k.receipts + 1, key) in
            (
              λ j. ground (
                arith,
                h j,
                knows-first key k.receipts m,
                knows-same_key j key k.receipts,
                same_key_sym j key,
                any-append (λ (r : NotificationKey × (ℕ × NotificationKey)). same_key r.0 j)
                    k.receipts (key, receipt),
                length-keep_append (same_key j) k.effects key,
              ),
              λ j. ground (
                arith,
                same_key_sym j key,
                any-append (λ (r : NotificationKey × (ℕ × NotificationKey)). same_key r.0 j)
                    k.receipts (key, receipt),
              ),
            )
      ]

send_all-IsOnce :
    (ns : List NotificationIntent) (k : Sink)
    → IsOnce k
    → IsOnce (send_all ns k)
      × ((key : NotificationKey)
          → knows key (send_all ns k).receipts ≡ (knows key k.receipts || asks_for key ns))
unfolding send_all
send_all-IsOnce [] k h = (h, λ j. ground arith)
send_all-IsOnce (n ∷ ns) k h =
    let (one, step) = send-IsOnce n k h in
    let (all, steps) = send_all-IsOnce ns (send n k).1 one in
    (all, λ j. ground (arith, step j, steps j))

-- However often and in whatever order intents are sent to an empty sink, an idempotency key has its
-- effect once if some intent has it, and never otherwise.
pub send_all-once :
    (ns : List NotificationIntent) (key : NotificationKey)
    → effects_of key (send_all ns empty_sink) ≡ (if asks_for key ns then 1 else 0)
send_all-once ns key =
    let (all, steps) = send_all-IsOnce ns empty_sink (λ j. refl) in
    ground (arith, all key, steps key)
