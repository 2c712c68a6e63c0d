-- ===== src/Runtime/DeadLetter.antt =====
-- src/sentinel_edge/runtime/dead_letter.py: the bounded dead-letter store and redrive. The envelope
-- is an opaque value of the caller, and `sha256` digests payloads, a parameter.
pub mod Laws
mod Examples
use sentinel_edge.Prelude.{
  ltb, leb, if◌then◌else◌, length, Result, ◌>>=◌, ◌>>◌, raise_if, or_raise, is_blank, string_eq,
  Dict, lookup, insert, ℕ, ◌+◌, String, Bool, not, ◌||◌, none, some, List, [], ◌∷◌, ok, err,
}

pub data Error : Type 0 where
  bounds_not_positive identity_required attempts_exceed_policy capacity_exhausted : Error
  missing_record revalidation_failed : Error

pub record DeadLetterRecord (E : Type 0) : Type 0 where
  pub record_id : String
  pub envelope : E
  pub payload_sha256 : String
  pub reason : String
  pub attempts : ℕ
  pub validity : String
  pub aggregate : String
  pub destination : String
  pub causation_id : String
  pub correlation_id : String
  pub idempotency_key : String

pub record DeadLetterStore (E : Type 0) : Type 0 where
  pub max_attempts : ℕ
  pub max_records : ℕ
  pub records : Dict String (DeadLetterRecord E)

-- The arguments of `record`.
pub record Letter (E P : Type 0) : Type 0 where
  pub record_id : String
  pub envelope : E
  pub payload : P
  pub reason : String
  pub attempts : ℕ
  pub validity : String
  pub aggregate : String
  pub destination : String
  pub causation_id : String
  pub correlation_id : String
  pub idempotency_key : String

pub record Redrive : Type 0 where
  pub record_id : String
  pub attempt : ℕ
  pub causation_id : String
  pub correlation_id : String
  pub idempotency_key : String
  pub target_version : ℕ

module _ {E : Type 0} where
  -- `__post_init__`
  unfoldable pub create : ℕ → ℕ → Result Error (DeadLetterStore E)
  create max_attempts max_records =
      if leb max_attempts 0 || leb max_records 0
      then err bounds_not_positive
      else ok (record { max_attempts = max_attempts; max_records = max_records; records = [] })

  -- A negative target version is the flag `negative`.
  unfoldable pub redrive :
      DeadLetterStore E
      → String
      → (current_valid : Bool) → (target_version : ℕ) → (negative : Bool) → Result Error Redrive
  redrive s id current_valid target_version negative = do
    item ← or_raise (lookup id s.records) missing_record
    raise_if (not current_valid || negative) revalidation_failed
    ok (record {
      record_id = item.record_id;
      attempt = item.attempts + 1;
      causation_id = item.causation_id;
      correlation_id = item.correlation_id;
      idempotency_key = item.idempotency_key;
      target_version = target_version;
    })

module _ {E P : Type 0} (sha256 : P → String) where
  abbrev pub to_record : Letter E P → DeadLetterRecord E
  to_record l = record {
    record_id = l.record_id;
    envelope = l.envelope;
    payload_sha256 = sha256 l.payload;
    reason = l.reason;
    attempts = l.attempts;
    validity = l.validity;
    aggregate = l.aggregate;
    destination = l.destination;
    causation_id = l.causation_id;
    correlation_id = l.correlation_id;
    idempotency_key = l.idempotency_key;
  }

  -- `record`, the stored or the earlier record with the store after it.
  unfoldable pub record_letter :
      DeadLetterStore E → Letter E P → Result Error (DeadLetterStore E × DeadLetterRecord E)
  record_letter s l =
      if is_blank l.record_id || is_blank l.reason || is_blank l.aggregate || is_blank l.destination
      then err identity_required
      else if ltb l.attempts 1 || ltb s.max_attempts l.attempts
      then err attempts_exceed_policy
      else elim (lookup l.record_id s.records) [
        | some old ↦ ok (s, old)
        | none ↦
            if leb s.max_records (length s.records)
            then err capacity_exhausted
            else ok (record s { records = insert l.record_id (to_record l) s.records }, to_record l)
      ]

  -- The store after a sequence of letters; a letter that is refused leaves it as it is.
  abbrev pub after :
      DeadLetterStore E → Result Error (DeadLetterStore E × DeadLetterRecord E) → DeadLetterStore E
  after s (ok (s', item)) = s'
  after s (err e) = s

  unfoldable pub record_letters : DeadLetterStore E → List (Letter E P) → DeadLetterStore E
  record_letters s [] = s
  record_letters s (l ∷ ls) = record_letters (after s (record_letter s l)) ls
