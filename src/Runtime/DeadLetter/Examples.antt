-- ===== src/Runtime/DeadLetter/Examples.antt =====
-- Tests of dead_letter.py and its theorem at a concrete input.
use sentinel_edge.Prelude.{
  length, is_blank, string_eq, lookup, ℕ, ◌≤◌, String, ◌≡◌, refl, some, List, [], ◌∷◌, arith,
}
use sentinel_edge.Runtime.DeadLetter.{
  DeadLetterStore, DeadLetterRecord, Letter, record_letters, to_record, record_letter,
}
use sentinel_edge.Runtime.DeadLetter.Laws.{record_letters-bounded}

abbrev letter : String → String → Letter ℕ String
letter id text = record {
  record_id = id;
  envelope = 1;
  payload = text;
  reason = "timeout";
  attempts = 1;
  validity = "valid";
  aggregate = "incident";
  destination = "radio";
  causation_id = "c";
  correlation_id = "d";
  idempotency_key = "k";
}

abbrev digest : String → String
digest s = s

abbrev one_letter : DeadLetterStore ℕ
one_letter = record {
  max_attempts = 3;
  max_records = 2;
  records = ("a", to_record digest (letter "a" "first")) ∷ [];
}

abbrev more : List (Letter ℕ String)
more = letter "a" "changed" ∷ letter "b" "second" ∷ letter "c" "third" ∷ []

two_kept : length (record_letters digest one_letter more).records ≡ 2
unfolding record_letters record_letter is_blank
two_kept = refl

abbrev fresh : DeadLetterStore ℕ
fresh = record { max_attempts = 3; max_records = 2; records = [] }

record_letters-bounded_example :
    (length (record_letters digest fresh more).records
      ≤ (record_letters digest fresh more).max_records)
    × ((k : String) (item : DeadLetterRecord ℕ)
        → lookup k fresh.records ≡ some item
        → lookup k (record_letters digest fresh more).records ≡ some item)
    × ((record_letters digest fresh more).max_records ≡ fresh.max_records)
record_letters-bounded_example = record_letters-bounded digest fresh more (omega arith)
