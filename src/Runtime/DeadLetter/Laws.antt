-- ===== src/Runtime/DeadLetter/Laws.antt =====
-- The dead-letter store is bounded and immutable (dead_letter.py).
use sentinel_edge.Prelude.{
  length, string_eq, Dict, lookup, insert, lookup-insert, suc, ◌≤◌, String, ◌≡◌, refl, ◌∙◌, some,
  List, [], ◌∷◌, arith, eq_iff,
}
use sentinel_edge.Runtime.DeadLetter.{
  to_record, DeadLetterRecord, DeadLetterStore, Letter, record_letter, record_letters, after,
}

length-insert_new {ℓ} :
    {V : Type ℓ} (k : String) (v : V) (d : Dict String V) → length (insert k v d) ≤ suc (length d)
length-insert_new k v [] = omega arith
length-insert_new k v (b ∷ d) = ground (arith, length-insert_new k v d)

module _ {E P : Type 0} (sha256 : P → String) where
  record_letter-bounded :
      (s : DeadLetterStore E) (l : Letter E P)
      → length s.records ≤ s.max_records
      → length (after sha256 s (record_letter sha256 s l)).records
        ≤ (after sha256 s (record_letter sha256 s l)).max_records
  unfolding record_letter
  record_letter-bounded s l h =
      ground (arith, length-insert_new l.record_id (to_record sha256 l) s.records)

  record_letter-max :
      (s : DeadLetterStore E) (l : Letter E P)
      → (after sha256 s (record_letter sha256 s l)).max_records ≡ s.max_records
  unfolding record_letter
  record_letter-max s l = ground arith

  record_letter-keeps :
      (s : DeadLetterStore E) (l : Letter E P) (k : String) (item : DeadLetterRecord E)
      → lookup k s.records ≡ some item
      → lookup k (after sha256 s (record_letter sha256 s l)).records ≡ some item
  unfolding record_letter
  record_letter-keeps s l k item h =
      ground
        (arith, eq_iff k l.record_id, lookup-insert k l.record_id (to_record sha256 l) s.records)

  -- Through any sequence of letters, accepted or refused, a store within its bound stays within it,
  -- and every record that it holds is still held, unchanged, under its identity.
  pub record_letters-bounded :
      (s : DeadLetterStore E) (ls : List (Letter E P))
      → length s.records ≤ s.max_records
      → (length (record_letters sha256 s ls).records ≤ (record_letters sha256 s ls).max_records)
        × ((k : String) (item : DeadLetterRecord E)
            → lookup k s.records ≡ some item
            → lookup k (record_letters sha256 s ls).records ≡ some item)
        × ((record_letters sha256 s ls).max_records ≡ s.max_records)
  unfolding record_letters
  record_letters-bounded s [] h = (h, λ k item e. e, refl)
  record_letters-bounded s (l ∷ ls) h =
      let t = after sha256 s (record_letter sha256 s l) in
      let (bound, kept, same) = record_letters-bounded t ls (record_letter-bounded s l h) in
      (
        bound,
        λ k item e. kept k item (record_letter-keeps s l k item e),
        same ∙ record_letter-max s l,
      )
