-- ===== src/Storage/Sources/Events.antt =====
-- The order in which `SourceCursorStore.events` (src/sentinel_edge/storage/sqlite_store.py) reads the
-- health events, and what it means for a replay.
use sentinel_edge.Prelude.{
  if◌then◌else◌, Bool-cases, nat_eq, ℕ, ◌≤◌, ◌<◌, String, ◌≡◌, refl, inl, inr, Bool, true, false,
  Option, some, List, [], ◌∷◌, ◌++◌, arith, str_eq,
}
use sentinel_edge.Storage.Sources.{
  HealthState, SourceHealthEvent, recorded_before, insert_by_time, in_recorded_order,
}

-- A state with its reasons.
abbrev pub Status : Type 0
Status = HealthState × List String

module _ {Float : Type 0} where
  -- The status of a source after some events, by the events alone.
  unfoldable pub replayed : String → List (SourceHealthEvent Float) → Option Status → Option Status
  replayed id [] o = o
  replayed id (e ∷ es) o =
      replayed id es (if str_eq id e.source_id then some (e.state, e.reason_codes) else o)

  -- No event is recorded before a time.
  abbrev pub IsFrom : ℕ → List (SourceHealthEvent Float) → Type 0
  IsFrom t [] = Unit
  IsFrom t (x ∷ xs) = (t ≤ x.recorded_at) × IsFrom t xs

  -- The times do not decrease.
  abbrev pub IsOrdered : List (SourceHealthEvent Float) → Type 0
  IsOrdered [] = Unit
  IsOrdered (x ∷ xs) = IsFrom x.recorded_at xs × IsOrdered xs

  -- The events of a source are recorded before a time.
  abbrev pub IsEarlier : String → ℕ → List (SourceHealthEvent Float) → Type 0
  IsEarlier id t [] = Unit
  IsEarlier id t (x ∷ xs) = (str_eq id x.source_id ≡ true → x.recorded_at < t) × IsEarlier id t xs

  pub IsFrom-le : (t u : ℕ) (l : List (SourceHealthEvent Float)) → t ≤ u → IsFrom u l → IsFrom t l
  IsFrom-le t u [] h k = tt
  IsFrom-le t u (x ∷ l) h (k, ks) = (omega arith, IsFrom-le t u l h ks)

  pub IsEarlier-le :
      (id : String) (t u : ℕ) (l : List (SourceHealthEvent Float))
      → t ≤ u
      → IsEarlier id t l
      → IsEarlier id u l
  IsEarlier-le id t u [] h k = tt
  IsEarlier-le id t u (x ∷ l) h (k, ks) =
      (λ (e : str_eq id x.source_id ≡ true). ground (arith, k e), IsEarlier-le id t u l h ks)

  pub in_recorded_order-append :
      (l done : List (SourceHealthEvent Float)) (e : SourceHealthEvent Float)
      → in_recorded_order (l ++ e ∷ []) done ≡ insert_by_time e (in_recorded_order l done)
  unfolding in_recorded_order
  in_recorded_order-append [] done e = refl
  in_recorded_order-append (x ∷ l) done e = in_recorded_order-append l (insert_by_time x done) e

  module _ (e : SourceHealthEvent Float) where
    insert_by_time-IsFrom :
        (t : ℕ) (l : List (SourceHealthEvent Float))
        → t ≤ e.recorded_at
        → IsFrom t l
        → IsFrom t (insert_by_time e l)
    unfolding insert_by_time
    insert_by_time-IsFrom t [] h k = (h, tt)
    insert_by_time-IsFrom t (x ∷ l) h (k, ks) =
        elim (recorded_before e x)
          as (λ (b : Bool). IsFrom t (if b then e ∷ x ∷ l else x ∷ insert_by_time e l)) [
            | true ↦ (h, (k, ks))
            | false ↦ (k, insert_by_time-IsFrom t l h ks)
          ]

    pub insert_by_time-IsEarlier :
        (id : String) (t : ℕ) (l : List (SourceHealthEvent Float))
        → (str_eq id e.source_id ≡ true → e.recorded_at < t)
        → IsEarlier id t l
        → IsEarlier id t (insert_by_time e l)
    unfolding insert_by_time
    insert_by_time-IsEarlier id t [] h k = (h, tt)
    insert_by_time-IsEarlier id t (x ∷ l) h (k, ks) =
        elim (recorded_before e x)
          as (λ (b : Bool). IsEarlier id t (if b then e ∷ x ∷ l else x ∷ insert_by_time e l)) [
            | true ↦ (h, (k, ks))
            | false ↦ (k, insert_by_time-IsEarlier id t l h ks)
          ]

    before-le :
        (x : SourceHealthEvent Float) → recorded_before e x ≡ true → e.recorded_at ≤ x.recorded_at
    unfolding recorded_before
    before-le x h = ground arith

    not_before-le :
        (x : SourceHealthEvent Float) → recorded_before e x ≡ false → x.recorded_at ≤ e.recorded_at
    unfolding recorded_before
    not_before-le x h = ground arith

    pub insert_by_time-IsOrdered :
        (l : List (SourceHealthEvent Float)) → IsOrdered l → IsOrdered (insert_by_time e l)
    unfolding insert_by_time
    insert_by_time-IsOrdered [] k = (tt, tt)
    insert_by_time-IsOrdered (x ∷ l) (k, ks) = elim (Bool-cases (recorded_before e x)) [
      | inl h ↦
          rw h ((before-le x h, IsFrom-le e.recorded_at x.recorded_at l (before-le x h) k), (k, ks))
      | inr h ↦ rw h (
        insert_by_time-IsFrom x.recorded_at l (not_before-le x h) k,
        insert_by_time-IsOrdered l ks,
      )
    ]

    -- The event of another source changes nothing.
    pub replayed-insert_other :
        (id : String) (l : List (SourceHealthEvent Float)) (o : Option Status)
        → str_eq id e.source_id ≡ false
        → replayed id (insert_by_time e l) o ≡ replayed id l o
    unfolding replayed insert_by_time
    replayed-insert_other id [] o h = ground arith
    replayed-insert_other id (x ∷ l) o h =
        let next = if str_eq id x.source_id then some (x.state, x.reason_codes) else o in
        let rest = replayed-insert_other id l next h in
        elim (Bool-cases (recorded_before e x)) [
          | inl before ↦ ground arith
          | inr after ↦ ground (arith, rest)
        ]

  -- Events from a time on are not of a source whose events are earlier.
  replayed-later :
      (id : String) (t : ℕ) (l : List (SourceHealthEvent Float)) (o : Option Status)
      → IsFrom t l
      → IsEarlier id t l
      → replayed id l o ≡ o
  unfolding replayed
  replayed-later id t [] o k f = refl
  replayed-later id t (x ∷ l) o (k, ks) (f, fs) = elim (Bool-cases (str_eq id x.source_id)) [
    | inl same ↦ absurd ground (arith, f same)
    | inr other ↦ ground (arith, replayed-later id t l o ks fs)
  ]

  -- The latest event of a source is the last one that a replay reads.
  pub replayed-insert_here :
      (e : SourceHealthEvent Float) (id : String) (l : List (SourceHealthEvent Float))
      (o : Option Status)
      → str_eq id e.source_id ≡ true
      → IsOrdered l
      → IsEarlier id e.recorded_at l
      → replayed id (insert_by_time e l) o ≡ some (e.state, e.reason_codes)
  unfolding replayed insert_by_time
  replayed-insert_here e id [] o h k f = ground arith
  replayed-insert_here e id (x ∷ l) o h (k, ks) (f, fs) =
      let next = if str_eq id x.source_id then some (x.state, x.reason_codes) else o in
      let rest = replayed-insert_here e id l next h ks fs in
      elim (Bool-cases (recorded_before e x)) [
        | inl before ↦
            let le = before-le e x before in
            let later =
              replayed-later id e.recorded_at (x ∷ l) (some (e.state, e.reason_codes))
                (le, IsFrom-le e.recorded_at x.recorded_at l le k) (f, fs) in
            ground (arith, later)
        | inr after ↦ ground (arith, rest)
      ]
