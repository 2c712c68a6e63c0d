-- ===== src/Storage/Spool/Laws.antt =====
-- Bounds, order and completeness of the spool (src/sentinel_edge/storage/spool.py).
use sentinel_edge.Prelude.{
  ltb, ◌==◌, Bool-cases, Option-cases, length, keep, first, All, length-append, All-append, Result,
  Result-cases, nat_eq, ℕ, ◌+◌, ◌≤◌, String, ◌≡◌, refl, sym, ap, subst, ◌∙◌, ◌≢◌, ◌⊎◌, inl, inr,
  Bool, true, false, not, ◌||◌, none, List, [], ◌∷◌, ◌++◌, arith, ok, err,
}
use sentinel_edge.Domain.Kinds.{Uuid, Instant}
use sentinel_edge.Domain.Records.{AnalysisResult}
use sentinel_edge.Storage.Spool.{
  PendingRow, Spool, SpoolError, total_bytes, counts, delete_row, is_expired, row_of, enqueue,
  drain_rows, drain, event, delivered,
}

total_bytes-append :
    (xs ys : List PendingRow) → total_bytes (xs ++ ys) ≡ total_bytes xs + total_bytes ys
total_bytes-append [] ys = omega arith
total_bytes-append (r ∷ xs) ys = omega (arith, total_bytes-append xs ys)

abbrev pub Lacks : Uuid → List PendingRow → Type 0
Lacks id rows = All (λ (r : PendingRow). (r.analysis_id == id) ≡ false) rows

abbrev pub Distinct : List PendingRow → Type 0
Distinct [] = Unit
Distinct (r ∷ rows) = Lacks r.analysis_id rows × Distinct rows

module _ {Float : Type 0} (load_json : String → AnalysisResult Float) where
  -- The row's columns agree with its payload.
  abbrev pub IsFaithful : PendingRow → Type 0
  IsFaithful r = (load_json r.payload_json).analysis_id ≡ r.analysis_id

  pub record IsBounded (s : Spool) : Type 0 where
    pub items : length s.pending_analysis ≤ s.max_items
    pub bytes : total_bytes s.pending_analysis ≤ s.max_bytes
    pub distinct : Distinct s.pending_analysis
    pub faithful : All IsFaithful s.pending_analysis

  Distinct-append :
      (rows : List PendingRow) (r : PendingRow)
      → Distinct rows
      → first (λ (q : PendingRow). q.analysis_id == r.analysis_id) rows ≡ none
      → Distinct (rows ++ r ∷ [])
  Distinct-append [] r h k = (tt, tt)
  Distinct-append (q ∷ rows) r h k = (
    All-append (λ (p : PendingRow). (p.analysis_id == q.analysis_id) ≡ false) rows (r ∷ []) h.0
        (ground arith, tt),
    Distinct-append rows r h.1 ground arith,
  )

  keep-Lacks :
      (id : Uuid) (rows : List PendingRow)
      → Lacks id rows
      → keep (λ (r : PendingRow). not (r.analysis_id == id)) rows ≡ rows
  keep-Lacks id [] h = refl
  keep-Lacks id (r ∷ rows) h = ground (arith, keep-Lacks id rows h.1)

  delete_row-head :
      (r : PendingRow) (rows : List PendingRow) (s : Spool)
      → s.pending_analysis ≡ r ∷ rows
      → Lacks r.analysis_id rows
      → (delete_row r.analysis_id s).pending_analysis ≡ rows
  delete_row-head r rows s h k = ground (arith, keep-Lacks r.analysis_id rows k)

  module _ (dump_json : AnalysisResult Float → String) (utf8_length : String → ℕ) where
    -- Enqueueing keeps the spool within its bounds, with one row for an analysis and rows that agree
    -- with their payloads, when reading the analysis's payload gives back the analysis.
    pub enqueue-IsBounded :
        (a : AnalysisResult Float) (at : Instant) (s : Spool)
        (round_trip : load_json (dump_json a) ≡ a)
        → IsBounded s
        → IsBounded (enqueue dump_json utf8_length a at s).1
    unfolding enqueue counts
    enqueue-IsBounded a at s round_trip h =
        let r = row_of dump_json utf8_length a at s in
        elim (Option-cases
          (first (λ (q : PendingRow). q.analysis_id == a.analysis_id) s.pending_analysis)) [
            | inr (old, k) ↦ ground (arith, h)
            | inl k ↦
                elim (Bool-cases (
                  ltb s.max_items (length s.pending_analysis + 1)
                  || ltb s.max_bytes (total_bytes s.pending_analysis + r.payload_bytes))) [
                    | inl m ↦ record {
                      items = ground (arith, h.items);
                      bytes = ground (arith, h.bytes);
                      distinct = ground (arith, h.distinct);
                      faithful = ground (arith, h.faithful);
                    }
                    | inr m ↦ record {
                      items = ground (arith, length-append s.pending_analysis (r ∷ []));
                      bytes = ground (arith, total_bytes-append s.pending_analysis (r ∷ []));
                      distinct = ground (arith, Distinct-append s.pending_analysis r h.distinct k);
                      faithful = ground (
                        arith,
                        All-append IsFaithful s.pending_analysis (r ∷ []) h.faithful
                            (ap (λ b. b.analysis_id) round_trip, tt),
                      );
                    }
                  ]
          ]

  module _ {H : Type 0} (handler : AnalysisResult Float → H → Result String (Unit {0}) × H) where
    abbrev pub ids_of : List PendingRow → List Uuid
    ids_of [] = []
    ids_of (r ∷ rows) = r.analysis_id ∷ ids_of rows

    -- The handler was called on the analyses of the rows, in order, each time in the state that the
    -- call before left, and returned each time.
    abbrev pub Handled : List PendingRow → H → H → Type 0
    Handled [] h h' = h ≡ h'
    Handled (r ∷ rows) h h' =
        ((handler (load_json r.payload_json) h).0 ≡ ok tt)
        × Handled rows (handler (load_json r.payload_json) h).1 h'

    -- Why a drain stops in a state of the handler, and the state that it leaves: no row is left, the
    -- next one has expired, or the handler raises on its analysis.
    abbrev pub Stops : Instant → List PendingRow → H → H → Type 0
    Stops now [] h h' = h ≡ h'
    Stops now (r ∷ rows) h h' =
        ((is_expired now r ≡ true) × (h ≡ h'))
        ⊎ ((is_expired now r ≡ false)
            × (x : String) × ((handler (load_json r.payload_json) h).0 ≡ err x)
            × ((handler (load_json r.payload_json) h).1 ≡ h'))

    -- What a drain leaves: the delivered rows were the first ones, in order, none of them expired,
    -- and the handler took each of them.
    pub record IsDrained (now : Instant) (rows : List PendingRow) (h : H) (ids : List Uuid)
        (t : Spool) (h' : H) : Type 0 where
      pub sent : List PendingRow
      pub split : rows ≡ sent ++ t.pending_analysis
      pub listed : ids ≡ ids_of sent
      pub fresh : All (λ (r : PendingRow). is_expired now r ≡ false) sent
      pub between : H
      pub handled : Handled sent h between
      pub stopped : Stops now t.pending_analysis between h'

    drain_rows-IsDrained :
        (rows : List PendingRow) (now : Instant) (s : Spool) (h : H)
        → s.pending_analysis ≡ rows
        → Distinct rows
        → All IsFaithful rows
        → IsDrained now rows h
            (drain_rows load_json handler rows now s h).0
            (drain_rows load_json handler rows now s h).1
            (drain_rows load_json handler rows now s h).2
    unfolding drain_rows
    drain_rows-IsDrained [] now s h e d f = record {
      sent = [];
      split = ground arith;
      listed = refl;
      fresh = tt;
      between = h;
      handled = refl;
      stopped = subst (λ (q : List PendingRow). Stops now q h h) (sym e) refl;
    }
    drain_rows-IsDrained (r ∷ rows) now s h e d f = elim (Bool-cases (is_expired now r)) [
      | inl k ↦
          let left : (drain_rows load_json handler (r ∷ rows) now s h).1.pending_analysis
              ≡ r ∷ rows =
            ground arith in
          record {
            sent = [];
            split = sym left;
            listed = ground arith;
            fresh = tt;
            between = h;
            handled = refl;
            stopped =
                subst
                  (λ (q : List PendingRow).
                    Stops now q h (drain_rows load_json handler (r ∷ rows) now s h).2)
                  (sym left) (inl (k, ground arith));
          }
      | inr k ↦ elim (Result-cases (handler (load_json r.payload_json) h).0) [
        | inr (x, m) ↦
            let left : (drain_rows load_json handler (r ∷ rows) now s h).1.pending_analysis
                ≡ r ∷ rows =
              ground arith in
            record {
              sent = [];
              split = sym left;
              listed = ground arith;
              fresh = tt;
              between = h;
              handled = refl;
              stopped =
                  subst
                    (λ (q : List PendingRow).
                      Stops now q h (drain_rows load_json handler (r ∷ rows) now s h).2)
                    (sym left) (inr (k, x, m, ground arith));
            }
        | inl (u, m) ↦
            let a = load_json r.payload_json in
            let done =
              event a.analysis_id delivered now none r.payload_bytes (delete_row a.analysis_id s) in
            let all = drain_rows load_json handler (r ∷ rows) now s h in
            let others = drain_rows load_json handler rows now done (handler a h).1 in
            let spools : others.1 ≡ all.1 = ground arith in
            let states : others.2 ≡ all.2 = ground arith in
            let rest =
              drain_rows-IsDrained rows now done (handler a h).1
                (ap (λ id. (delete_row id s).pending_analysis) f.0 ∙ delete_row-head r rows s e d.0)
                d.1 f.1 in
            record {
              sent = r ∷ rest.sent;
              split = ground (arith, rest.split);
              listed = ground (arith, rest.listed, f.0);
              fresh = ground (arith, rest.fresh);
              between = rest.between;
              handled = (m, rest.handled);
              stopped =
                  subst (λ (v : Spool). Stops now v.pending_analysis rest.between all.2) spools
                    (subst (λ (g : H). Stops now others.1.pending_analysis rest.between g) states
                      rest.stopped);
            }
      ]
    ]

    -- Draining a spool within its bounds delivers the first rows of its queue, in their order, none of
    -- them expired, and what is left pending is exactly the other rows, in their order. The handler
    -- was called on each delivered analysis, in order, and returned. The drain stops only where no row
    -- is left, the next row has expired, or the handler, in the state that the deliveries left it in,
    -- raises on its analysis.
    pub drain-IsDrained :
        (now : Instant) (s : Spool) (h : H)
        → IsBounded s
        → IsDrained now s.pending_analysis h
            (drain load_json handler now s h).0
            (drain load_json handler now s h).1
            (drain load_json handler now s h).2
    unfolding drain
    drain-IsDrained now s h b =
        drain_rows-IsDrained s.pending_analysis now s h refl b.distinct b.faithful

module _ {Float : Type 0} (dump_json : AnalysisResult Float → String)
    (utf8_length : String → ℕ) where
  -- What an enqueue does to the pending rows: none are lost or moved. They get a row at their end
  -- when the call returns true, and stay as they are otherwise.
  pub enqueue-pending :
      (a : AnalysisResult Float) (at : Instant) (s t : Spool) (o : Result SpoolError Bool)
      → enqueue dump_json utf8_length a at s ≡ (o, t)
      → ((o ≡ ok true)
          × (t.pending_analysis ≡ s.pending_analysis ++ row_of dump_json utf8_length a at s ∷ []))
        ⊎ ((o ≢ ok true) × (t.pending_analysis ≡ s.pending_analysis))
  unfolding enqueue counts
  enqueue-pending a at s t o h = ground arith
