-- ===== src/Projections/Buffer/Deliveries.antt =====
-- What a client receives (src/sentinel_edge/projections/service.py).
use sentinel_edge.Prelude.{
  Bool-cases, length, length-append, ℕ, zero, suc, ◌≤◌, ◌<◌, ◌≡◌, refl, sym, ap, subst, ◌∙◌, ◌⊎◌,
  inl, inr, true, Option, List, [], ◌∷◌, ◌++◌, arith,
}
use sentinel_edge.Projections.Buffer.{ClientBuffer, offer, take_front, drain_count, drain}

-- The calls between two resynchronisations.
pub data Call (A : Type 0) : Type 0 where
  offering : A → Call A
  draining : Option ℕ → Call A

module _ {A : Type 0} where
  -- The projections offered and the projections delivered, each in the order of the calls.
  unfoldable pub run : List (Call A) → ClientBuffer A → List A × List A × ClientBuffer A
  run [] b = ([], [], b)
  run (offering p ∷ calls) b =
      let (offered, received, b') = run calls (offer p b).1 in (p ∷ offered, received, b')
  run (draining limit ∷ calls) b =
      let (front, b') = drain limit b in
      let (offered, received, b'') = run calls b' in (offered, front ++ received, b'')

  take_front-append : (n : ℕ) (l : List A) → (take_front n l).0 ++ (take_front n l).1 ≡ l
  take_front-append zero l = refl
  take_front-append (suc n) [] = refl
  take_front-append (suc n) (x ∷ l) = ap (λ k. x ∷ k) (take_front-append n l)

  length-take_front : (n : ℕ) (l : List A) → length (take_front n l).1 ≤ length l
  length-take_front zero l = omega arith
  length-take_front (suc n) [] = omega arith
  length-take_front (suc n) (x ∷ l) = omega (arith, length-take_front n l)

  append_assoc : (a b c : List A) → a ++ b ++ c ≡ a ++ (b ++ c)
  append_assoc [] b c = refl
  append_assoc (x ∷ a) b c = ap (λ k. x ∷ k) (append_assoc a b c)

  append-cons : (a : List A) (x : A) (c : List A) → (a ++ x ∷ []) ++ c ≡ a ++ x ∷ c
  append-cons [] x c = refl
  append-cons (y ∷ a) x c = ap (λ k. y ∷ k) (append-cons a x c)

  append-nil : (a : List A) → a ++ [] ≡ a
  append-nil [] = refl
  append-nil (x ∷ a) = ap (λ k. x ∷ k) (append-nil a)

  -- How an offer leaves the buffer: as it was or emptied, with a resynchronisation required, or with
  -- the projection at its end.
  offer-cases :
      (p : A) (b : ClientBuffer A)
      → ((offer p b).1.resync_required ≡ true
          × length (offer p b).1.items ≤ length b.items
          × ((offer p b).1.capacity ≡ b.capacity))
        ⊎ ((length b.items < b.capacity) × ((offer p b).1 ≡ record b { items = b.items ++ p ∷ [] }))
  unfolding offer
  offer-cases p b = ground arith

  drain-cases :
      (limit : Option ℕ) (b : ClientBuffer A)
      → ((b.resync_required ≡ true) × (drain limit b ≡ ([], b)))
        ⊎ ((n : ℕ) × (drain limit b
              ≡ ((take_front n b.items).0, record b { items = (take_front n b.items).1 })))
  unfolding drain
  drain-cases limit b = elim (Bool-cases b.resync_required) [
    | inl h ↦ inl (h, ground arith)
    | inr h ↦ inr (drain_count limit b, ground arith)
  ]

  offer-resync : (p : A) (b : ClientBuffer A) → b.resync_required ≡ true → (offer p b).1 ≡ b
  unfolding offer
  offer-resync p b h = ground arith

  drain-resync :
      (limit : Option ℕ) (b : ClientBuffer A) → b.resync_required ≡ true → drain limit b ≡ ([], b)
  unfolding drain
  drain-resync limit b h = ground arith

  run-resync :
      (calls : List (Call A)) (b : ClientBuffer A)
      → b.resync_required ≡ true
      → (run calls b).2.resync_required ≡ true
  unfolding run
  run-resync [] b h = h
  run-resync (offering p ∷ calls) b h =
      ap (λ (d : ClientBuffer A). (run calls d).2.resync_required) (offer-resync p b h)
      ∙ run-resync calls b h
  run-resync (draining limit ∷ calls) b h =
      ap (λ (d : List A × ClientBuffer A). (run calls d.1).2.resync_required)
        (drain-resync limit b h)
      ∙ run-resync calls b h

  abbrev pub Delivers : List (Call A) → ClientBuffer A → Type 0
  Delivers calls b =
      (length (run calls b).2.items ≤ b.capacity)
      × (((run calls b).2.resync_required ≡ true)
          ⊎ (b.items ++ (run calls b).0 ≡ (run calls b).1 ++ (run calls b).2.items))

  -- A buffer within its capacity stays within it. At the end of a run of offers and drains it either
  -- requires a resynchronisation, or the client has received the buffered and the offered
  -- projections in their order without a gap, up to those that the buffer still holds.
  pub run-Delivers :
      (calls : List (Call A)) (b : ClientBuffer A) → length b.items ≤ b.capacity → Delivers calls b
  unfolding run
  run-Delivers [] b h = (h, inr (append-nil b.items))
  run-Delivers (offering p ∷ calls) b h = elim (offer-cases p b) [
    | inl (required, shorter, same) ↦
        let rest = run-Delivers calls (offer p b).1 (ground arith) in
        (ground (arith, rest.0), inl (run-resync calls (offer p b).1 required))
    | inr (room, same) ↦
        let d : ClientBuffer A = record b { items = b.items ++ p ∷ [] } in
        let (bound, rest) = run-Delivers calls d (ground (arith, length-append b.items (p ∷ []))) in
        subst
          (λ (k : ClientBuffer A).
            (length (run calls k).2.items ≤ b.capacity)
            × (((run calls k).2.resync_required ≡ true)
                ⊎ (b.items ++ p ∷ (run calls k).0 ≡ (run calls k).1 ++ (run calls k).2.items)))
          (sym same)
          (
            bound,
            elim rest [
              | inl r ↦ inl r
              | inr e ↦ inr (sym (append-cons b.items p (run calls d).0) ∙ e)
            ],
          )
  ]
  run-Delivers (draining limit ∷ calls) b h = elim (drain-cases limit b) [
    | inl (required, same) ↦
        let rest = run-Delivers calls b h in
        subst
          (λ (k : List A × ClientBuffer A).
            (length (run calls k.1).2.items ≤ b.capacity)
            × (((run calls k.1).2.resync_required ≡ true)
                ⊎ (b.items ++ (run calls k.1).0
                    ≡ (k.0 ++ (run calls k.1).1) ++ (run calls k.1).2.items)))
          (sym same) rest
    | inr (n, same) ↦
        let front = (take_front n b.items).0 in
        let d : ClientBuffer A = record b { items = (take_front n b.items).1 } in
        let (bound, rest) = run-Delivers calls d (omega (arith, h, length-take_front n b.items)) in
        subst
          (λ (k : List A × ClientBuffer A).
            (length (run calls k.1).2.items ≤ b.capacity)
            × (((run calls k.1).2.resync_required ≡ true)
                ⊎ (b.items ++ (run calls k.1).0
                    ≡ (k.0 ++ (run calls k.1).1) ++ (run calls k.1).2.items)))
          (sym same)
          (
            bound,
            elim rest [
              | inl r ↦ inl r
              | inr e ↦ inr (
                  ap (λ l. l ++ (run calls d).0) (sym (take_front-append n b.items))
                  ∙ append_assoc front d.items (run calls d).0
                  ∙ ap (λ l. front ++ l) e
                  ∙ sym (append_assoc front (run calls d).1 (run calls d).2.items))
            ],
          )
  ]
