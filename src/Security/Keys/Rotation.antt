-- ===== src/Security/Keys/Rotation.antt =====
-- A registration leaves one active generation (src/sentinel_edge/security/key_lifecycle.py).
use sentinel_edge.Prelude.{
  leb, if◌then◌else◌, Bool-cases, Option-cases, first, Result-cases, ℕ, ◌≡◌, refl, sym, ap, ◌∙◌,
  inl, inr, Bool, true, false, ◌&&◌, none, List, [], ◌∷◌, ◌++◌, arith, str_eq, eq_iff, ok,
}
use sentinel_edge.Security.Keys.{
  KeyPurpose, KeyState, KeyIdentityRecord, EventFields, KeyRow, Registry, Crypto, action_to_state,
  is_row, set_state, active_generations, descending, maximum, same_purpose,
}
use sentinel_edge.Security.Keys.Registration.{
  load, Transition, append_event, fields_of, transition_locked, Registration, record_of, retirement,
  retire_all, is_nonempty, with_row, register, first_fields,
}
use sentinel_edge.Security.Keys.Generations.{
  remove_all, active_generations-set_state, active_generations-append, remove_all-descending,
  newest_among, among,
}

module _ (cr : Crypto) where
  append_event-rows :
      (f : EventFields) (g g' : Registry)
      → append_event cr f g ≡ ok g'
      → g'.key_identities ≡ g.key_identities
  unfolding append_event
  append_event-rows f g g' h = ground arith

  transition_locked-rows :
      (t : Transition) (g g' : Registry)
      → transition_locked cr t g ≡ ok g'
      → g'.key_identities
        ≡ set_state t.identity_id t.generation t.purpose (action_to_state t.action) g.key_identities
  unfolding transition_locked
  transition_locked-rows t g g' h =
      elim (Option-cases (load t.identity_id t.generation t.purpose g)) [
        | inl k ↦ absurd ground arith
        | inr (r, k) ↦ elim (Result-cases (append_event cr (fields_of cr t r.state) g)) [
          | inr (x, m) ↦ absurd ground arith
          | inl (d, m) ↦ ground (arith, append_event-rows (fields_of cr t r.state) g d m)
        ]
      ]

  retire_all-rows :
      (a : Registration cr) (ns : List ℕ) (g g' : Registry)
      → retire_all cr a ns g ≡ ok g'
      → active_generations a.identity_id a.purpose g'.key_identities
        ≡ remove_all ns (active_generations a.identity_id a.purpose g.key_identities)
  unfolding retire_all
  retire_all-rows a [] g g' h = ground arith
  retire_all-rows a (n ∷ ns) g g' h =
      elim (Result-cases (transition_locked cr (retirement cr a n) g)) [
        | inr (x, m) ↦ absurd ground arith
        | inl (d, m) ↦
            retire_all-rows a ns d g' (ground arith)
            ∙ ap
                (λ (rows : List KeyRow).
                  remove_all ns (active_generations a.identity_id a.purpose rows))
                (transition_locked-rows (retirement cr a n) g d m)
            ∙ ap (remove_all ns)
                (active_generations-set_state a.identity_id n a.purpose g.key_identities)
      ]

  beyond :
      (x : ℕ) (ns : List ℕ) → (is_nonempty cr ns && leb x (maximum ns)) ≡ false → among x ns ≡ false
  beyond x [] h = refl
  beyond x (n ∷ ns) h = newest_among (n ∷ ns) x ground arith

  same_purpose_refl : (p : KeyPurpose) → same_purpose p p ≡ true
  same_purpose_refl p = ground arith

  new_row-counts :
      (a : Registration cr) (s : Bool)
      → s ≡ same_purpose a.purpose a.purpose
      → (if str_eq a.identity_id a.identity_id && s && true then a.generation ∷ [] else [])
        ≡ a.generation ∷ []
  new_row-counts a s h =
      ground (arith, eq_iff a.identity_id a.identity_id, same_purpose_refl a.purpose)

  registered_rows :
      (a : Registration cr) (g d g' : Registry)
      → (is_nonempty cr (descending (active_generations a.identity_id a.purpose g.key_identities))
          && leb a.generation
              (maximum (descending (active_generations a.identity_id a.purpose g.key_identities))))
        ≡ false
      → d.key_identities ≡ (with_row cr a g).key_identities
      → retire_all cr a (descending (active_generations a.identity_id a.purpose g.key_identities)) d
        ≡ ok g'
      → active_generations a.identity_id a.purpose g'.key_identities ≡ a.generation ∷ []
  registered_rows a g d g' newer rows done =
      let live = active_generations a.identity_id a.purpose g.key_identities in
      let row : KeyRow = record { payload = record_of cr a; current_state = KeyState.active } in
      retire_all-rows a (descending live) d g' done
      ∙ ap
          (λ (r : List KeyRow).
            remove_all (descending live) (active_generations a.identity_id a.purpose r))
          rows
      ∙ ap (remove_all (descending live)) (
          active_generations-append a.identity_id a.purpose g.key_identities row
          ∙ ap (λ (l : List ℕ). live ++ l)
              (new_row-counts a (same_purpose a.purpose a.purpose) refl))
      ∙ remove_all-descending live a.generation (beyond a.generation (descending live) newer)

  -- After a key that was not registered before is, it is the only active generation of its identity
  -- for its purpose.
  pub register-sole :
      (a : Registration cr) (r : KeyIdentityRecord) (g g' : Registry)
      → first (is_row a.identity_id a.generation a.purpose) g.key_identities ≡ none
      → register cr a g ≡ ok (r, g')
      → active_generations a.identity_id a.purpose g'.key_identities ≡ a.generation ∷ []
  unfolding register
  register-sole a r g g' n h =
      let prior = descending (active_generations a.identity_id a.purpose g.key_identities) in
      let first_event = first_fields cr a (is_nonempty cr prior) in
      elim (Bool-cases (is_nonempty cr prior && leb a.generation (maximum prior))) [
        | inl k ↦ absurd ground arith
        | inr k ↦ elim (Result-cases (append_event cr first_event (with_row cr a g))) [
          | inr (x, m) ↦ absurd ground arith
          | inl (d, m) ↦ elim (Result-cases (retire_all cr a prior d)) [
            | inr (x, l) ↦ absurd ground arith
            | inl (e, l) ↦
                let same : e ≡ g' = ground arith in
                ap (λ (x : Registry). active_generations a.identity_id a.purpose x.key_identities)
                  (sym same)
                ∙ registered_rows a g d e k (append_event-rows first_event (with_row cr a g) d m) l
          ]
        ]
      ]
