-- ===== src/Configuration/Activation.antt =====
-- What an activation leaves in force (src/sentinel_edge/configuration/manager.py).
use sentinel_edge.Prelude.{
  if◌then◌else◌, Bool-cases, Option-cases, first-append, Result-cases, nat_eq, String, ◌≡◌, refl,
  sym, ap, subst, ◌∙◌, inl, inr, Option, none, some, List, [], ◌∷◌, ◌++◌, arith, str_eq, eq_iff, ok,
}
use sentinel_edge.Configuration.{
  ConfigurationState, ConfigurationBundle, ConfigurationActivationRecord, key, bundle_key,
}
use sentinel_edge.Configuration.Store
use sentinel_edge.Configuration.Store.{
  BundleRow, ConfigurationStore, row_for, set_bundle_state, insert_activation, demoted, restored,
  bundle_for_key,
}
use sentinel_edge.Configuration.Safety.{
  content_of, AreFiled, PointsAt, Extends, Extends_refl, Extends_trans, Extends-set_bundle_state,
  Extends-demoted, Extends-append, filed-row,
}

Extends-restored :
    (candidate : String) (p : Option String) (rows : List BundleRow)
    → AreFiled rows
    → Extends rows (restored candidate p rows)
Extends-restored candidate none rows h =
    Extends-set_bundle_state candidate ConfigurationState.rolled_back rows h
Extends-restored candidate (some p) rows h =
    let middle = if str_eq p "" then rows else set_bundle_state p ConfigurationState.active rows in
    let step : Extends rows middle = elim (Bool-cases (str_eq p "")) [
      | inl m ↦ subst (Extends rows) (ground arith) (Extends_refl rows h)
      | inr m ↦
          subst (Extends rows) (ground arith)
            (Extends-set_bundle_state p ConfigurationState.active rows h)
    ] in
    Extends_trans rows middle (set_bundle_state candidate ConfigurationState.rolled_back middle)
      step (Extends-set_bundle_state candidate ConfigurationState.rolled_back middle step.filed)

insert_activation-ok :
    (a : ConfigurationActivationRecord) (s t : ConfigurationStore)
    → insert_activation a s ≡ ok t
    → (t.configuration_bundles
        ≡ set_bundle_state (bundle_key a.bundle_id a.version) a.state s.configuration_bundles)
      × (t.active_bundle_key ≡ s.active_bundle_key)
unfolding insert_activation
insert_activation-ok a s t h = ground arith

pub insert_activation-Extends :
    (a : ConfigurationActivationRecord) (s t : ConfigurationStore)
    → AreFiled s.configuration_bundles
    → insert_activation a s ≡ ok t
    → Extends s.configuration_bundles t.configuration_bundles
      × (t.active_bundle_key ≡ s.active_bundle_key)
insert_activation-Extends a s t f h =
    let (rows, pointer) = insert_activation-ok a s t h in
    (
      subst (Extends s.configuration_bundles) (sym rows) (
          Extends-set_bundle_state (bundle_key a.bundle_id a.version) a.state
            s.configuration_bundles f),
      pointer,
    )

pub activate-Extends :
    (b : ConfigurationBundle) (a : ConfigurationActivationRecord) (s t : ConfigurationStore)
    → AreFiled s.configuration_bundles
    → Store.activate b a s ≡ ok t
    → Extends s.configuration_bundles t.configuration_bundles × (t.active_bundle_key ≡ some (key b))
unfolding Store.activate
activate-Extends b a s t f h =
    let rows = demoted s.active_bundle_key (key b) s.configuration_bundles in
    let d : ConfigurationStore = record s { configuration_bundles = rows } in
    let step = Extends-demoted s.active_bundle_key (key b) s.configuration_bundles f in
    elim (Result-cases (insert_activation a d)) [
      | inr (x, m) ↦ absurd ground arith
      | inl (u, m) ↦
          let (more, pointer) = insert_activation-Extends a d u step.filed m in
          let same : u.configuration_bundles ≡ t.configuration_bundles = ground arith in
          (
            subst (Extends s.configuration_bundles) same
                (Extends_trans s.configuration_bundles rows u.configuration_bundles step more),
            ground arith,
          )
    ]

abbrev pub key_of : Option ConfigurationBundle → Option String
key_of none = none
key_of (some b) = some (key b)

pub rollback-Extends :
    (b : ConfigurationBundle) (previous : Option ConfigurationBundle)
    (a : ConfigurationActivationRecord) (s t : ConfigurationStore)
    → AreFiled s.configuration_bundles
    → Store.rollback b previous a s ≡ ok t
    → Extends s.configuration_bundles t.configuration_bundles
      × (t.active_bundle_key ≡ key_of previous)
unfolding Store.rollback
rollback-Extends b previous a s t f h = elim (Result-cases (insert_activation a s)) [
  | inr (x, m) ↦ absurd ground arith
  | inl (u, m) ↦
      let (more, pointer) = insert_activation-Extends a s u f m in
      let rows = restored (key b) (key_of previous) u.configuration_bundles in
      let same : rows ≡ t.configuration_bundles = ground arith in
      (
        subst (Extends s.configuration_bundles) same (
            Extends_trans s.configuration_bundles u.configuration_bundles rows more
              (Extends-restored (key b) (key_of previous) u.configuration_bundles more.filed)),
        ground arith,
      )
]

bundle_for_key-key :
    (s : ConfigurationStore) (o : Option String)
    → PointsAt s.configuration_bundles o
    → key_of (bundle_for_key o s) ≡ o
unfolding bundle_for_key
bundle_for_key-key s none p = refl
bundle_for_key-key s (some k) p = elim (Option-cases (row_for k s.configuration_bundles)) [
  | inl m ↦ absurd ground (arith, p.found)
  | inr (r, m) ↦
      let same : r.bundle ≡ p.bundle = ground (arith, p.found) in
      ground (arith, ap key same ∙ p.named)
]

-- The pointer is the key of the active bundle.
pub active-key :
    (s : ConfigurationStore)
    → PointsAt s.configuration_bundles s.active_bundle_key
    → key_of (Store.active s) ≡ s.active_bundle_key
unfolding Store.active
active-key s p = bundle_for_key-key s s.active_bundle_key p

-- What stands under the active key is in force.
pub active-content :
    (s : ConfigurationStore) (k : String) (b : ConfigurationBundle) (sha256 : String)
    → s.active_bundle_key ≡ some k
    → content_of (row_for k s.configuration_bundles) ≡ some (b, sha256)
    → Store.active s ≡ some b
unfolding Store.active bundle_for_key
active-content s k b sha256 h f = elim (Option-cases (row_for k s.configuration_bundles)) [
  | inl m ↦ absurd ground (arith, f)
  | inr (r, m) ↦ ground (arith, f)
]

pub active-none : (s : ConfigurationStore) → s.active_bundle_key ≡ none → Store.active s ≡ none
unfolding Store.active bundle_for_key
active-none s h = ground arith

-- A store with the same pointer and rows that extend those of a valid one has the same configuration
-- in force.
pub active-Extends :
    (s t : ConfigurationStore) (o : Option String)
    → s.active_bundle_key ≡ o
    → t.active_bundle_key ≡ o
    → PointsAt s.configuration_bundles o
    → Extends s.configuration_bundles t.configuration_bundles
    → Store.active t ≡ Store.active s
active-Extends s t none h k p x = active-none t k ∙ sym (active-none s h)
active-Extends s t (some j) h k p x =
    active-content t j p.bundle p.sha256 k (x.keeps j (p.bundle, p.sha256) p.found)
    ∙ sym (active-content s j p.bundle p.sha256 h p.found)

-- A staged bundle's key has a bundle of its digest.
pub record IsStaged (b : ConfigurationBundle) (sha256 : String) (s t : ConfigurationStore)
    : Type 0 where
  pub more : Extends s.configuration_bundles t.configuration_bundles
  pub bundle : ConfigurationBundle
  pub found : content_of (row_for (key b) t.configuration_bundles) ≡ some (bundle, sha256)
  pub named : key bundle ≡ key b
  pub pointer : t.active_bundle_key ≡ s.active_bundle_key

row_for-last :
    (k : String) (rows : List BundleRow) (r : BundleRow)
    → row_for k rows ≡ none
    → r.bundle_key ≡ k
    → row_for k (rows ++ r ∷ []) ≡ some r
row_for-last k rows r h e =
    first-append (λ (q : BundleRow). str_eq q.bundle_key k) rows r h
    ∙ ground (arith, (eq_iff r.bundle_key k).1 e)

pub stage-IsStaged :
    (b : ConfigurationBundle) (sha256 artifact_ref : String) (s t : ConfigurationStore)
    → AreFiled s.configuration_bundles
    → Store.stage b sha256 artifact_ref s ≡ ok t
    → IsStaged b sha256 s t
unfolding Store.stage
stage-IsStaged b sha256 artifact_ref s t f h =
    elim (Option-cases (row_for (key b) s.configuration_bundles)) [
      | inr (r, m) ↦
          let same : s ≡ t = ground arith in
          subst (IsStaged b sha256 s) same (record {
            more = Extends_refl s.configuration_bundles f;
            bundle = r.bundle;
            found =
                ap content_of m
                ∙ ap (λ (x : String). some (r.bundle, x))
                    ((eq_iff r.bundle_sha256 sha256).0 (ground arith));
            named = filed-row (key b) s.configuration_bundles r f m;
            pointer = refl;
          })
      | inl m ↦
          let r : BundleRow = record {
            bundle_key = key b;
            state = ConfigurationState.staged;
            bundle_sha256 = sha256;
            artifact_ref = artifact_ref;
            bundle = b;
          } in
          let u : ConfigurationStore = record s {
            configuration_bundles = s.configuration_bundles ++ r ∷ [];
          } in
          let same : u ≡ t = ground arith in
          subst (IsStaged b sha256 s) same (record {
            more = Extends-append s.configuration_bundles r f refl;
            bundle = b;
            found = ap content_of (row_for-last (key b) s.configuration_bundles r m refl);
            named = refl;
            pointer = refl;
          })
    ]
