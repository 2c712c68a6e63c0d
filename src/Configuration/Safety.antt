-- ===== src/Configuration/Safety.antt =====
-- The active configuration through activations (src/sentinel_edge/configuration/manager.py).
use sentinel_edge.Prelude.{
  Bool-cases, All, All-append, nat_eq, String, ◌≡◌, refl, sym, ap, subst, ◌∙◌, inl, inr, not, ◌&&◌,
  Option, none, some, List, [], ◌∷◌, ◌++◌, arith, str_eq, eq_iff,
}
use sentinel_edge.Configuration.{ConfigurationState, ConfigurationBundle, key}
use sentinel_edge.Configuration.Store.{
  BundleRow, ConfigurationStore, row_for, set_bundle_state, demoted,
}

-- A bundle with its digest.
abbrev pub Content : Type 0
Content = ConfigurationBundle × String

abbrev pub content_of : Option BundleRow → Option Content
content_of none = none
content_of (some r) = some (r.bundle, r.bundle_sha256)

content_of-set_bundle_state :
    (k j : String) (state : ConfigurationState) (rows : List BundleRow)
    → content_of (row_for k (set_bundle_state j state rows)) ≡ content_of (row_for k rows)
unfolding set_bundle_state
content_of-set_bundle_state k j state [] = refl
content_of-set_bundle_state k j state (r ∷ rows) =
    ground (arith, content_of-set_bundle_state k j state rows)

-- The rows stand under the keys of their bundles.
abbrev pub AreFiled : List BundleRow → Type 0
AreFiled rows = All (λ (r : BundleRow). r.bundle_key ≡ key r.bundle) rows

AreFiled-set_bundle_state :
    (j : String) (state : ConfigurationState) (rows : List BundleRow)
    → AreFiled rows
    → AreFiled (set_bundle_state j state rows)
unfolding set_bundle_state
AreFiled-set_bundle_state j state [] h = tt
AreFiled-set_bundle_state j state (r ∷ rows) h =
    ground (arith, AreFiled-set_bundle_state j state rows h.1)

-- A key has a bundle, and it is the bundle's key.
pub record IsKnown (rows : List BundleRow) (k : String) : Type 0 where
  pub bundle : ConfigurationBundle
  pub sha256 : String
  pub found : content_of (row_for k rows) ≡ some (bundle, sha256)
  pub named : key bundle ≡ k

abbrev pub PointsAt : List BundleRow → Option String → Type 0
PointsAt rows none = Unit
PointsAt rows (some k) = IsKnown rows k

pub record IsValid (s : ConfigurationStore) : Type 0 where
  pub filed : AreFiled s.configuration_bundles
  pub points : PointsAt s.configuration_bundles s.active_bundle_key

-- Rows that keep the bundles and the digests of other rows, and are filed.
pub record Extends (rows more : List BundleRow) : Type 0 where
  pub filed : AreFiled more
  pub keeps :
      (k : String) (c : Content)
      → content_of (row_for k rows) ≡ some c
      → content_of (row_for k more) ≡ some c

pub Extends_refl : (rows : List BundleRow) → AreFiled rows → Extends rows rows
Extends_refl rows h = record { filed = h; keeps = λ k c m. m }

pub Extends_trans : (a b c : List BundleRow) → Extends a b → Extends b c → Extends a c
Extends_trans a b c h k = record { filed = k.filed; keeps = λ j x m. k.keeps j x (h.keeps j x m) }

pub Extends-set_bundle_state :
    (j : String) (state : ConfigurationState) (rows : List BundleRow)
    → AreFiled rows
    → Extends rows (set_bundle_state j state rows)
Extends-set_bundle_state j state rows h = record {
  filed = AreFiled-set_bundle_state j state rows h;
  keeps = λ k c m. content_of-set_bundle_state k j state rows ∙ m;
}

pub PointsAt-Extends :
    (rows more : List BundleRow) (k : Option String)
    → Extends rows more
    → PointsAt rows k
    → PointsAt more k
PointsAt-Extends rows more none h p = tt
PointsAt-Extends rows more (some k) h p = record {
  bundle = p.bundle;
  sha256 = p.sha256;
  found = h.keeps k (p.bundle, p.sha256) p.found;
  named = p.named;
}

pub filed-row :
    (k : String) (rows : List BundleRow) (r : BundleRow)
    → AreFiled rows
    → row_for k rows ≡ some r
    → key r.bundle ≡ k
filed-row k [] r h e = ground arith
filed-row k (q ∷ rows) r h e = elim (Bool-cases (str_eq q.bundle_key k)) [
  | inl m ↦
      let same : q ≡ r = ground arith in
      ap (λ (x : BundleRow). key x.bundle) (sym same) ∙ sym h.0 ∙ (eq_iff q.bundle_key k).0 m
  | inr m ↦ filed-row k rows r h.1 ground arith
]

row_for-append :
    (k : String) (rows : List BundleRow) (r : BundleRow) (b : Content)
    → content_of (row_for k rows) ≡ some b
    → content_of (row_for k (rows ++ r ∷ [])) ≡ some b
row_for-append k [] r b h = ground arith
row_for-append k (q ∷ rows) r b h = ground (arith, row_for-append k rows r b)

pub Extends-append :
    (rows : List BundleRow) (r : BundleRow)
    → AreFiled rows
    → r.bundle_key ≡ key r.bundle
    → Extends rows (rows ++ r ∷ [])
Extends-append rows r h e = record {
  filed = All-append (λ (x : BundleRow). x.bundle_key ≡ key x.bundle) rows (r ∷ []) h (e, tt);
  keeps = λ k c m. row_for-append k rows r c m;
}

pub Extends-demoted :
    (p : Option String) (k : String) (rows : List BundleRow)
    → AreFiled rows
    → Extends rows (demoted p k rows)
Extends-demoted none k rows h = Extends_refl rows h
Extends-demoted (some p) k rows h = elim (Bool-cases (not (str_eq p "") && not (str_eq p k))) [
  | inl m ↦
      subst (Extends rows) (ground arith)
        (Extends-set_bundle_state p ConfigurationState.last_known_good rows h)
  | inr m ↦ subst (Extends rows) (ground arith) (Extends_refl rows h)
]
