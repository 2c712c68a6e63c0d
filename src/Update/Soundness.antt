-- ===== src/Update/Soundness.antt =====
-- The bundle in force through sequences of updates (src/sentinel_edge/update/manager.py).
use sentinel_edge.Prelude.{
  Bool-cases, Option-cases, Result-cases, nat_eq, string_eq, lookup, insert, lookup-insert,
  lookup-insert_self, String, ◌≡◌, refl, sym, ap, subst, ◌∙◌, ◌⊎◌, inl, inr, true, some, List, [],
  ◌∷◌, arith, str_eq, ok,
}
use sentinel_edge.Domain.Kinds.{Instant}
use sentinel_edge.Update.{OfflineUpdateTarget, OfflineUpdateMetadata}
use sentinel_edge.Update.Verification.{
  matches, check_targets, Tools, Tombstones, Tree, Pointer, Updates, OfflineUpdateManager,
  load_metadata, is_signed, check_metadata, verify, metadata_name, signature_name, is_immutable,
}
use sentinel_edge.Update.Manager.{extract, stage, all_match, directory}

module _ (tl : Tools) where
  open tl use {Bytes, canonical_json, bytes_eq}

  -- The directory's metadata carry a signature of the manager's key.
  pub record IsSigned (t : Tree tl) : Type 0 where
    pub signature : Bytes
    pub metadata : Bytes
    pub found : lookup metadata_name t ≡ some metadata
    pub signed : is_signed tl signature metadata ≡ true

  -- The bundle that a pointer names: its files are those of its signed metadata.
  pub record IsInForce (u : Updates tl) (p : Pointer tl) : Type 0 where
    pub tree : Tree tl
    pub found : lookup p.path u.activated ≡ some tree
    pub signed : IsSigned tree
    pub metadata : OfflineUpdateMetadata
    pub loaded : load_metadata tl signed.metadata ≡ some metadata
    pub same_version : p.version ≡ metadata.version
    pub same_digest : p.metadata_sha256 ≡ tl.sha256 signed.metadata
    pub complete : all_match tl tree metadata.targets ≡ true

  pub record IsSound (u : Updates tl) : Type 0 where
    pub staged_signed : (name : String) (t : Tree tl) → lookup name u.staged ≡ some t → IsSigned t
    pub in_force : (p : Pointer tl) → u.pointer ≡ some p → IsInForce u p

  check_metadata-canonical :
      (o : OfflineUpdateManager tl) (t : Tree tl) (signed : Bytes) (m : OfflineUpdateMetadata)
      (tombstones : Tombstones) (now : Instant) (u : Updates tl)
      → check_metadata tl o t signed m tombstones now u ≡ ok tt
      → canonical_json m ≡ signed
  unfolding check_metadata
  check_metadata-canonical o t signed m tombstones now u h =
      (tl.bytes_eq_iff (canonical_json m) signed).0 (ground arith)

  check_targets-matches :
      (t : Tree tl) (g : OfflineUpdateTarget) (gs : List OfflineUpdateTarget)
      → check_targets tl t (g ∷ gs) ≡ ok tt
      → (matches tl t g ≡ true) × (check_targets tl t gs ≡ ok tt)
  unfolding check_targets
  check_targets-matches t g gs h = (ground arith, ground arith)

  -- Targets that were checked are extracted.
  extract-total :
      (t : Tree tl) (gs : List OfflineUpdateTarget) (to : Tree tl)
      → check_targets tl t gs ≡ ok tt
      → (files : Tree tl) × (extract tl t gs to ≡ ok files)
  unfolding extract
  extract-total t [] to h = (to, refl)
  extract-total t (g ∷ gs) to h =
      let (matching, rest) = check_targets-matches t g gs h in
      elim (Option-cases (lookup g.path t)) [
        | inl k ↦ absurd ground arith
        | inr (content, k) ↦
            let (files, extracted) = extract-total t gs (insert g.path content to) rest in
            (files, ground arith)
      ]

  check_metadata-targets :
      (o : OfflineUpdateManager tl) (t : Tree tl) (signed : Bytes) (m : OfflineUpdateMetadata)
      (tombstones : Tombstones) (now : Instant) (u : Updates tl)
      → check_metadata tl o t signed m tombstones now u ≡ ok tt
      → check_targets tl t m.targets ≡ ok tt
  unfolding check_metadata
  check_metadata-targets o t signed m tombstones now u h =
      elim (Result-cases (check_targets tl t m.targets)) [
        | inl (x, k) ↦ k
        | inr (x, k) ↦ absurd ground arith
      ]

  verify-signed :
      (o : OfflineUpdateManager tl) (t : Tree tl) (m : OfflineUpdateMetadata)
      (tombstones : Tombstones) (now : Instant) (u : Updates tl)
      → verify tl o t tombstones now u ≡ ok m
      → (signature : Bytes) × (is_signed tl signature (canonical_json m) ≡ true)
        × (check_targets tl t m.targets ≡ ok tt)
  unfolding verify
  verify-signed o t m tombstones now u h = elim (Option-cases (lookup metadata_name t)) [
    | inl k ↦ absurd ground arith
    | inr (signed, k) ↦ elim (Option-cases (lookup signature_name t)) [
      | inl l ↦ absurd ground arith
      | inr (signature, l) ↦ elim (Option-cases (load_metadata tl signed)) [
        | inl n ↦ absurd ground arith
        | inr (loaded, n) ↦
            elim (Result-cases (check_metadata tl o t signed loaded tombstones now u)) [
              | inr (x, c) ↦ absurd ground arith
              | inl (x, c) ↦
                  let same = check_metadata-canonical o t signed loaded tombstones now u c in
                  let it : loaded ≡ m = ground arith in
                  (
                    signature,
                    subst (λ (b : Bytes). is_signed tl signature b ≡ true)
                        (sym same ∙ ap canonical_json it) (ground arith),
                    ground (
                      arith,
                      check_metadata-targets o t signed loaded tombstones now u c,
                      ap (λ (b : OfflineUpdateMetadata). check_targets tl t b.targets) it,
                    ),
                  )
            ]
      ]
    ]
  ]

  -- The directory is added to the staged ones; nothing else changes.
  pub record IsAdded (u v : Updates tl) : Type 0 where
    pub name : String
    pub tree : Tree tl
    pub signed : IsSigned tree
    pub staged : v.staged ≡ insert name tree u.staged
    pub activated_kept : v.activated ≡ u.activated
    pub pointer_kept : v.pointer ≡ u.pointer

  pub stage-IsAdded :
      (o : OfflineUpdateManager tl) (t : Tree tl) (tombstones : Tombstones) (now : Instant)
      (u : Updates tl)
      → ((stage tl o t tombstones now u).1 ≡ u) ⊎ IsAdded u (stage tl o t tombstones now u).1
  unfolding stage
  stage-IsAdded o t tombstones now u = elim (Bool-cases (is_immutable o.mode)) [
    | inl fixed ↦ inl (ground arith)
    | inr free ↦ elim (Result-cases (verify tl o t tombstones now u)) [
      | inr (x, k) ↦ inl (ground arith)
      | inl (m, k) ↦
          let (signature, valid, checked) = verify-signed o t m tombstones now u k in
          let (files, extracted) = extract-total t m.targets [] checked in
          let tree = insert metadata_name (canonical_json m) files in
          let added : Updates tl = record u { staged = insert (directory tl m) tree u.staged } in
          let same : added ≡ (stage tl o t tombstones now u).1 = ground arith in
          inr (
            subst (IsAdded u) same (record {
              name = directory tl m;
              tree = tree;
              signed = record {
                signature = signature;
                metadata = canonical_json m;
                found = lookup-insert_self metadata_name (canonical_json m) files;
                signed = valid;
              };
              staged = refl;
              activated_kept = refl;
              pointer_kept = refl;
            }))
    ]
  ]

  pub added-IsSound : (u v : Updates tl) → IsSound u → IsAdded u v → IsSound v
  added-IsSound u v s a = record {
    staged_signed = λ name t h.
        let there : lookup name (insert a.name a.tree u.staged) ≡ some t =
          ap (lookup name) (sym a.staged) ∙ h in
        elim (Bool-cases (str_eq name a.name)) [
          | inl here ↦
              let same : a.tree ≡ t = ground (arith, lookup-insert name a.name a.tree u.staged) in
              subst IsSigned same a.signed
          | inr other ↦
              s.staged_signed name t (ground (arith, lookup-insert name a.name a.tree u.staged))
        ];
    in_force = λ p h.
        let f = s.in_force p (sym a.pointer_kept ∙ h) in
        record {
          tree = f.tree;
          found = ap (lookup p.path) a.activated_kept ∙ f.found;
          signed = f.signed;
          metadata = f.metadata;
          loaded = f.loaded;
          same_version = f.same_version;
          same_digest = f.same_digest;
          complete = f.complete;
        };
  }
