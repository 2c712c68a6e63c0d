-- ===== src/Update/Activation.antt =====
-- The bundle in force, with its version, through sequences of updates (src/sentinel_edge/update/manager.py).
use sentinel_edge.Prelude.{
  leb, Bool-cases, Option-cases, Result-cases, nat_eq, string_eq, lookup, lookup-insert_self, ◌≤◌,
  ◌<◌, String, ◌≡◌, refl, sym, ap, subst, ◌∙◌, ◌⊎◌, inl, inr, Bool, true, ◌&&◌, some, List, [], ◌∷◌,
  arith,
}
use sentinel_edge.Domain.Kinds.{Instant}
use sentinel_edge.Update.{OfflineUpdateMetadata}
use sentinel_edge.Update.Verification.{
  Tools, Tombstones, Tree, Pointer, Updates, OfflineUpdateManager, current_update_version,
  load_metadata, metadata_name, verify_tombstone_requirement, is_field_lab,
}
use sentinel_edge.Update.Manager.{
  StagedPath, staged_tree, stage, all_match, activate_tree, activate, directory, committed,
}
use sentinel_edge.Update.Soundness.{
  IsSigned, IsInForce, IsSound, IsAdded, stage-IsAdded, added-IsSound,
}

module _ (tl : Tools) where
  open tl use {Bytes}

  activate_tree-cases :
      (self_test : Tree tl → Bool) (m : OfflineUpdateMetadata) (t : Tree tl) (metadata : Bytes)
      (tombstones : Tombstones) (now : Instant) (u : Updates tl)
      → ((activate_tree tl self_test m t metadata tombstones now u).1 ≡ u)
        ⊎ (((activate_tree tl self_test m t metadata tombstones now u).1
              ≡ committed tl m t (tl.sha256 metadata) now u)
            × (current_update_version tl u < m.version)
            × (all_match tl t m.targets ≡ true))
  unfolding activate_tree
  activate_tree-cases self_test m t metadata tombstones now u =
      elim (Result-cases (verify_tombstone_requirement m tombstones)) [
        | inr (x, k) ↦ inl (ground arith)
        | inl (x, k) ↦ elim (Bool-cases (leb m.version (current_update_version tl u))) [
          | inl old ↦ inl (ground arith)
          | inr newer ↦ elim (Bool-cases (all_match tl t m.targets && self_test t)) [
            | inr bad ↦ inl (ground arith)
            | inl good ↦ inr (ground arith, ground arith, ground arith)
          ]
        ]
      ]

  abbrev pointer_to : OfflineUpdateMetadata → Bytes → Instant → Pointer tl
  pointer_to m metadata now = record {
    bundle_id = m.bundle_id;
    version = m.version;
    path = directory tl m;
    metadata_sha256 = tl.sha256 metadata;
    activated_at = now;
  }

  committed-IsSound :
      (m : OfflineUpdateMetadata) (t : Tree tl) (metadata : Bytes) (now : Instant) (u : Updates tl)
      → IsSound tl u
      → IsSigned tl t
      → lookup metadata_name t ≡ some metadata
      → load_metadata tl metadata ≡ some m
      → all_match tl t m.targets ≡ true
      → IsSound tl (committed tl m t (tl.sha256 metadata) now u)
  committed-IsSound m t metadata now u s signed found loaded complete = record {
    staged_signed = s.staged_signed;
    in_force = λ p h.
        let same : metadata ≡ signed.metadata = ground (arith, found, signed.found) in
        let v = committed tl m t (tl.sha256 metadata) now u in
        let it : pointer_to m metadata now ≡ p = ground arith in
        subst (IsInForce tl v) it (record {
          tree = t;
          found = lookup-insert_self (directory tl m) t u.activated;
          signed = signed;
          metadata = m;
          loaded = ap (load_metadata tl) (sym same) ∙ loaded;
          same_version = refl;
          same_digest = ap tl.sha256 same;
          complete = complete;
        });
  }

  -- The root is sound, and its version is at least that of another.
  IsAfter : Updates tl → Updates tl → Type 0
  IsAfter u v = IsSound tl v × (current_update_version tl u ≤ current_update_version tl v)

  same-IsAfter : (u v : Updates tl) → v ≡ u → IsSound tl u → IsAfter u v
  unfolding IsAfter
  same-IsAfter u v same s =
      (subst (IsSound tl) (sym same) s, ground (arith, ap (current_update_version tl) same))

  added-version :
      (u v : Updates tl)
      → IsAdded tl u v
      → current_update_version tl v ≡ current_update_version tl u
  unfolding current_update_version
  added-version u v a = ground (arith, a.pointer_kept)

  committed-version :
      (m : OfflineUpdateMetadata) (t : Tree tl) (metadata_sha256 : String) (now : Instant)
      (u : Updates tl)
      → current_update_version tl (committed tl m t metadata_sha256 now u) ≡ m.version
  unfolding current_update_version
  committed-version m t metadata_sha256 now u = refl

  activate_tree-IsAfter :
      (self_test : Tree tl → Bool) (m : OfflineUpdateMetadata) (t : Tree tl) (metadata : Bytes)
      (tombstones : Tombstones) (now : Instant) (u : Updates tl)
      → IsSound tl u
      → IsSigned tl t
      → lookup metadata_name t ≡ some metadata
      → load_metadata tl metadata ≡ some m
      → IsAfter u (activate_tree tl self_test m t metadata tombstones now u).1
  unfolding IsAfter
  activate_tree-IsAfter self_test m t metadata tombstones now u s signed found loaded =
      elim (activate_tree-cases self_test m t metadata tombstones now u) [
        | inl same ↦
            same-IsAfter u (activate_tree tl self_test m t metadata tombstones now u).1 same s
        | inr (same, newer, complete) ↦
            let at = committed-version m t (tl.sha256 metadata) now u in
            (
              subst (IsSound tl) (sym same)
                  (committed-IsSound m t metadata now u s signed found loaded complete),
              ground (arith, at, ap (current_update_version tl) same),
            )
      ]

  activate-IsAfter :
      (o : OfflineUpdateManager tl) (name : String) (self_test : Tree tl → Bool)
      (tombstones : Tombstones) (now : Instant) (u : Updates tl)
      → IsSound tl u
      → IsAfter u (activate tl o (StagedPath.bundle name) self_test tombstones now u).1
  unfolding activate staged_tree
  activate-IsAfter o name self_test tombstones now u s =
      let v = (activate tl o (StagedPath.bundle name) self_test tombstones now u).1 in
      elim (Bool-cases (is_field_lab o.mode)) [
        | inr elsewhere ↦ same-IsAfter u v (ground arith) s
        | inl here ↦ elim (Option-cases (lookup name u.staged)) [
          | inl k ↦ same-IsAfter u v (ground arith) s
          | inr (t, k) ↦ elim (Option-cases (lookup metadata_name t)) [
            | inl l ↦ same-IsAfter u v (ground arith) s
            | inr (metadata, l) ↦ elim (Option-cases (load_metadata tl metadata)) [
              | inl n ↦ same-IsAfter u v (ground arith) s
              | inr (m, n) ↦
                  let same : (activate_tree tl self_test m t metadata tombstones now u).1 ≡ v =
                    ground arith in
                  subst (IsAfter u) same (
                    activate_tree-IsAfter self_test m t metadata tombstones now u s
                      (s.staged_signed name t k) l n)
            ]
          ]
        ]
      ]

  -- The staging of an archive, and the activation of a directory of the staging root by its name.
  pub data Operation : Type 0 where
    staging : Tree tl → Tombstones → Instant → Operation
    activating : (name : String) → (Tree tl → Bool) → Tombstones → Instant → Operation

  unfoldable pub run : OfflineUpdateManager tl → Operation → Updates tl → Updates tl
  run o (staging t tombstones now) u = (stage tl o t tombstones now u).1
  run o (activating name self_test tombstones now) u =
      (activate tl o (StagedPath.bundle name) self_test tombstones now u).1

  unfoldable pub run_all : OfflineUpdateManager tl → List Operation → Updates tl → Updates tl
  run_all o [] u = u
  run_all o (p ∷ ps) u = run_all o ps (run o p u)

  run-IsAfter :
      (o : OfflineUpdateManager tl) (p : Operation) (u : Updates tl)
      → IsSound tl u
      → IsAfter u (run o p u)
  unfolding run IsAfter
  run-IsAfter o (staging t tombstones now) u s =
      let v = (stage tl o t tombstones now u).1 in
      elim (stage-IsAdded tl o t tombstones now u) [
        | inl same ↦ same-IsAfter u v same s
        | inr added ↦ (added-IsSound tl u v s added, ground (arith, added-version u v added))
      ]
  run-IsAfter o (activating path self_test tombstones now) u s =
      activate-IsAfter o path self_test tombstones now u s

  -- Whatever archives are staged, and whatever directories that stand directly in the staging root are
  -- activated, in any order, from a sound update root: every staged directory carries metadata signed
  -- with the manager's key, the bundle that the pointer names has signed metadata of the pointer's
  -- version and digest whose targets all have the listed length and digest, and the version in
  -- force never goes back. Activations of directories further below are not covered.
  pub run_all-IsSound :
      (o : OfflineUpdateManager tl) (ps : List Operation) (u : Updates tl)
      → IsSound tl u
      → IsSound tl (run_all o ps u)
        × (current_update_version tl u ≤ current_update_version tl (run_all o ps u))
  unfolding run_all IsAfter
  run_all-IsSound o [] u s = (s, ground arith)
  run_all-IsSound o (p ∷ ps) u s =
      let (once, up) = run-IsAfter o p u s in
      let (rest, further) = run_all-IsSound o ps (run o p u) once in (rest, ground arith)
