-- ===== src/Retrieval/GraphPaths/Groups.antt =====
-- Deduplication of graph paths: what is returned comes from the paths given, and no topology that
-- was given is lost.
use legal_graphrag_platform.Base.{
  All, All-append, All-mono, All-of_members, All_at, Bool, Bool-cases, List, Member, String, [], ap,
  eq_iff, eq_refl, false, if◌then◌else◌, inl, inr, refl, some, sym, true, ◌==◌, ◌∙◌, ◌∷◌, ◌≡◌,
}
use legal_graphrag_platform.Base.Result.{>>=-eq-ok, Result, ok, ok_inj}
use mathlib.Core.Path.{subst}
use mathlib.Core.List.{◌++◌ as ◌⧺◌, append-nil, append_assoc}
use legal_graphrag_platform.Base.Append.{Member-left, Member-right}
use legal_graphrag_platform.Base.Dict.{lookup-insert, Dict, lookup, insert}
use legal_graphrag_platform.Retrieval.GraphPaths.{
  paths_of, group_of, merge_groups, merge_group, group_paths, deduplicate_topology_paths,
}
use legal_graphrag_platform.Retrieval.Models.{GraphPath}
use legal_graphrag_platform.Retrieval.PathIdentity.{build_topology_path_fingerprint}
use legal_graphrag_platform.Retrieval.GraphPaths.Merge.{
  fingerprint-SamePath, merge_group-MergesTo, SamePath,
}

-- The merged path has the topology of one of the paths.
pub record IsMergeOf (paths : List GraphPath) (merged : GraphPath) : Type 0 where
  pub path : GraphPath
  pub given : Member path paths
  pub same : SamePath path merged

module _ (sha256_hex : String → String) where
  abbrev fingerprint : GraphPath → Result String
  fingerprint = build_topology_path_fingerprint sha256_hex

  -- The path has a fingerprint, and one of the merged paths has the same.
  pub record IsKept (merged : List GraphPath) (path : GraphPath) : Type 0 where
    pub kept : GraphPath
    pub listed : Member kept merged
    pub fingerprint : String
    pub of_path : build_topology_path_fingerprint sha256_hex path ≡ ok fingerprint
    pub of_kept : build_topology_path_fingerprint sha256_hex kept ≡ ok fingerprint

  module _ (paths : List GraphPath) where
    -- The group's paths were given and have its key as their fingerprint.
    abbrev IsGroup : String × List GraphPath → Type 0
    IsGroup entry = All (λ p. Member p paths × (fingerprint p ≡ ok entry.0)) entry.1

    abbrev AllGroups : Dict (List GraphPath) → Type 0
    AllGroups grouped = All IsGroup grouped

    insert-AllGroups :
        (key : String) (group : List GraphPath) (grouped : Dict (List GraphPath))
        → IsGroup (key, group)
        → AllGroups grouped
        → AllGroups (insert key group grouped)
    unfolding insert
    insert-AllGroups key group [] g h = (g, tt)
    insert-AllGroups key group ((j, w) ∷ grouped) g h = elim (Bool-cases (j == key)) [
      | inl e ↦ rw (e, (eq_iff j key).0 e) (g, h.1)
      | inr e ↦ rw e (h.0, insert-AllGroups key group grouped g h.1)
    ]

    group_of-IsGroup :
        (key : String) (grouped : Dict (List GraphPath))
        → AllGroups grouped
        → IsGroup (key, group_of key grouped)
    unfolding lookup
    group_of-IsGroup key [] h = tt
    group_of-IsGroup key ((j, w) ∷ grouped) h = elim (Bool-cases (j == key)) [
      | inl e ↦ rw (e, ← (eq_iff j key).0 e) h.0
      | inr e ↦ rw e (group_of-IsGroup key grouped h.1)
    ]

    -- The path stands in the group of its fingerprint.
    record IsGrouped (grouped : Dict (List GraphPath)) (path : GraphPath) : Type 0 where
      pub key : String
      pub keyed : fingerprint path ≡ ok key
      pub found : Member path (group_of key grouped)

    group_of-insert :
        (key j : String) (group : List GraphPath) (grouped : Dict (List GraphPath))
        → group_of j (insert key group grouped) ≡ (if key == j then group else group_of j grouped)
    group_of-insert key j group grouped =
        ap paths_of (lookup-insert key j group grouped) ∙ chosen (key == j)
      where
        chosen :
            (b : Bool)
            → paths_of (if b then some group else lookup j grouped)
              ≡ (if b then group else group_of j grouped)
        chosen true = refl
        chosen false = refl

    IsGrouped-longer :
        (key : String) (path : GraphPath) (grouped : Dict (List GraphPath)) (p : GraphPath)
        → IsGrouped grouped p
        → IsGrouped (insert key (group_of key grouped ⧺ path ∷ []) grouped) p
    IsGrouped-longer key path grouped p h = record {
      key = h.key;
      keyed = h.keyed;
      found = elim (Bool-cases (key == h.key)) [
        | inl e ↦
            let same : key ≡ h.key = (eq_iff key h.key).0 e in
            rw (group_of-insert, e)
              (Member-left p (group_of key grouped) (path ∷ [])
                (subst (λ k. Member p (group_of k grouped)) (sym same) h.found))
        | inr e ↦ rw (group_of-insert, e) h.found
      ];
    }

    IsGrouped-now :
        (key : String) (path : GraphPath) (grouped : Dict (List GraphPath))
        → fingerprint path ≡ ok key
        → IsGrouped (insert key (group_of key grouped ⧺ path ∷ []) grouped) path
    IsGrouped-now key path grouped e = record {
      key = key;
      keyed = e;
      found =
          rw (group_of-insert, eq_refl)
            (Member-right path (group_of key grouped) (path ∷ []) (inl refl));
    }

    -- What the loop over the paths has made.
    record HasGrouped (grouped : Dict (List GraphPath)) (done : List GraphPath) : Type 0 where
      pub groups : AllGroups grouped
      pub each : All (IsGrouped grouped) done

    group_paths-HasGrouped :
        (grouped r : Dict (List GraphPath)) (done todo : List GraphPath)
        → All (λ p. Member p paths) todo
        → HasGrouped grouped done
        → group_paths sha256_hex grouped todo ≡ ok r
        → HasGrouped r (done ⧺ todo)
    unfolding group_paths
    group_paths-HasGrouped grouped r done [] m h e =
        let same : grouped ≡ r = ok_inj e in rw (← same, append-nil) h
    group_paths-HasGrouped grouped r done (path ∷ todo) m h e =
        let (key, e₁, e₂) = >>=-eq-ok (fingerprint path) _ e in
        rw (← append_assoc done (path ∷ []) todo) (
          group_paths-HasGrouped (insert key (group_of key grouped ⧺ path ∷ []) grouped) r
            (done ⧺ path ∷ []) todo m.1
            (record {
              groups =
                  insert-AllGroups key (group_of key grouped ⧺ path ∷ []) grouped
                    (All-append _ (group_of key grouped) (path ∷ [])
                      (group_of-IsGroup key grouped h.groups) ((m.0, e₁), tt))
                    h.groups;
              each =
                  All-append _ done (path ∷ [])
                    (All-mono (IsGrouped grouped) _ (IsGrouped-longer key path grouped) done h.each)
                    (IsGrouped-now key path grouped e₁, tt);
            })
            e₂)

    merge_group-IsMergeOf :
        (key : String) (group out : List GraphPath)
        → IsGroup (key, group)
        → merge_group group ≡ ok out
        → All (IsMergeOf paths) out
    unfolding merge_group
    merge_group-IsMergeOf key [] out g e = let same : [] ≡ out = ok_inj e in rw (← same) tt
    merge_group-IsMergeOf key (path ∷ group) out g e =
        let m = merge_group-MergesTo path group out e in
        let member = (All_at _ (path ∷ group) m.canonical g m.chosen).0 in
        rw m.alone (record { path = m.canonical; given = member; same = m.same }, tt)

    merge_groups-IsMergeOf :
        (grouped : Dict (List GraphPath)) (out : List GraphPath)
        → AllGroups grouped
        → merge_groups grouped ≡ ok out
        → All (IsMergeOf paths) out
    unfolding merge_groups
    merge_groups-IsMergeOf [] out g e = let same : [] ≡ out = ok_inj e in rw (← same) tt
    merge_groups-IsMergeOf ((key, group) ∷ grouped) out g e =
        let (merged, e₁, e₂) = >>=-eq-ok (merge_group group) _ e in
        let (rest, e₃, e₄) = >>=-eq-ok (merge_groups grouped) _ e₂ in
        let same : merged ⧺ rest ≡ out = ok_inj e₄ in
        rw (← same) (
          All-append (IsMergeOf paths) merged rest (merge_group-IsMergeOf key group merged g.0 e₁)
            (merge_groups-IsMergeOf grouped rest g.1 e₃))

    merge_group-IsKept :
        (key : String) (group out : List GraphPath) (p : GraphPath)
        → IsGroup (key, group)
        → merge_group group ≡ ok out
        → Member p group
        → IsKept out p
    merge_group-IsKept key [] out p g e m = absurd m
    merge_group-IsKept key (path ∷ group) out p g e m =
        let t = merge_group-MergesTo path group out e in
        record {
          kept = t.merged;
          listed = rw t.alone (inl refl);
          fingerprint = key;
          of_path = (All_at _ (path ∷ group) p g m).1;
          of_kept =
              fingerprint-SamePath sha256_hex t.canonical t.merged t.same
              ∙ (All_at _ (path ∷ group) t.canonical g t.chosen).1;
        }

    merge_groups-IsKept :
        (grouped : Dict (List GraphPath)) (out : List GraphPath) (key : String) (p : GraphPath)
        → AllGroups grouped
        → merge_groups grouped ≡ ok out
        → Member p (group_of key grouped)
        → IsKept out p
    unfolding merge_groups lookup
    merge_groups-IsKept [] out key p g e m = absurd m
    merge_groups-IsKept ((j, group) ∷ grouped) out key p g e m =
        let (merged, e₁, e₂) = >>=-eq-ok (merge_group group) _ e in
        let (rest, e₃, e₄) = >>=-eq-ok (merge_groups grouped) _ e₂ in
        let same : merged ⧺ rest ≡ out = ok_inj e₄ in
        elim (Bool-cases (j == key)) [
          | inl t ↦
              let k = merge_group-IsKept j group merged p g.0 e₁ (rw t at m) in
              rw (← same) (record {
                kept = k.kept;
                listed = Member-left k.kept merged rest k.listed;
                fingerprint = k.fingerprint;
                of_path = k.of_path;
                of_kept = k.of_kept;
              })
          | inr t ↦
              let k = merge_groups-IsKept grouped rest key p g.1 e₃ (rw t at m) in
              rw (← same) (record {
                kept = k.kept;
                listed = Member-right k.kept merged rest k.listed;
                fingerprint = k.fingerprint;
                of_path = k.of_path;
                of_kept = k.of_kept;
              })
        ]

  -- If paths are deduplicated, then each path returned has the nodes of one of the paths given and
  -- its edges but for their provenance, and each path given has the fingerprint of one returned.
  pub deduplicate_topology_paths-keeps :
      (paths out : List GraphPath)
      → deduplicate_topology_paths sha256_hex paths ≡ ok out
      → All (IsMergeOf paths) out × All (IsKept out) paths
  unfolding deduplicate_topology_paths
  deduplicate_topology_paths-keeps paths out e =
      let (grouped, e₁, e₂) = >>=-eq-ok (group_paths sha256_hex [] paths) _ e in
      let h =
        group_paths-HasGrouped paths [] grouped [] paths
          (All-of_members (λ p. Member p paths) paths (λ p m. m))
          (record { groups = tt; each = tt }) e₁ in
      (
        merge_groups-IsMergeOf paths grouped out h.groups e₂,
        All-mono (IsGrouped paths grouped) (IsKept out)
            (λ p g. merge_groups-IsKept paths grouped out g.key p h.groups e₂ g.found) paths h.each,
      )
