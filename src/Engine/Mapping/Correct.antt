-- ===== src/Engine/Mapping/Correct.antt =====
-- The mapping of a user lists just what the user holds, and agrees with the authorization check.
use arborist.Base.{
  ℕ, Text, codes, ◌≡◌, ◌↔◌, ap, ◌∙◌, sym, inl, inr, true, [], ◌==◌, text_eq, nat_eq, text_beq_iff,
  nat_beq_iff, Elem, and_split, and_join, arith, Elem-join, Elem-join_of, Elem-select,
  Elem-select_of, Elem-pick, Elem-pick_of, false≢true, Bool-cases,
}
use arborist.Core.Strings.{to_lower}
use arborist.Core.Paths.{format_db_path}
use arborist.Store.Ltree.{Ltree, IsLawful}
use arborist.Store.Schema.{Db, ResourceRow, PermissionRow, PolicyRoleRow}
use arborist.Engine.Request.{Action, create_descendant_method}
use arborist.Engine.Grants.{user_policies}
use arborist.Engine.Spec.{UserHolds, Covers}
use arborist.Engine.Spec.Holds.{user_policies-holds, user_policies-of}
use arborist.Engine.Spec.Reads.{policy_resources-Covers, policy_resources-of}
use arborist.Engine.Mapping.Collect.{
  actions_at, row_action, Elem-distinct, Elem-distinct_of, collect-holds, collect-adds,
}
use arborist.Engine.Mapping.{
  AuthMappingQuery, is_create_descendant, reaches, policy_permissions, mapping_rows,
  auth_mapping_for_user,
}

module _ (L : Ltree) (laws : IsLawful L) (db : Db L.Label) (now : ℕ) where
  -- A permission reaches a resource from the resource of its policy: `create-descendant` of Arborist
  -- at that very resource, every other one there and below.
  pub data Reaches (pm : PermissionRow) (p root : L.Label) : Type 0 where
    exactly :
        pm.service ≡ codes "arborist"
        → pm.method ≡ create_descendant_method
        → p ≡ root
        → Reaches pm p root
    inherited :
        ¬ ((pm.service ≡ codes "arborist") × (pm.method ≡ create_descendant_method))
        → L.descends p root ≡ true
        → Reaches pm p root

  -- Why the mapping of a user lists the action for the resource.
  pub record UserMaps (username : Text) (action : Action) (r : ResourceRow L.Label) : Type 0 where
    pub policy_id : ℕ
    pub root : ResourceRow L.Label
    pub link : PolicyRoleRow
    pub permission : PermissionRow
    pub holds : UserHolds db now (to_lower username) policy_id
    pub covers : Covers db policy_id root
    pub link_exists : Elem link db.policy_role
    pub of_policy : link.policy_id ≡ policy_id
    pub permission_exists : Elem permission db.permission
    pub of_role : permission.role_id ≡ link.role_id
    pub reaches_it : Reaches permission r.path root.path
    pub same_action : action ≡ record { service = permission.service; method = permission.method }

  create_descendant_iff :
      (pm : PermissionRow)
      → (is_create_descendant pm ≡ true)
        ↔ ((pm.service ≡ codes "arborist") × (pm.method ≡ create_descendant_method))
  unfolding is_create_descendant
  create_descendant_iff pm = (
    λ h.
        let (a, b) = and_split (pm.service == codes "arborist") _ h in
        ((text_beq_iff _ _).0 a, (text_beq_iff _ _).0 b),
    λ h. and_join _ _ ((text_beq_iff _ _).1 h.0) ((text_beq_iff _ _).1 h.1),
  )

  reaches-Reaches :
      (pm : PermissionRow) (p root : L.Label)
      → reaches L db now pm p root ≡ true
      → Reaches pm p root
  unfolding reaches
  reaches-Reaches pm p root h = elim (Bool-cases (is_create_descendant pm)) [
    | inl c ↦
        let (a, b) = (create_descendant_iff pm).0 c in
        exactly a b ((laws.path_beq_iff p root).0 (ground arith))
    | inr c ↦ inherited (λ k. false≢true (sym c ∙ (create_descendant_iff pm).1 k)) (ground arith)
  ]

  reaches-of :
      (pm : PermissionRow) (p root : L.Label)
      → Reaches pm p root
      → reaches L db now pm p root ≡ true
  unfolding reaches
  reaches-of pm p root (exactly a b e) =
      rw ((create_descendant_iff pm).1 (a, b), (laws.path_beq_iff p root).1 e)
  reaches-of pm p root (inherited n d) = elim (Bool-cases (is_create_descendant pm)) [
    | inl c ↦ absurd (n ((create_descendant_iff pm).0 c))
    | inr c ↦ rw (c, d)
  ]

  abbrev query_row : ResourceRow L.Label → PermissionRow → AuthMappingQuery
  query_row r pm = record { path = L.ltree2text r.path; service = pm.service; method = pm.method }

  rows_sound :
      (username : Text) (row : AuthMappingQuery)
      → Elem row (mapping_rows L db now (user_policies db now (to_lower username)))
      → (r : ResourceRow L.Label) × Elem r db.resource
        × (row.path ≡ L.ltree2text r.path)
        × UserMaps username (row_action row) r
  unfolding mapping_rows policy_permissions
  rows_sound username row m =
      let (i, mi, m1) = Elem-join _ _ row m in
      let (root, mroot, m2) = Elem-join _ _ row m1 in
      let (pm, mpm, m3) = Elem-join _ _ row m2 in
      let (r, mr, h, e) = Elem-pick _ _ db.resource row m3 in
      let (l, ml, m4) = Elem-join _ _ pm mpm in
      let (ml', hl) = Elem-select _ db.policy_role l ml in
      let (mpm', hp) = Elem-select _ db.permission pm m4 in
      (
        r,
        mr,
        ap (λ (q : AuthMappingQuery). q.path) e,
        record {
          policy_id = i;
          root = root;
          link = l;
          permission = pm;
          holds = user_policies-holds db now (to_lower username) i mi;
          covers = policy_resources-Covers db i root mroot;
          link_exists = ml';
          of_policy = (nat_beq_iff _ _).0 hl;
          permission_exists = mpm';
          of_role = (nat_beq_iff _ _).0 hp;
          reaches_it = reaches-Reaches pm r.path root.path h;
          same_action = ap row_action e;
        },
      )

  rows_complete :
      (username : Text) (action : Action) (r : ResourceRow L.Label) (u : UserMaps username action r)
      → Elem r db.resource
      → Elem
          (query_row r u.permission)
          (mapping_rows L db now (user_policies db now (to_lower username)))
  unfolding mapping_rows policy_permissions
  rows_complete username action r u mr =
      Elem-join_of _ _ u.policy_id _
        (user_policies-of db now (to_lower username) u.policy_id u.holds)
        (Elem-join_of _ _ u.root _ (policy_resources-of db u.policy_id u.root u.covers) (
          Elem-join_of _ _ u.permission _
            (Elem-join_of _ _ u.link _
              (Elem-select_of _ db.policy_role u.link u.link_exists
                ((nat_beq_iff _ _).1 u.of_policy))
              (Elem-select_of _ db.permission u.permission u.permission_exists
                ((nat_beq_iff _ _).1 u.of_role)))
            (Elem-pick_of
              (λ (q : ResourceRow L.Label). reaches L db now u.permission q.path u.root.path)
              (λ q. query_row q u.permission) db.resource r mr
              (reaches-of u.permission r.path u.root.path u.reaches_it))))

  -- The mapping of a user lists an action at a path exactly when some resource with this path is one
  -- for which a policy that the user holds grants the action.
  pub auth_mapping_for_user-UserMaps :
      (username q : Text) (action : Action)
      → Elem action (actions_at q (auth_mapping_for_user L db now username)) ↔ (
          (r : ResourceRow L.Label) × Elem r db.resource
          × (format_db_path (L.ltree2text r.path) ≡ q)
          × UserMaps username action r)
  unfolding auth_mapping_for_user
  auth_mapping_for_user-UserMaps username q action = (sound, complete)
    where
      sound :
          Elem action (actions_at q (auth_mapping_for_user L db now username))
          → (r : ResourceRow L.Label) × Elem r db.resource
            × (format_db_path (L.ltree2text r.path) ≡ q)
            × UserMaps username action r
      sound h = elim (collect-holds _ [] q action h) [
        | inl m ↦ elim m [ ]
        | inr (row, mrow, e, k) ↦
            let (r, mr, t, u) = rows_sound username row (Elem-distinct _ row mrow) in
            (r, mr, rw (← t) e, rw k u)
      ]

      complete :
          (r : ResourceRow L.Label) × Elem r db.resource
            × (format_db_path (L.ltree2text r.path) ≡ q)
            × UserMaps username action r
          → Elem action (actions_at q (auth_mapping_for_user L db now username))
      complete (r, mr, e, u) =
          rw (← e, u.same_action)
            (collect-adds _ [] (query_row r u.permission)
              (Elem-distinct_of _ _ (rows_complete username action r u mr)))
