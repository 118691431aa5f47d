-- ===== src/Store/Policy/Create.antt =====
-- A policy that createInDb or updateInDb has written grants what it says.
use arborist.Base.{
  ℕ, Text, ◌≡◌, refl, ap, sym, inl, inr, true, some, List, map, ◌==◌, text_eq, nat_eq, text_beq_iff,
  any_found, Elem, here, Elem-append_right, Elem-select, Elem-map_of, Option-cases, Bool-cases,
  is_empty,
}
use arborist.Base.Exec.{ok, after_ok}
use arborist.Core.Paths.{format_db_path}
use arborist.Store.Ltree.{Ltree}
use arborist.Store.Schema.{Db, PolicyRow, PolicyRoleRow, PolicyResourceRow, ResourceRow, RoleRow}
use arborist.Store.Rows.{insert, insert_all}
use arborist.Store.Policy.{
  Policy, resources, roles, missing_resources, missing_roles, link_resources, link_roles,
  add_resources_and_roles, insert_policy, create_policy, validate, same_policy_resource,
  same_policy_role,
}
use arborist.Store.Rows.Inserted.{insert-Elem, insert_all-Elem, none_left}

module _ (L : Ltree) where
  -- The rows that a policy with this id has to have in the database.
  pub record Linked (policy : Policy) (i : ℕ) (db : Db L.Label) : Type 0 where
    pub to_resources :
        (path : Text)
        → Elem path policy.resource_paths
        → (r : ResourceRow L.Label) × Elem r db.resource
          × (format_db_path (L.ltree2text r.path) ≡ path)
          × Elem (record { policy_id = i; resource_id = r.id }) db.policy_resource
    pub to_roles :
        (name : Text)
        → Elem name policy.role_ids
        → (r : RoleRow) × Elem r db.role
          × (r.name ≡ name)
          × Elem (record { policy_id = i; role_id = r.id }) db.policy_role

  linked_resource :
      (policy : Policy) (db : Db L.Label) (path : Text)
      → is_empty (missing_resources L policy db) ≡ true
      → Elem path policy.resource_paths
      → (r : ResourceRow L.Label) × Elem r (resources L policy db)
        × (format_db_path (L.ltree2text r.path) ≡ path)
  unfolding missing_resources
  linked_resource policy db path h m =
      let (r, k, e) = any_found _ _ (none_left _ policy.resource_paths path h m) in
      (r, k, (text_beq_iff _ path).0 e)

  linked_role :
      (policy : Policy) (db : Db L.Label) (name : Text)
      → is_empty (missing_roles L policy db) ≡ true
      → Elem name policy.role_ids
      → (r : RoleRow) × Elem r (roles L policy db) × (r.name ≡ name)
  unfolding missing_roles
  linked_role policy db name h m =
      let (r, k, e) = any_found _ _ (none_left _ policy.role_ids name h m) in
      (r, k, (text_beq_iff _ name).0 e)

  -- How link_resources can succeed.
  link_resources-ok :
      (policy : Policy) (i : ℕ) (db db' : Db L.Label)
      → link_resources L policy i db ≡ (ok tt, db')
      → (rows : List PolicyResourceRow) × (is_empty (missing_resources L policy db) ≡ true)
        × (insert_all same_policy_resource
              (map
                (λ (r : ResourceRow L.Label). record { policy_id = i; resource_id = r.id })
                (resources L policy db))
              db.policy_resource
            ≡ some rows)
        × (db' ≡ record db { policy_resource = rows })
  unfolding link_resources
  link_resources-ok policy i db db' h =
      elim (Bool-cases (is_empty (missing_resources L policy db))) [
        | inl e ↦
            elim (Option-cases (
              insert_all same_policy_resource
                (map (λ (r : ResourceRow L.Label). record { policy_id = i; resource_id = r.id })
                  (resources L policy db))
                db.policy_resource)) [
                  | inl k ↦ absurd (cc (rw (e, link_resources, k) at h))
                  | inr (rows, k) ↦
                      (rows, e, k, sym (ap (λ p. p.1) (rw (e, link_resources, k) at h)))
                ]
        | inr e ↦ absurd (cc (rw (e, link_resources) at h))
      ]

  link_roles-ok :
      (policy : Policy) (i : ℕ) (db db' : Db L.Label)
      → link_roles L policy i db ≡ (ok tt, db')
      → (rows : List PolicyRoleRow) × (is_empty (missing_roles L policy db) ≡ true)
        × (insert_all same_policy_role
              (map (λ (r : RoleRow). record { policy_id = i; role_id = r.id }) (roles L policy db))
              db.policy_role
            ≡ some rows)
        × (db' ≡ record db { policy_role = rows })
  unfolding link_roles
  link_roles-ok policy i db db' h = elim (Bool-cases (is_empty (missing_roles L policy db))) [
    | inl e ↦
        elim (Option-cases (
          insert_all same_policy_role
            (map (λ (r : RoleRow). record { policy_id = i; role_id = r.id }) (roles L policy db))
            db.policy_role)) [
              | inl k ↦ absurd (cc (rw (e, link_roles, k) at h))
              | inr (rows, k) ↦ (rows, e, k, sym (ap (λ p. p.1) (rw (e, link_roles, k) at h)))
            ]
    | inr e ↦ absurd (cc (rw (e, link_roles) at h))
  ]

  both-Linked :
      (policy : Policy) (i : ℕ) (db db1 db2 : Db L.Label)
      → link_resources L policy i db ≡ (ok tt, db1)
      → link_roles L policy i db1 ≡ (ok tt, db2)
      → Linked policy i db2 × (db2.policy ≡ db.policy)
  unfolding resources roles
  both-Linked policy i db db1 db2 h1 h2 =
      let (rows, e, k, z) = link_resources-ok policy i db db1 h1 in
      let (rows', e', k', z') = link_roles-ok policy i db1 db2 h2 in
      (
        record {
          to_resources = λ path m.
              let (r, mr, shown) = linked_resource policy db path e m in
              (
                r,
                rw (z', z) (Elem-select _ db.resource r mr).0,
                shown,
                rw (z', z)
                    ((insert_all-Elem _ _ _ rows _ k).1 (
                      Elem-map_of
                        (λ (r : ResourceRow L.Label). record { policy_id = i; resource_id = r.id })
                        _ r mr)),
              );
          to_roles = λ name m.
              let (r, mr, n) = linked_role policy db1 name e' m in
              (
                r,
                rw z' (Elem-select _ db1.role r mr).0,
                n,
                rw z' (
                    (insert_all-Elem _ _ _ rows' _ k').1 (
                      Elem-map_of (λ (r : RoleRow). record { policy_id = i; role_id = r.id }) _ r
                        mr)),
              );
        },
        rw (z', z) refl,
      )

  -- If the links of a policy can be added, it is linked to a resource for every path that it lists and
  -- to every role.
  add_resources_and_roles-Linked :
      (policy : Policy) (i : ℕ) (db db' : Db L.Label)
      → add_resources_and_roles L policy i db ≡ (ok tt, db')
      → Linked policy i db' × (db'.policy ≡ db.policy)
  unfolding add_resources_and_roles
  add_resources_and_roles-Linked policy i db db' h =
      let (_, db1, h1, h2) = after_ok (link_resources L policy i db) _ db' h in
      both-Linked policy i db db1 db' h1 h2

  insert_policy-Linked :
      (policy : Policy) (db db' : Db L.Label)
      → insert_policy L policy db ≡ (ok tt, db')
      → (p : PolicyRow) × Elem p db'.policy × (p.name ≡ policy.name) × Linked policy p.id db'
  unfolding insert_policy
  insert_policy-Linked policy db db' h =
      let row : PolicyRow = record {
        id = db.serial;
        name = policy.name;
        description = some policy.description;
      } in
      elim (Option-cases (insert (λ (p : PolicyRow). p.name == policy.name) row db.policy)) [
        | inl e ↦ absurd (cc (rw (e, insert_policy) at h))
        | inr (rows, e) ↦
            let (l, z) =
              add_resources_and_roles-Linked policy db.serial _ db' (rw (e, insert_policy) at h) in
            (
              row,
              rw z (
                  rw (insert-Elem _ row db.policy rows e)
                    (Elem-append_right row db.policy _ (here refl))),
              refl,
              l,
            )
      ]

  -- If a policy can be created, there is a policy of its name afterwards that is linked to a resource
  -- for every path that it lists and to every role that it lists.
  pub create_policy-Linked :
      (policy : Policy) (db db' : Db L.Label)
      → create_policy L policy db ≡ (ok tt, db')
      → (p : PolicyRow) × Elem p db'.policy × (p.name ≡ policy.name) × Linked policy p.id db'
  unfolding create_policy
  create_policy-Linked policy db db' h =
      let (_, db0, v, h0) = after_ok (validate policy, db) _ db' h in
      insert_policy-Linked policy db0 db' h0
