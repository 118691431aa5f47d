-- ===== src/Ownership/Bindings/Held.antt =====
-- Who holds a generated policy after it is bound to a user.
use arborist.Base.{Text, ℕ, ◌≡◌, refl, ap, subst, Bool, is_empty}
use arborist.Base.Exec.{ok, after_ok, ok_injective, guard_ok, or_fail_ok}
use arborist.Core.Strings.{trim_space, to_lower}
use arborist.Engine.Spec.{UserHolds}
use arborist.Engine.Spec.Holds.{user_policies-holds, user_policies-of}
use arborist.Engine.Grants.{user_policies, direct_policies, member_policies, group_policies}
use arborist.Store.Schema.{Db}
use arborist.Store.Lookup.{select_policy_id}
use arborist.Ownership.{OwnershipTarget, owner_subject_type}
use arborist.Ownership.Bindings.{ensure_user, ensure_policy, ensure_generated_policy}
use arborist.Ownership.Bindings.Subjects.{
  bind_user, upsert_binding_metadata, ensure_generated_user_binding, attach_policy_to_resource,
}
use arborist.Ownership.Bindings.Grants.{
  Gives, KeepsLinks, KeepsLinks-trans, Gives-KeepsLinks, ensure_policy-Gives, bind_user-UserHolds,
  NoneExpired, ensure_user-KeepsLinks, insert_new-kept,
}
use arborist.Ownership.Bindings.Authorized.{to_lower_twice}

module _ {P : Type 0} where
  -- Who holds a policy depends on the tables that `user_policies` reads.
  UserHolds-user_policies :
      (db db' : Db P) (now : ℕ) (name : Text) (i : ℕ)
      → user_policies db' now name ≡ user_policies db now name
      → UserHolds db now name i
      → UserHolds db' now name i
  UserHolds-user_policies db db' now name i e held =
      user_policies-holds db' now name i (rw e (user_policies-of db now name i held))

  -- The metadata of a generated policy are written beside the links.
  generated_policy-Gives :
      (target : OwnershipTarget) (role_id kind : Text) (protected : Bool) (created_by : Text)
      (db db' : Db P) (policy : Text × ℕ)
      → ensure_generated_policy target role_id kind protected created_by db ≡ (ok policy, db')
      → Gives db' policy.1 target.resource_id role_id
        × KeepsLinks db db'
        × (db'.usr ≡ db.usr)
        × (db'.usr_policy ≡ db.usr_policy)
  unfolding ensure_generated_policy
  generated_policy-Gives target role_id kind protected created_by db db' policy h =
      let (i, db1, h1, h2) = after_ok (ensure_policy _ _ _ _ db) _ db' h in
      let (same, z) = ok_injective _ policy _ db' h2 in
      let (g, k, u, up) = ensure_policy-Gives _ _ _ role_id db db1 i h1 in
      (
        record {
          to_resource = rw (← z, ← same) g.to_resource;
          role = g.role;
          role_exists = rw (← z) g.role_exists;
          of_name = g.of_name;
          to_role = rw (← z, ← same) g.to_role;
        },
        record {
          roles = rw (← z) k.roles;
          permissions = rw (← z) k.permissions;
          all_resources = rw (← z) k.all_resources;
          resource_links = λ pr m. rw (← z) (k.resource_links pr m);
          role_links = λ pr m. rw (← z) (k.role_links pr m);
        },
        rw (← z) u,
        rw (← z) up,
      )

  -- Metadata of a binding take nothing from what a user holds.
  upsert_binding_metadata-UserHolds :
      (subject_type subject_name : Text) (i : ℕ) (target : OwnershipTarget) (kind : Text)
      (protected : Bool) (created_by : Text) (now : ℕ) (name : Text) (db : Db P)
      → UserHolds db now name i
      → UserHolds
          (upsert_binding_metadata subject_type subject_name i target kind protected created_by db)
          now
          name
          i
        × KeepsLinks db (
            upsert_binding_metadata subject_type subject_name i target kind protected created_by db)
  unfolding upsert_binding_metadata user_policies direct_policies member_policies group_policies
  upsert_binding_metadata-UserHolds subject_type subject_name i target kind protected created_by now
        name db held =
      (
        UserHolds-user_policies db _ now name i refl held,
        record {
          roles = refl;
          permissions = refl;
          all_resources = refl;
          resource_links = λ pr m. m;
          role_links = λ pr m. m;
        },
      )

  -- A generated policy that is bound to a user: the user holds it, and it gives the role on the
  -- resource of the target.
  pub generated_binding :
      (target : OwnershipTarget) (username role_id kind : Text) (protected : Bool)
      (created_by : Text) (now : ℕ) (db db' : Db P)
      → ensure_generated_user_binding target username role_id kind protected created_by db
        ≡ (ok tt, db')
      → NoneExpired db now (to_lower (trim_space username))
      → (i : ℕ) × UserHolds db' now (to_lower (trim_space username)) i
        × Gives db' i target.resource_id role_id
        × KeepsLinks db db'
  unfolding ensure_generated_user_binding ensure_user
  generated_binding target username role_id kind protected created_by now db db' h live =
      let name = to_lower (trim_space username) in
      let (_, h0) = guard_ok (is_empty name) 400 db _ db' h in
      let (policy, db1, h1, h2) =
        after_ok
          (ensure_generated_policy target role_id kind protected created_by (ensure_user name db)) _
          db' h0 in
      let (_, db2, h3, h4) = after_ok (bind_user name policy.1 _ db1) _ db' h2 in
      let z = ap (λ r. r.1) h4 in
      let (g, k, u, up) =
        generated_policy-Gives target role_id kind protected created_by (ensure_user name db) db1
          policy h1 in
      let (held, k') =
        bind_user-UserHolds now name policy.1 _ db1 db2 h3
          λ row m s. live row (rw up at m) (rw u at s) in
      let (held', k'') =
        upsert_binding_metadata-UserHolds owner_subject_type name policy.1 target kind protected
          created_by now (to_lower name) db2 held in
      (
        policy.1,
        rw (to_lower_twice (trim_space username)) at
            (subst (λ d. UserHolds d now (to_lower name) policy.1) z held'),
        subst (λ d. Gives d policy.1 target.resource_id role_id) z
            (Gives-KeepsLinks db2 _ policy.1 target.resource_id role_id k''
              (Gives-KeepsLinks db1 db2 policy.1 target.resource_id role_id k' g)),
        subst (KeepsLinks db) z (
            KeepsLinks-trans db db2 _
              (KeepsLinks-trans db db1 db2
                (KeepsLinks-trans db _ db1 (ensure_user-KeepsLinks name db) k) k')
              k''),
      )

  -- Attaching a policy to one more resource takes nothing away.
  pub attach_policy_to_resource-KeepsLinks :
      (policy_name : Text) (resource_id now : ℕ) (name : Text) (i : ℕ) (db db' : Db P)
      → attach_policy_to_resource policy_name resource_id db ≡ (ok tt, db')
      → UserHolds db now name i
      → UserHolds db' now name i × KeepsLinks db db'
  unfolding attach_policy_to_resource user_policies direct_policies member_policies group_policies
  attach_policy_to_resource-KeepsLinks policy_name resource_id now name i db db' h held =
      let (j, e, h1) = or_fail_ok (select_policy_id db policy_name) 500 db _ db' h in
      let z = ap (λ r. r.1) h1 in
      (
        subst (λ d. UserHolds d now name i) z (UserHolds-user_policies db _ now name i refl held),
        subst (KeepsLinks db) z (record {
          roles = refl;
          permissions = refl;
          all_resources = refl;
          resource_links = λ pr m. insert_new-kept _ _ db.policy_resource pr m;
          role_links = λ pr m. m;
        }),
      )
