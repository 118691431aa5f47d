-- ===== src/Ownership/Bindings/Grants.antt =====
-- What a policy that was ensured gives, and who holds it after it is bound to a user.
use arborist.Base.{
  Text, ℕ, ◌≡◌, refl, sym, ◌∙◌, ap, subst, inl, inr, Bool, true, ◌&&◌, Option, none, some, List,
  ◌==◌, nat_eq, text_eq, nat_beq_iff, text_beq_iff, any, any_found, Elem, here, Elem-append_left,
  Elem-append_right, Bool-cases, and_split,
}
use arborist.Base.Exec.{ok, or_fail_ok, ok_injective}
use arborist.Core.Strings.{to_lower}
use arborist.Engine.Spec.{UserHolds, direct, Unexpired}
use arborist.Store.Schema.{Db, RoleRow, UsrPolicyRow, PolicyRow, PolicyRoleRow, PolicyResourceRow}
use arborist.Store.Rows.{insert_new, Elem-upsert, lookup, lookup_found}
use arborist.Store.Lookup.{select_usr_id}
use arborist.Ownership.Bindings.{role_id_by_name, ensure_policy, upserted_policies, ensure_user}
use arborist.Ownership.Bindings.Subjects.{bind_user}

module _ {A : Type 0} (same : A → Bool) (row : A) (xs : List A) where
  -- The row is there afterwards if its key is the whole row.
  pub insert_new-row : ((y : A) → same y ≡ true → row ≡ y) → Elem row (insert_new same row xs)
  unfolding insert_new
  insert_new-row whole = elim (Bool-cases (any same xs)) [
    | inl h ↦
        let (y, m, k) = any_found same xs h in
        rw (h, insert_new) (subst (λ z. Elem z xs) (sym (whole y k)) m)
    | inr h ↦ rw (h, insert_new) (Elem-append_right row xs _ (here refl))
  ]

  pub insert_new-kept : (y : A) → Elem y xs → Elem y (insert_new same row xs)
  unfolding insert_new
  insert_new-kept y m = elim (Bool-cases (any same xs)) [
    | inl h ↦ rw (h, insert_new) m
    | inr h ↦ rw (h, insert_new) (Elem-append_left y xs _ m)
  ]

-- No grant of the user who is stored under this name has expired.
abbrev pub NoneExpired : {P : Type 0} → Db P → ℕ → Text → Type 0
NoneExpired db now name =
    (up : UsrPolicyRow)
    → Elem up db.usr_policy
    → select_usr_id (ensure_user name db) name ≡ some up.usr_id
    → Unexpired now up.expires_at

-- The policy is linked to the resource with this id and to a role of this name.
pub record Gives {P : Type 0} (db : Db P) (policy_id resource_id : ℕ) (role_name : Text)
    : Type 0 where
  pub to_resource :
      Elem (record { policy_id = policy_id; resource_id = resource_id }) db.policy_resource
  pub role : RoleRow
  pub role_exists : Elem role db.role
  pub of_name : role.name ≡ role_name
  pub to_role : Elem (record { policy_id = policy_id; role_id = role.id }) db.policy_role

-- A step that leaves these tables alone, and takes no link away.
pub record KeepsLinks {P : Type 0} (db db' : Db P) : Type 0 where
  pub roles : db'.role ≡ db.role
  pub permissions : db'.permission ≡ db.permission
  pub all_resources : db'.resource ≡ db.resource
  pub resource_links :
      (pr : PolicyResourceRow) → Elem pr db.policy_resource → Elem pr db'.policy_resource
  pub role_links : (pr : PolicyRoleRow) → Elem pr db.policy_role → Elem pr db'.policy_role

module _ {P : Type 0} where
  pub KeepsLinks-refl : (db : Db P) → KeepsLinks db db
  KeepsLinks-refl db = record {
    roles = refl;
    permissions = refl;
    all_resources = refl;
    resource_links = λ pr m. m;
    role_links = λ pr m. m;
  }

  pub KeepsLinks-trans : (a b c : Db P) → KeepsLinks a b → KeepsLinks b c → KeepsLinks a c
  KeepsLinks-trans a b c h k = record {
    roles = k.roles ∙ h.roles;
    permissions = k.permissions ∙ h.permissions;
    all_resources = k.all_resources ∙ h.all_resources;
    resource_links = λ pr m. k.resource_links pr (h.resource_links pr m);
    role_links = λ pr m. k.role_links pr (h.role_links pr m);
  }

  pub Gives-KeepsLinks :
      (db db' : Db P) (i resource_id : ℕ) (role_name : Text)
      → KeepsLinks db db'
      → Gives db i resource_id role_name
      → Gives db' i resource_id role_name
  Gives-KeepsLinks db db' i resource_id role_name k g = record {
    to_resource = k.resource_links _ g.to_resource;
    role = g.role;
    role_exists = rw k.roles g.role_exists;
    of_name = g.of_name;
    to_role = k.role_links _ g.to_role;
  }

  -- An ensured policy gives its role on its resource; users and their policies are as before.
  pub ensure_policy-Gives :
      (name description : Text) (resource_id : ℕ) (role_id : Text) (db db' : Db P) (i : ℕ)
      → ensure_policy name description resource_id role_id db ≡ (ok i, db')
      → Gives db' i resource_id role_id
        × KeepsLinks db db'
        × (db'.usr ≡ db.usr)
        × (db'.usr_policy ≡ db.usr_policy)
  unfolding ensure_policy role_id_by_name
  ensure_policy-Gives name description resource_id role_id db db' i h =
      let (j, e, h1) = or_fail_ok (role_id_by_name db role_id) 500 db _ db' h in
      let (k, e', h2) =
        or_fail_ok
          (lookup (λ (p : PolicyRow). p.name == name) (λ p. p.id)
            (upserted_policies name description db))
          500 db _ db' h1 in
      let (same, z) = ok_injective k i _ db' h2 in
      let (r, m, n, id) = lookup_found _ _ db.role j e in
      (
        record {
          to_resource =
              rw (← same, ← z)
                (insert_new-row _ _ db.policy_resource λ y t.
                  let (a, b) = and_split (k == y.policy_id) _ t in
                  cc
                    ((nat_beq_iff k y.policy_id).0 a, (nat_beq_iff resource_id y.resource_id).0 b));
          role = r;
          role_exists = rw (← z) m;
          of_name = (text_beq_iff r.name role_id).0 n;
          to_role =
              rw (← same, id, ← z)
                (insert_new-row _ _ db.policy_role λ y t.
                  let (a, b) = and_split (k == y.policy_id) _ t in
                  cc ((nat_beq_iff k y.policy_id).0 a, (nat_beq_iff j y.role_id).0 b));
        },
        record {
          roles = rw (← z) refl;
          permissions = rw (← z) refl;
          all_resources = rw (← z) refl;
          resource_links = λ pr n. rw (← z) (insert_new-kept _ _ db.policy_resource pr n);
          role_links = λ pr n. rw (← z) (insert_new-kept _ _ db.policy_role pr n);
        },
        rw (← z) refl,
        rw (← z) refl,
      )

  -- A user who is bound to a policy holds it, unless a binding that was there has expired.
  pub bind_user-UserHolds :
      (now : ℕ) (username : Text) (policy_id : ℕ) (provider : Option Text) (db db' : Db P)
      → bind_user username policy_id provider db ≡ (ok tt, db')
      → ((up : UsrPolicyRow)
          → Elem up db.usr_policy
          → select_usr_id db username ≡ some up.usr_id
          → Unexpired now up.expires_at)
      → UserHolds db' now (to_lower username) policy_id × KeepsLinks db db'
  unfolding bind_user
  bind_user-UserHolds now username i provider db db' h live =
      let (u, e, h1) = or_fail_ok (select_usr_id db username) 500 db _ db' h in
      let (_, z) = ok_injective tt tt _ db' h1 in
      let (r, m, n, k) = lookup_found _ _ db.usr u e in
      let low = ap to_lower ((text_beq_iff r.name username).0 n) in
      let row : UsrPolicyRow = record {
        usr_id = u;
        policy_id = i;
        expires_at = none;
        authz_provider = provider;
      } in
      (
        elim (Elem-upsert (λ (up : UsrPolicyRow). up.usr_id == u && up.policy_id == i)
            (λ up. record up { authz_provider = provider }) row db.usr_policy) [
              | inl q ↦ direct r row (rw (← z) m) low (rw (← z) q) (sym k) tt refl
              | inr (up, q, same, q') ↦
                  let (a, b) = and_split (up.usr_id == u) _ same in
                  let owner = (nat_beq_iff up.usr_id u).0 a in
                  direct r (record up { authz_provider = provider }) (rw (← z) m) low (rw (← z) q')
                    (owner ∙ sym k) (live up q (e ∙ ap some (sym owner)))
                    (sym ((nat_beq_iff up.policy_id i).0 b))
            ],
        record {
          roles = rw (← z) refl;
          permissions = rw (← z) refl;
          all_resources = rw (← z) refl;
          resource_links = λ pr t. rw (← z) t;
          role_links = λ pr t. rw (← z) t;
        },
      )

  pub ensure_user-KeepsLinks : (name : Text) (db : Db P) → KeepsLinks db (ensure_user name db)
  unfolding ensure_user
  ensure_user-KeepsLinks name db = record {
    roles = refl;
    permissions = refl;
    all_resources = refl;
    resource_links = λ pr m. m;
    role_links = λ pr m. m;
  }
