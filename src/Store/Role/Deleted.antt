-- ===== src/Store/Role/Deleted.antt =====
-- What deleting a role takes along.
use arborist.Base.{
  Text, ◌≡◌, ◌≢◌, ◌↔◌, sym, ◌∙◌, inl, inr, false, ◌==◌, text_eq, nat_eq, text_beq_iff, nat_beq_iff,
  any, any_of_Elem, select, Elem, Elem-select_of, Bool-cases, false≢true, ℕ,
}
use arborist.Store.Schema.{Db, RoleRow, PermissionRow, PolicyRoleRow}
use arborist.Store.Rows.{Elem-delete}
use arborist.Store.Role.{delete_role}

module _ {P : Type 0} where
  -- There is a role of this id.
  abbrev pub HasRole : Db P → ℕ → Type 0
  HasRole db i = (r : RoleRow) × Elem r db.role × (r.id ≡ i)

  -- Every permission and every link of a policy refers to a role.
  pub record RolesExist (db : Db P) : Type 0 where
    pub of_permission : (p : PermissionRow) → Elem p db.permission → HasRole db p.role_id
    pub of_link : (pr : PolicyRoleRow) → Elem pr db.policy_role → HasRole db pr.role_id

  -- A role whose permissions stay is not deleted.
  role_stays :
      (db : Db P) (name : Text) (i : ℕ)
      → any (λ r. r.id == i) (select (λ r. r.name == name) db.role) ≡ false
      → HasRole db i
      → HasRole (delete_role name db).1 i
  unfolding delete_role
  role_stays db name i h (r, m, e) = elim (Bool-cases (r.name == name)) [
    | inl n ↦ absurd (
        false≢true
          (sym h ∙ any_of_Elem _ _ r (Elem-select_of _ db.role r m n) ((nat_beq_iff r.id i).1 e)))
    | inr n ↦ (r, (Elem-delete _ db.role r).1 (m, n), e)
  ]

  -- If every permission and every link of a policy refers to a role, this is so after a role is deleted,
  -- and exactly the roles of other names are left.
  pub delete_role-RolesExist :
      (db : Db P) (name : Text)
      → RolesExist db
      → RolesExist (delete_role name db).1
        × ((r : RoleRow) → Elem r (delete_role name db).1.role ↔ (Elem r db.role × (r.name ≢ name)))
  unfolding delete_role
  delete_role-RolesExist db name all = (
    record {
      of_permission = λ p m.
          let (k, h) = (Elem-delete _ db.permission p).0 m in
          role_stays db name p.role_id h (all.of_permission p k);
      of_link = λ pr m.
          let (k, h) = (Elem-delete _ db.policy_role pr).0 m in
          role_stays db name pr.role_id h (all.of_link pr k);
    },
    λ r. (
      λ m.
          let (k, h) = (Elem-delete _ db.role r).0 m in
          (k, λ e. false≢true (sym h ∙ (text_beq_iff r.name name).1 e)),
      λ (m, n). (Elem-delete _ db.role r).1 (
        m,
        elim (Bool-cases (r.name == name)) [
          | inl e ↦ absurd (n ((text_beq_iff r.name name).0 e))
          | inr e ↦ e
        ],
      ),
    ),
  )
