-- ===== src/Store/Role/Written.antt =====
-- The permissions of a role after createInDb and overwriteInDb.
use arborist.Base.{
  ℕ, Text, ◌≡◌, ◌≢◌, ◌↔◌, refl, sym, ◌∙◌, ap, inl, inr, Bool, true, false, ◌||◌, some, List, [],
  ◌∷◌, ◌++◌, map, ◌==◌, text_eq, nat_eq, text_beq_iff, nat_beq_iff, any, any_found, first,
  first_found, Elem, Elem-map, Bool-cases, and_split, and_join, false≢true, is_empty, arith,
}
use mathlib.Core.List.{map-append}
use arborist.Base.Exec.{ok}
use arborist.Store.Schema.{Db, RoleRow, PermissionRow}
use arborist.Store.Rows.{lookup}
use arborist.Store.Rows.Upserted.{upsert-row, upsert-other, first-upsert}
use arborist.Store.Role.{
  Permission, Role, validate_role, same_permission, permission_row, upsert_permissions,
  overwritten_role, upsert_role, overwrite_role,
}

same_permission_iff :
    (a b : PermissionRow)
    → (same_permission a b ≡ true) ↔ ((a.role_id ≡ b.role_id) × (a.name ≡ b.name))
same_permission_iff a b = (
  λ h.
      let (i, n) = and_split (a.role_id == b.role_id) _ h in
      ((nat_beq_iff a.role_id b.role_id).0 i, (text_beq_iff a.name b.name).0 n),
  λ (i, n). and_join _ _ ((nat_beq_iff a.role_id b.role_id).1 i) ((text_beq_iff a.name b.name).1 n),
)

-- Rows whose key is not listed are as before.
upsert_permissions-other :
    (ps rows : List PermissionRow) (q : PermissionRow)
    → any (λ p. same_permission p q) ps ≡ false
    → Elem q (upsert_permissions ps rows) ↔ Elem q rows
unfolding upsert_permissions any
upsert_permissions-other [] rows q h = (λ m. m, λ m. m)
upsert_permissions-other (p ∷ ps) rows q h =
    let (now, later) = or_false (same_permission p q) _ h in
    let (down, up) = upsert_permissions-other ps _ q later in
    let (down', up') = upsert-other (same_permission p) p q rows now (λ e. false≢true (
      sym now
      ∙ (same_permission_iff p q).1 (ap (λ x. x.role_id) (sym e), ap (λ x. x.name) (sym e)))) in
    (λ m. down' (down m), λ m. up (up' m))
  where
    or_false : (a b : Bool) → (a || b) ≡ false → (a ≡ false) × (b ≡ false)
    or_false a b h = ground arith

-- The last row listed for a key is there.
upsert_permissions-last :
    (before later rows : List PermissionRow) (row : PermissionRow)
    → any (λ p. same_permission p row) later ≡ false
    → Elem row (upsert_permissions (before ++ row ∷ later) rows)
unfolding upsert_permissions
upsert_permissions-last [] later rows row h =
    (upsert_permissions-other later _ row h).1 (upsert-row (same_permission row) row rows)
upsert_permissions-last (p ∷ before) later rows row h = upsert_permissions-last before later _ row h

-- No permission of the list has this name.
abbrev pub Unlisted : List Permission → Text → Type 0
Unlisted permissions name = (p : Permission) → Elem p permissions → p.name ≢ name

Unlisted-any :
    (i : ℕ) (permissions : List Permission) (q : PermissionRow)
    → (q.role_id ≡ i → Unlisted permissions q.name)
    → any (λ p. same_permission p q) (map (permission_row i) permissions) ≡ false
unfolding permission_row
Unlisted-any i permissions q absent =
    elim (Bool-cases (any (λ p. same_permission p q) (map (permission_row i) permissions))) [
      | inl h ↦
          let (r, m, s) = any_found _ _ h in
          let (p, k, e) = Elem-map (permission_row i) permissions r m in
          let (a, b) = (same_permission_iff r q).0 s in
          absurd (absent (sym a ∙ ap (λ x. x.role_id) e) p k (sym (ap (λ x. x.name) e) ∙ b))
      | inr h ↦ h
    ]

last_listed :
    (i : ℕ) (permissions before later : List Permission) (rows : List PermissionRow)
    (p : Permission)
    → permissions ≡ before ++ p ∷ later
    → Unlisted later p.name
    → Elem (permission_row i p) (upsert_permissions (map (permission_row i) permissions) rows)
unfolding permission_row
last_listed i permissions before later rows p s absent =
    rw (s, map-append (permission_row i) before (p ∷ later))
      (upsert_permissions-last _ _ rows (permission_row i p)
        (Unlisted-any i later (permission_row i p) (λ _. absent)))

-- The row of `permission` that holds this permission of the role with id `i`.
pub record Holds (i : ℕ) (p : Permission) (q : PermissionRow) : Type 0 where
  pub of_role : q.role_id ≡ i
  pub name_is : q.name ≡ p.name
  pub service_is : q.service ≡ p.action.service
  pub method_is : q.method ≡ p.action.method
  pub constraints_are : q.constraints ≡ p.constraints
  pub description_is : q.description ≡ some p.description

permission_row-Holds : (i : ℕ) (p : Permission) → Holds i p (permission_row i p)
unfolding permission_row
permission_row-Holds i p = record {
  of_role = refl;
  name_is = refl;
  service_is = refl;
  method_is = refl;
  constraints_are = refl;
  description_is = refl;
}

-- The role with id `i` and its permissions after an overwrite.
pub record Overwritten {P : Type 0} (role : Role) (i : ℕ) (db db' : Db P) : Type 0 where
  pub row : RoleRow
  pub row_exists : Elem row db'.role
  pub id_is : row.id ≡ i
  pub name_is : row.name ≡ role.name
  pub description_is : row.description ≡ some role.description
  pub listed :
      (before later : List Permission) (p : Permission)
      → role.permissions ≡ before ++ p ∷ later
      → Unlisted later p.name
      → (q : PermissionRow) × Elem q db'.permission × Holds i p q
  pub unlisted :
      (q : PermissionRow)
      → (q.role_id ≡ i → Unlisted role.permissions q.name)
      → Elem q db'.permission ↔ Elem q db.permission

module _ {P : Type 0} (role : Role) (db : Db P) where
  -- The row whose id the statement gives back.
  returned_row :
      (r : RoleRow) × (first (λ (x : RoleRow). x.name == role.name) (overwritten_role role db)
        ≡ some r)
      × (r.name ≡ role.name)
      × (r.description ≡ some role.description)
  unfolding overwritten_role
  returned_row =
      let named = λ (x : RoleRow). x.name == role.name in
      let new : RoleRow = record {
        id = db.serial;
        name = role.name;
        description = some role.description;
      } in
      let (r, e, from) =
        first-upsert named new (λ x. record x { description = some role.description }) db.role
          ((text_beq_iff role.name role.name).1 refl) (λ x k. k) in
      (
        r,
        e,
        elim from [
          | inl q ↦ ap (λ x. x.name) q
          | inr (x, k, q) ↦ ap (λ z. z.name) q ∙ (text_beq_iff _ _).0 k
        ],
        elim from [ inl q ↦ ap (λ x. x.description) q | inr (x, k, q) ↦ ap (λ z. z.description) q ],
      )

  returned_id :
      lookup (λ (x : RoleRow). x.name == role.name) (λ x. x.id) (overwritten_role role db)
      ≡ some (returned_row.0).id
  unfolding lookup
  returned_id = rw (returned_row.1) refl

  -- Overwriting a role that lists permissions always succeeds. The role has its name and
  -- description afterwards; of the permissions listed under a name the last one is there, with
  -- its action, its constraints and its description; the permissions of the role under names that
  -- are not listed, and those of other roles, are as before.
  pub overwrite_role-Overwritten :
      is_empty role.permissions ≡ false
      → (i : ℕ) × ((overwrite_role role db).0 ≡ ok tt)
        × Overwritten role i db (overwrite_role role db).1
  unfolding overwrite_role validate_role upsert_role
  overwrite_role-Overwritten h =
      let (r, e, n, d) = returned_row in
      (
        r.id,
        rw (h, overwrite_role, returned_id) refl,
        rw (h, overwrite_role, returned_id)
            (record {
              row = r;
              row_exists = (first_found _ (overwritten_role role db) r e).0;
              id_is = refl;
              name_is = n;
              description_is = d;
              listed = λ before later p s absent. (
                permission_row r.id p,
                last_listed r.id role.permissions before later db.permission p s absent,
                permission_row-Holds r.id p,
              );
              unlisted = λ q absent.
                  upsert_permissions-other _ db.permission q
                    (Unlisted-any r.id role.permissions q absent);
            }),
      )
