-- ===== src/Ownership/Bindings/Removed.antt =====
-- What removing an owner takes away.
use arborist.Base.{
  Text, codes, ◌≡◌, ◌↔◌, refl, sym, ◌∙◌, inl, inr, Bool, true, ◌&&◌, List, some, [], ◌==◌, nat_eq,
  text_eq, nat_beq_iff, text_beq_iff, any, any_found, any_of_Elem, Elem, and_split, and_join,
  Bool-cases, false≢true,
}
use arborist.Base.Exec.{ok}
use arborist.Core.Strings.{trim_space, to_lower}
use arborist.Core.Paths.{clean_resource_path, format_path_for_db}
use arborist.Store.Ltree.{Ltree, IsLawful}
use arborist.Store.Schema.{Db, OwnershipBindingRow, ResourceRow, PolicyRow, UsrRow, UsrPolicyRow}
use arborist.Store.Rows.{delete, Elem-delete}
use arborist.Ownership.{owner_subject_type}
use arborist.Ownership.Bindings.Removal.{
  stands_at, is_policy, is_binding_of, is_generated_grant, is_removed_binding,
  delete_generated_user_binding_with_count, delete_generated_user_binding, remove_owner_binding,
}

-- The foreign key of ownership_binding_metadata
abbrev pub PoliciesExist : {P : Type 0} → Db P → Type 0
PoliciesExist db =
    (b : OwnershipBindingRow)
    → Elem b db.ownership_binding
    → (q : PolicyRow) × Elem q db.policy × (q.id ≡ b.policy_id)

module _ (L : Ltree) (laws : IsLawful L) (db : Db L.Label) (p : L.Label) (user : Text) where
  -- The metadata make this user, of the lower-case name, an owner of the resource at the label path.
  pub record OwnerRow (b : OwnershipBindingRow) : Type 0 where
    pub row : ResourceRow L.Label
    pub row_exists : Elem row db.resource
    pub of_row : row.id ≡ b.resource_id
    pub at_path : row.path ≡ p
    pub of_user : b.subject_type ≡ owner_subject_type
    pub of_name : to_lower b.subject_name ≡ user
    pub as_owner : b.kind ≡ codes "owner"

  -- A grant to the user of a policy with such metadata.
  pub record OwnerGrant (up : UsrPolicyRow) : Type 0 where
    pub holder : UsrRow
    pub holder_exists : Elem holder db.usr
    pub of_holder : holder.id ≡ up.usr_id
    pub holder_name : to_lower holder.name ≡ user
    pub binding : OwnershipBindingRow
    pub binding_exists : Elem binding db.ownership_binding
    pub of_policy : binding.policy_id ≡ up.policy_id
    pub owner_row : OwnerRow binding

  is_binding_of-OwnerRow :
      (b : OwnershipBindingRow) → (is_binding_of L db p user (codes "owner") b ≡ true) ↔ OwnerRow b
  unfolding is_binding_of
  is_binding_of-OwnerRow b = (
    λ h.
        let (h1, h2) = and_split (stands_at L db p b.resource_id) _ h in
        let (h3, h4) = and_split (b.subject_type == owner_subject_type) _ h2 in
        let (h5, h6) = and_split (to_lower b.subject_name == user) _ h4 in
        let (r, m, k) = any_found _ db.resource h1 in
        let (k1, k2) = and_split (r.id == b.resource_id) _ k in
        record {
          row = r;
          row_exists = m;
          of_row = (nat_beq_iff _ _).0 k1;
          at_path = (laws.path_beq_iff r.path p).0 k2;
          of_user = (text_beq_iff _ _).0 h3;
          of_name = (text_beq_iff _ _).0 h5;
          as_owner = (text_beq_iff _ _).0 h6;
        },
    λ o.
        and_join _ _
          (any_of_Elem _ db.resource o.row o.row_exists (
            and_join _ _ ((nat_beq_iff _ _).1 o.of_row)
              ((laws.path_beq_iff o.row.path p).1 o.at_path)))
          (and_join _ _ ((text_beq_iff _ _).1 o.of_user)
            (and_join _ _ ((text_beq_iff _ _).1 o.of_name) ((text_beq_iff _ _).1 o.as_owner))),
  )

  policy_exists :
      PoliciesExist db
      → (path : Text) (b : OwnershipBindingRow) → Elem b db.ownership_binding
      → is_policy L db path (codes "owner") [] b.policy_id ≡ true
  policy_exists all path b m =
      let (q, k, e) = all b m in
      any_of_Elem _ db.policy q k (and_join _ _ ((nat_beq_iff _ _).1 e) refl)

  removed-OwnerRow :
      PoliciesExist db
      → (path : Text) (b : OwnershipBindingRow) → Elem b db.ownership_binding
      → (is_removed_binding L db p path user (codes "owner") [] b ≡ true) ↔ OwnerRow b
  unfolding is_removed_binding
  removed-OwnerRow all path b m = (
    λ h.
        (is_binding_of-OwnerRow b).0
          (and_split (is_policy L db path (codes "owner") [] b.policy_id) _ h).1,
    λ o. and_join _ _ (policy_exists all path b m) ((is_binding_of-OwnerRow b).1 o),
  )

  granted-OwnerGrant :
      PoliciesExist db
      → (path : Text) (up : UsrPolicyRow)
      → (is_generated_grant L db p path user (codes "owner") [] up ≡ true) ↔ OwnerGrant up
  unfolding is_generated_grant
  granted-OwnerGrant all path up = (
    λ h.
        let (h1, h2) =
          and_split (any (λ u. u.id == up.usr_id && to_lower u.name == user) db.usr) _ h in
        let (h3, h4) = and_split (is_policy L db path (codes "owner") [] up.policy_id) _ h2 in
        let (u, m, k) = any_found _ db.usr h1 in
        let (k1, k2) = and_split (u.id == up.usr_id) _ k in
        let (b, n, q) = any_found _ db.ownership_binding h4 in
        let (q1, q2) = and_split (b.policy_id == up.policy_id) _ q in
        record {
          holder = u;
          holder_exists = m;
          of_holder = (nat_beq_iff _ _).0 k1;
          holder_name = (text_beq_iff _ _).0 k2;
          binding = b;
          binding_exists = n;
          of_policy = (nat_beq_iff _ _).0 q1;
          owner_row = (is_binding_of-OwnerRow b).0 q2;
        },
    λ o.
        and_join _ _
          (any_of_Elem _ db.usr o.holder o.holder_exists
            (and_join _ _ ((nat_beq_iff _ _).1 o.of_holder) ((text_beq_iff _ _).1 o.holder_name)))
          (and_join _ _ (rw o.of_policy at (policy_exists all path o.binding o.binding_exists)) (
            any_of_Elem _ db.ownership_binding o.binding o.binding_exists (
              and_join _ _ ((nat_beq_iff _ _).1 o.of_policy)
                ((is_binding_of-OwnerRow o.binding).1 o.owner_row)))),
  )

-- The rows that a DELETE leaves, by what its condition means.
deleted_iff :
    {A : Type 0} (test : A → Bool) (xs : List A) (Gone : A → Type 0) (x : A)
    → (Elem x xs → (test x ≡ true) ↔ Gone x)
    → Elem x (delete test xs) ↔ (Elem x xs × ¬ Gone x)
deleted_iff test xs Gone x means = (
  λ m. let (k, f) = (Elem-delete test xs x).0 m in (k, λ g. false≢true (sym f ∙ (means k).1 g)),
  λ (k, keeps).
      (Elem-delete test xs x).1
        (k, elim (Bool-cases (test x)) [ inl h ↦ absurd (keeps ((means k).0 h)) | inr h ↦ h ]),
)

-- If the database accepts the cleaned path and every binding belongs to a policy, removing an owner
-- succeeds. It takes away exactly the metadata that make the user an owner of the resource at the path,
-- and exactly the user's grants of policies with such metadata.
pub remove_owner_binding-rows :
    (L : Ltree) (laws : IsLawful L) (db : Db L.Label) (path username : Text) (p : L.Label)
    → L.text2ltree (format_path_for_db (clean_resource_path path)) ≡ some p
    → PoliciesExist db
    → ((remove_owner_binding L path username db).0 ≡ ok tt)
      × ((b : OwnershipBindingRow)
          → Elem b (remove_owner_binding L path username db).1.ownership_binding ↔ (
              Elem b db.ownership_binding
              × ¬ OwnerRow L laws db p (to_lower (trim_space username)) b))
      × ((up : UsrPolicyRow)
          → Elem up (remove_owner_binding L path username db).1.usr_policy ↔ (
              Elem up db.usr_policy × ¬ OwnerGrant L laws db p (to_lower (trim_space username)) up))
unfolding remove_owner_binding delete_generated_user_binding
    delete_generated_user_binding_with_count
remove_owner_binding-rows L laws db path username p e all =
    let user = to_lower (trim_space username) in
    rw (e, remove_owner_binding)
      (
        refl,
        λ b.
            deleted_iff _ db.ownership_binding (OwnerRow L laws db p user) b
              (removed-OwnerRow L laws db p user all (clean_resource_path path) b),
        λ up.
            deleted_iff _ db.usr_policy (OwnerGrant L laws db p user) up
              (λ m. granted-OwnerGrant L laws db p user all (clean_resource_path path) up),
      )
