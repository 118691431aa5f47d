-- ===== src/Ownership/Service/Control.antt =====
-- Who may change the ownership of a resource, and that a refused or failed change leaves no trace.
use arborist.Base.{
  Text, codes, ℕ, ◌≡◌, ◌↔◌, ◌⊎◌, refl, sym, ◌∙◌, inl, inr, Bool, true, false, Option, none, some,
  ◌==◌, nat_eq, text_eq, nat_beq_iff, text_beq_iff, any_found, any_of_Elem, Elem, and_split,
  and_join, Bool-cases, false≢true,
}
use arborist.Base.Exec.{ok}
use arborist.Core.Strings.{to_lower}
use arborist.Core.Paths.{clean_resource_path, format_path_for_db}
use arborist.Engine.Authorize.{authorize_user}
use arborist.Store.Ltree.{Ltree, IsLawful}
use arborist.Store.Schema.{Db, OwnershipBindingRow, ResourceRow}
use arborist.Ownership.{owner_subject_type}
use arborist.Ownership.Service.{
  service_request, required, is_direct_owner, require_direct_owner, require_authz_method,
  require_ownership_control,
}

module _ (L : Ltree) (db : Db L.Label) where
  -- The user owns the resource at this label path.
  pub record Owns (p : L.Label) (username : Text) : Type 0 where
    pub binding : OwnershipBindingRow
    pub row : ResourceRow L.Label
    pub binding_exists : Elem binding db.ownership_binding
    pub row_exists : Elem row db.resource
    pub of_user : binding.subject_type ≡ owner_subject_type
    pub of_name : to_lower binding.subject_name ≡ to_lower username
    pub as_owner : binding.kind ≡ codes "owner"
    pub of_row : binding.resource_id ≡ row.id
    pub at_path : row.path ≡ p

  is_direct_owner-Owns :
      IsLawful L
      → (now : ℕ) (p : L.Label) (username : Text)
      → (is_direct_owner L db now p username ≡ true) ↔ Owns p username
  unfolding is_direct_owner
  is_direct_owner-Owns laws now p username = (
    λ h.
        let (b, m, k) = any_found _ db.ownership_binding h in
        let (k1, k2) = and_split (b.subject_type == owner_subject_type) _ k in
        let (k3, k4) = and_split (to_lower b.subject_name == to_lower username) _ k2 in
        let (k5, k6) = and_split (b.kind == codes "owner") _ k4 in
        let (r, n, q) = any_found _ db.resource k6 in
        let (q1, q2) = and_split (b.resource_id == r.id) _ q in
        record {
          binding = b;
          row = r;
          binding_exists = m;
          row_exists = n;
          of_user = (text_beq_iff _ _).0 k1;
          of_name = (text_beq_iff _ _).0 k3;
          as_owner = (text_beq_iff _ _).0 k5;
          of_row = (nat_beq_iff _ _).0 q1;
          at_path = (laws.path_beq_iff r.path p).0 q2;
        },
    λ o. any_of_Elem _ db.ownership_binding o.binding o.binding_exists (
        and_join _ _ ((text_beq_iff _ _).1 o.of_user) (
          and_join _ _ ((text_beq_iff _ _).1 o.of_name) (
            and_join _ _ ((text_beq_iff _ _).1 o.as_owner) (
              any_of_Elem _ db.resource o.row o.row_exists (
                and_join _ _ ((nat_beq_iff _ _).1 o.of_row)
                  ((laws.path_beq_iff o.row.path p).1 o.at_path)))))),
  )

  required_iff : (o : Option Bool) → (required o ≡ ok tt) ↔ (o ≡ some true)
  required_iff none = (λ h. absurd (cc h), λ h. absurd (cc h))
  required_iff (some false) = (λ h. absurd (cc h), λ h. absurd (cc h))
  required_iff (some true) = (λ h. refl, λ h. refl)

  module _ (laws : IsLawful L) (now : ℕ) (username : Text) where
    -- If the database accepts the path, the caller has control of it exactly as its owner or with the
    -- permission to manage owners there.
    pub require_ownership_control-Owns :
        (path : Text) (p : L.Label)
        → L.text2ltree (format_path_for_db (clean_resource_path (clean_resource_path path)))
          ≡ some p
        → (require_ownership_control L db now username path ≡ ok tt) ↔ (
            Owns p username
            ⊎ (authorize_user L db now (
                  service_request username
                    (clean_resource_path path)
                    (codes "arborist")
                    (codes "manage-owners"))
                ≡ some true))
    unfolding require_ownership_control require_direct_owner require_authz_method
    require_ownership_control-Owns path p e =
        elim (Bool-cases (is_direct_owner L db now p username)) [
          | inl h ↦
              rw (e, require_ownership_control, require_direct_owner, h)
                (λ _. inl ((is_direct_owner-Owns laws now p username).0 h), λ _. refl)
          | inr h ↦
              rw (e, require_ownership_control, require_direct_owner, h)
                (λ k. inr ((required_iff _).0 k), λ k. (required_iff _).1 (managed h k))
        ]
      where
        managed :
            {A : Type 0} → is_direct_owner L db now p username ≡ false → Owns p username ⊎ A → A
        managed h (inl o) =
            absurd (false≢true (sym h ∙ (is_direct_owner-Owns laws now p username).1 o))
        managed h (inr a) = a
