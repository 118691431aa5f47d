-- ===== src/Engine/Spec/Reads.antt =====
-- The tests of Engine/Grants.antt on a policy say what Engine/Spec.antt describes.
use arborist.Base.{
  ℕ, Text, codes, ◌≡◌, refl, ◌↔◌, inl, inr, true, List, [], ◌∷◌, ◌==◌, nat_eq, text_eq, nat_beq_iff,
  text_beq_iff, Elem, any_found, any_of_Elem, Elem-join, Elem-join_of, Elem-select, Elem-select_of,
  and_split, and_join, or_split, or_join,
}
use arborist.Store.Schema.{Db, ResourceRow, PolicyResourceRow}
use arborist.Engine.Grants.{wildcard, permits, in_filter, policy_resources}
use arborist.Engine.Spec.{Fits, Permits, Listed, unrestricted, named, Covers}

Fits-iff : (column wanted : Text) → (wildcard column wanted ≡ true) ↔ Fits column wanted
Fits-iff column wanted = (
  λ h. elim (or_split (column == wanted) (column == codes "*") h) [
    | inl e ↦ inl ((text_beq_iff _ _).0 e)
    | inr e ↦ inr ((text_beq_iff _ _).0 e)
  ],
  λ h.
      or_join (column == wanted) (column == codes "*")
        (elim h [ inl e ↦ inl ((text_beq_iff _ _).1 e) | inr e ↦ inr ((text_beq_iff _ _).1 e) ]),
)

module _ {P : Type 0} (db : Db P) where
  pub permits-Permits :
      (i : ℕ) (service method : Text)
      → permits db i service method ≡ true
      → Permits db i service method
  unfolding permits
  permits-Permits i service method h =
      let (pr, mpr, h1) = any_found _ db.policy_role h in
      let (h2, h3) = and_split (pr.policy_id == i) _ h1 in
      let (pm, mpm, h4) = any_found _ db.permission h3 in
      let (h5, h6) = and_split (pm.role_id == pr.role_id) _ h4 in
      let (h7, h8) = and_split (wildcard pm.service service) _ h6 in
      record {
        link = pr;
        permission = pm;
        link_exists = mpr;
        of_policy = (nat_beq_iff _ _).0 h2;
        permission_exists = mpm;
        of_role = (nat_beq_iff _ _).0 h5;
        fits_service = (Fits-iff _ _).0 h7;
        fits_method = (Fits-iff _ _).0 h8;
      }

  pub permits-of :
      (i : ℕ) (service method : Text)
      → Permits db i service method
      → permits db i service method ≡ true
  unfolding permits
  permits-of i service method p = any_of_Elem _ db.policy_role p.link p.link_exists (
      and_join _ _ ((nat_beq_iff _ _).1 p.of_policy) (
        any_of_Elem _ db.permission p.permission p.permission_exists (
          and_join _ _ ((nat_beq_iff _ _).1 p.of_role)
            (and_join _ _ ((Fits-iff _ _).1 p.fits_service) ((Fits-iff _ _).1 p.fits_method)))))

  pub in_filter-Listed :
      (names : List Text) (i : ℕ) → in_filter db names i ≡ true → Listed db names i
  unfolding in_filter
  in_filter-Listed [] i h = unrestricted refl
  in_filter-Listed (n ∷ names) i h =
      let (p, mp, h1) = any_found _ db.policy h in
      let (h2, h3) = and_split (p.id == i) _ h1 in
      let (m, mm, e) = any_found _ (n ∷ names) h3 in
      named p m mp ((nat_beq_iff _ _).0 h2) mm ((text_beq_iff _ _).0 e)

  pub in_filter-of : (names : List Text) (i : ℕ) → Listed db names i → in_filter db names i ≡ true
  unfolding in_filter
  in_filter-of [] i l = refl
  in_filter-of (n ∷ names) i (unrestricted e) = cc
  in_filter-of (n ∷ names) i (named p m mp h1 mm e) = any_of_Elem _ db.policy p mp (
      and_join _ _ ((nat_beq_iff _ _).1 h1)
        (any_of_Elem (λ k. p.name == k) (n ∷ names) m mm ((text_beq_iff _ _).1 e)))

  pub policy_resources-Covers :
      (i : ℕ) (r : ResourceRow P) → Elem r (policy_resources db i) → Covers db i r
  unfolding policy_resources
  policy_resources-Covers i r m =
      let (pr, mpr, m1) = Elem-join _ _ r m in
      let (mpr', h) = Elem-select _ db.policy_resource pr mpr in
      let (mr, h2) = Elem-select _ db.resource r m1 in
      record {
        link = pr;
        link_exists = mpr';
        of_policy = (nat_beq_iff _ _).0 h;
        root_exists = mr;
        of_resource = (nat_beq_iff _ _).0 h2;
      }

  pub policy_resources-of :
      (i : ℕ) (r : ResourceRow P) → Covers db i r → Elem r (policy_resources db i)
  unfolding policy_resources
  policy_resources-of i r c =
      Elem-join_of _ _ c.link r
        (Elem-select_of (λ (l : PolicyResourceRow). l.policy_id == i) db.policy_resource c.link
          c.link_exists ((nat_beq_iff _ _).1 c.of_policy))
        (Elem-select_of (λ (q : ResourceRow P). q.id == c.link.resource_id) db.resource r
          c.root_exists ((nat_beq_iff _ _).1 c.of_resource))
