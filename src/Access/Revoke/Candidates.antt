-- ===== src/Access/Revoke/Candidates.antt =====
-- The candidates of RevokeUserAccess that may be removed, said by the rows that exist.
use arborist.Base.{
  ℕ, Text, ◌≡◌, ◌≢◌, ◌↔◌, sym, ◌∙◌, ap, inl, inr, Bool, true, false, not, ◌&&◌, ◌==◌, nat_eq,
  text_eq, bool_eq, nat_beq_iff, text_beq_iff, any, any_found, any_of_Elem, Elem, Elem-select,
  Elem-select_of, Elem-join, Elem-join_of, Elem-map, Elem-map_of, and_split, and_join, Bool-cases,
  false≢true, arith,
}
use arborist.Core.Strings.{to_lower}
use arborist.Engine.Grants.{live, policy_resources}
use arborist.Engine.Spec.{Unexpired, Covers}
use arborist.Engine.Spec.Holds.{live_iff}
use arborist.Engine.Spec.Reads.{policy_resources-Covers, policy_resources-of}
use arborist.Store.Ltree.{Ltree, IsLawful}
use arborist.Store.Schema.{
  Db, UsrRow, UsrPolicyRow, PolicyRow, PolicyRoleRow, RoleRow, ResourceRow, GeneratedPolicyRow,
}
use arborist.Access.{AccessUserRequest}
use arborist.Access.Revoke.{
  DirectUserAccessCandidate, same_direct, is_removable, is_generated, has_role, candidate_policies,
  roots_above, direct_candidate, direct_user_access_candidates,
}
use arborist.Access.Revoke.Counts.{
  Sole, count-Sole, Sole-count, same_direct_refl, same_direct-removable, Elem-distinct_by,
  Elem-distinct_by_of,
}

module _ (L : Ltree) (db : Db L.Label) (now : ℕ) where
  -- Revoking may take the policy away: a user of this lower-case name holds it, unexpired, it was not
  -- generated for an owner, its one role has the name, and its one resource is the one at the path.
  pub record IsRevocable (username role_name : Text) (wanted : L.Label) (p : PolicyRow)
      : Type 0 where
    pub holder : UsrRow
    pub holder_exists : Elem holder db.usr
    pub holder_name : to_lower holder.name ≡ username
    pub grant : UsrPolicyRow
    pub grant_exists : Elem grant db.usr_policy
    pub of_holder : grant.usr_id ≡ holder.id
    pub unexpired : Unexpired now grant.expires_at
    pub policy_exists : Elem p db.policy
    pub of_policy : p.id ≡ grant.policy_id
    pub not_generated : (g : GeneratedPolicyRow) → Elem g db.generated_policy → g.policy_id ≢ p.id
    pub one_role : Sole (λ pr. pr.policy_id) p.id db.policy_role
    pub role : RoleRow
    pub role_exists : Elem role db.role
    pub role_name_is : role.name ≡ role_name
    pub role_link : PolicyRoleRow
    pub role_link_exists : Elem role_link db.policy_role
    pub of_role : role.id ≡ role_link.role_id
    pub to_role : role_link.policy_id ≡ p.id
    pub one_resource : Sole (λ pr. pr.policy_id) p.id db.policy_resource
    pub resource : ResourceRow L.Label
    pub covers : Covers db p.id resource
    pub at_path : resource.path ≡ wanted

  not_generated_iff :
      (i : ℕ)
      → (is_generated db i ≡ false)
        ↔ ((g : GeneratedPolicyRow) → Elem g db.generated_policy → g.policy_id ≢ i)
  not_generated_iff i = (
    λ h g m e. false≢true (
        sym h
        ∙ any_of_Elem (λ g. g.policy_id == i) db.generated_policy g m ((nat_beq_iff _ _).1 e)),
    λ n. elim (Bool-cases (is_generated db i)) [
      | inl h ↦
          let (g, m, e) = any_found _ db.generated_policy h in
          absurd (n g m ((nat_beq_iff _ _).0 e))
      | inr h ↦ h
    ],
  )

  not_flip : (b : Bool) → (not b ≡ true) ↔ (b ≡ false)
  not_flip b = (λ h. ground arith, λ h. ground arith)

  module _ (laws : IsLawful L) (request : AccessUserRequest) (wanted : L.Label) where
    pub removable-IsRevocable :
        (c : DirectUserAccessCandidate)
        → Elem c (direct_user_access_candidates L db now request wanted)
        → is_removable c ≡ true
        → (p : PolicyRow) × IsRevocable request.username request.role_id wanted p
          × (c.policy_id ≡ p.name)
    unfolding direct_user_access_candidates candidate_policies roots_above direct_candidate
    removable-IsRevocable c m h =
        let (u, mu, m1) = Elem-join _ _ c (Elem-distinct_by same_direct _ c m) in
        let (mu', nu) = Elem-select _ db.usr u mu in
        let (up, mup, m2) = Elem-join _ _ c m1 in
        let (mup', hup) = Elem-select _ db.usr_policy up mup in
        let (hu, hl) = and_split (up.usr_id == u.id) _ hup in
        let (p, mp, m3) = Elem-join _ _ c m2 in
        let (mp', hp) = Elem-select _ db.policy p mp in
        let (hi, hr) = and_split (p.id == up.policy_id) _ hp in
        let (role, plain) = and_split (has_role db p.id request.role_id) _ hr in
        let (pr, mpr, hpr) = any_found _ db.policy_role role in
        let (hpr1, hpr2) = and_split (pr.policy_id == p.id) _ hpr in
        let (r, mr, hr1) = any_found _ db.role hpr2 in
        let (hr2, hr3) = and_split (r.id == pr.role_id) _ hr1 in
        let (root, mroot, shape) = Elem-map _ _ c m3 in
        let (mroot', _) = Elem-select _ (policy_resources db p.id) root mroot in
        let (exact, counts) =
          and_split (direct_candidate L db now wanted p root).is_exact_resource _ (rw shape at h) in
        let (roles, resources) =
          and_split ((direct_candidate L db now wanted p root).role_count == 1) _ counts in
        (
          p,
          record {
            holder = u;
            holder_exists = mu';
            holder_name = (text_beq_iff _ _).0 nu;
            grant = up;
            grant_exists = mup';
            of_holder = (nat_beq_iff _ _).0 hu;
            unexpired = (live_iff now up.expires_at).0 hl;
            policy_exists = mp';
            of_policy = (nat_beq_iff _ _).0 hi;
            not_generated = (not_generated_iff p.id).0 ((not_flip _).0 plain);
            one_role = count-Sole _ p.id db.policy_role ((nat_beq_iff _ _).0 roles);
            role = r;
            role_exists = mr;
            role_name_is = (text_beq_iff _ _).0 hr3;
            role_link = pr;
            role_link_exists = mpr;
            of_role = (nat_beq_iff _ _).0 hr2;
            to_role = (nat_beq_iff _ _).0 hpr1;
            one_resource = count-Sole _ p.id db.policy_resource ((nat_beq_iff _ _).0 resources);
            resource = root;
            covers = policy_resources-Covers db p.id root mroot';
            at_path = (laws.path_beq_iff root.path wanted).0 exact;
          },
          ap (λ d. d.policy_id) shape,
        )

    -- The row that the query has for a policy that may be revoked.
    IsRevocable-row :
        (p : PolicyRow) (v : IsRevocable request.username request.role_id wanted p)
        → (c : DirectUserAccessCandidate) × Elem c
            (direct_user_access_candidates L db now request wanted)
          × (same_direct (direct_candidate L db now wanted p v.resource) c ≡ true)
    unfolding direct_user_access_candidates candidate_policies roots_above
    IsRevocable-row p v =
        Elem-distinct_by_of same_direct same_direct_refl _
          (direct_candidate L db now wanted p v.resource)
          (Elem-join_of _ _ v.holder _
            (Elem-select_of _ db.usr v.holder v.holder_exists ((text_beq_iff _ _).1 v.holder_name))
            (Elem-join_of _ _ v.grant _
              (Elem-select_of
                (λ (up : UsrPolicyRow). up.usr_id == v.holder.id && live now up.expires_at)
                db.usr_policy v.grant v.grant_exists
                (and_join _ _ ((nat_beq_iff _ _).1 v.of_holder) ((live_iff now _).1 v.unexpired)))
              (Elem-join_of _ _ p _
                (Elem-select_of
                  (λ (q : PolicyRow).
                    q.id == v.grant.policy_id
                    && (has_role db q.id request.role_id && not (is_generated db q.id)))
                  db.policy p v.policy_exists
                  (and_join _ _ ((nat_beq_iff _ _).1 v.of_policy) (
                    and_join _ _ role
                      ((not_flip _).1 ((not_generated_iff p.id).1 v.not_generated)))))
                (Elem-map_of (direct_candidate L db now wanted p) _ v.resource (
                  Elem-select_of (λ (r : ResourceRow L.Label). L.descends wanted r.path) _
                    v.resource (policy_resources-of db p.id v.resource v.covers)
                    (rw v.at_path (laws.descends_refl wanted)))))))
      where
        role : has_role db p.id request.role_id ≡ true
        role =
            any_of_Elem
              (λ pr.
                pr.policy_id == p.id
                && any (λ r. r.id == pr.role_id && r.name == request.role_id) db.role)
              db.policy_role v.role_link v.role_link_exists
              (and_join _ _ ((nat_beq_iff _ _).1 v.to_role) (
                any_of_Elem (λ r. r.id == v.role_link.role_id && r.name == request.role_id) db.role
                  v.role v.role_exists
                  (and_join _ _ ((nat_beq_iff _ _).1 v.of_role)
                    ((text_beq_iff _ _).1 v.role_name_is))))

    pub IsRevocable-removable :
        (p : PolicyRow)
        → IsRevocable request.username request.role_id wanted p
        → (c : DirectUserAccessCandidate) × Elem c
            (direct_user_access_candidates L db now request wanted)
          × (is_removable c ≡ true)
          × (c.policy_id ≡ p.name)
    unfolding direct_candidate
    IsRevocable-removable p v =
        let (c, m, s) = IsRevocable-row p v in
        let removable = and_join _ _ ((laws.path_beq_iff _ _).1 v.at_path) (
          and_join _ _ ((nat_beq_iff _ _).1 (Sole-count _ p.id db.policy_role v.one_role))
            ((nat_beq_iff _ _).1 (Sole-count _ p.id db.policy_resource v.one_resource))) in
        let (k, e) =
          same_direct-removable (direct_candidate L db now wanted p v.resource) c s removable in
        (c, m, k, e)
