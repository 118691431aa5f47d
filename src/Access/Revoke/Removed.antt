-- ===== src/Access/Revoke/Removed.antt =====
-- What RevokeUserAccess takes away, and what it reports.
use arborist.Base.{
  codes, ℕ, ◌≡◌, ◌↔◌, sym, ◌∙◌, ap, subst, some, List, [], map, select, Elem, Elem-select,
  Elem-select_of, Elem-map, Elem-map_of,
}
use arborist.Base.Exec.{ok, or_fail_ok, guard_ok, ok_injective}
use arborist.Core.Paths.{format_path_for_db}
use arborist.Store.Ltree.{Ltree, IsLawful}
use arborist.Store.Schema.{Db, PolicyRow, UsrPolicyRow}
use arborist.Access.{
  AccessUserRequest, AccessUserResponse, AccessMutationEntry, normalize_access_user_request,
  is_incomplete,
}
use arborist.Access.Revoke.{
  DirectUserAccessCandidate, direct_user_access_candidates, is_removable, entry, revoke_at,
  revoke_user_access,
}
use arborist.Access.Revoke.Sweep.{GrantOf, Swept, OnlyGrants, remove_candidates-rows}
use arborist.Access.Revoke.Candidates.{IsRevocable, removable-IsRevocable, IsRevocable-removable}

module _ (L : Ltree) (now : ℕ) (request : AccessUserRequest) (db : Db L.Label) where
  -- The policies that the request takes away from its user at a label path.
  abbrev pub Revocable : L.Label → PolicyRow → Type 0
  Revocable = IsRevocable L db now request.username request.role_id

  -- What a revocation did: the rows of `usr_policy`, and the entries of `removed`.
  pub record Revocation (response : AccessUserResponse) (db' : Db L.Label) : Type 0 where
    pub wanted : L.Label
    pub accepted : L.text2ltree (format_path_for_db request.resource_path) ≡ some wanted
    pub rows :
        (up : UsrPolicyRow)
        → Elem up db'.usr_policy ↔ (
            Elem up db.usr_policy
            × ¬ ((p : PolicyRow) × Revocable wanted p × GrantOf db request.username p.name up))
    pub only_rows : OnlyGrants db db'
    pub removed :
        (e : AccessMutationEntry)
        → Elem e response.removed ↔ (
            (p : PolicyRow) × Revocable wanted p
            × (e ≡ record {
              kind = codes "direct";
              policy_id = p.name;
              role_id = request.role_id;
              reason = [];
            }))

  module _ (laws : IsLawful L) (wanted : L.Label) where
    abbrev candidates : List DirectUserAccessCandidate
    candidates = direct_user_access_candidates L db now request wanted

    Swept-iff :
        (up : UsrPolicyRow)
        → Swept db request.username candidates up
          ↔ ((p : PolicyRow) × Revocable wanted p × GrantOf db request.username p.name up)
    Swept-iff up = (
      λ (c, m, k, g).
          let (p, v, e) = removable-IsRevocable L db now laws request wanted c m k in
          (p, v, subst (λ t. GrantOf db request.username t up) e g),
      λ (p, v, g).
          let (c, m, k, e) = IsRevocable-removable L db now laws request wanted p v in
          (c, m, k, subst (λ t. GrantOf db request.username t up) (sym e) g),
    )

    reported_iff :
        (e : AccessMutationEntry)
        → Elem e (
            map
              (λ c. entry (codes "direct") c.policy_id request.role_id [])
              (select is_removable candidates))
          ↔ ((p : PolicyRow) × Revocable wanted p
              × (e ≡ entry (codes "direct") p.name request.role_id []))
    reported_iff e = (
      λ m.
          let (c, n, q) = Elem-map _ _ e m in
          let (n', k) = Elem-select is_removable candidates c n in
          let (p, v, s) = removable-IsRevocable L db now laws request wanted c n' k in
          (p, v, q ∙ ap (λ t. entry (codes "direct") t request.role_id []) s),
      λ (p, v, q).
          let (c, n, k, s) = IsRevocable-removable L db now laws request wanted p v in
          rw (q ∙ ap (λ t. entry (codes "direct") t request.role_id []) (sym s))
            (Elem-map_of _ _ c (Elem-select_of is_removable candidates c n k)),
    )

-- If revoking succeeds, it has taken away exactly the grants to the user, of whatever provider
-- and expired or not, of policies of these names: the user holds one unexpired grant of the
-- policy, it was not generated for an owner, it has one role, the requested one, and one
-- resource, the one at the requested path. The removed entries name just these policies, and no
-- table but `usr_policy` changes.
pub revoke_user_access-rows :
    (L : Ltree)
    → IsLawful L
    → (now : ℕ) (given : AccessUserRequest) (response : AccessUserResponse) (db db' : Db L.Label)
    → revoke_user_access L now given db ≡ (ok response, db')
    → Revocation L now (normalize_access_user_request given) db response db'
unfolding revoke_user_access revoke_at
revoke_user_access-rows L laws now given response db db' h =
    let request = normalize_access_user_request given in
    let (_, h0) = guard_ok (is_incomplete request) 400 db _ db' h in
    let (wanted, e, h1) =
      or_fail_ok (L.text2ltree (format_path_for_db request.resource_path)) 500 db _ db' h0 in
    let (same, z) = ok_injective _ response _ db' h1 in
    let (rows, only, told) =
      remove_candidates-rows request.username request.role_id
        (candidates L now request db laws wanted) db in
    record {
      wanted = wanted;
      accepted = e;
      rows = λ up. (
        λ m.
            let (k, n) = (rows up).0 (rw (z) m) in
            (k, λ v. n ((Swept-iff L now request db laws wanted up).1 v)),
        λ k.
            rw (← z)
              ((rows up).1 (k.0, λ s. k.1 ((Swept-iff L now request db laws wanted up).0 s))),
      );
      only_rows = rw (← z) only;
      removed = λ e'.
          rw (ap (λ r. r.removed) (sym same) ∙ told) (reported_iff L now request db laws wanted e');
    }
