-- ===== src/Engine/Spec.antt =====
-- What the queries of the engine mean, said by the rows that exist.
pub mod Holds
pub mod Reads
use arborist.Base.{
  ℕ, Text, codes, ◌<◌, ◌≡◌, refl, sym, ◌↔◌, ◌⊎◌, inl, inr, Bool, true, ◌&&◌, ◌||◌, Option, none,
  some, List, [], ◌∷◌, ◌==◌, nat_eq, text_eq, nat_beq_iff, text_beq_iff, Elem, here, there, any,
  any_found, any_of_Elem, Elem-append_cases, Elem-append_left, Elem-append_right, Elem-join,
  Elem-join_of, Elem-pick, Elem-pick_of, Elem-select, Elem-select_of, and_split, and_join, or_split,
  or_join, arith,
}
use arborist.Core.Strings.{to_lower}
use arborist.Store.Schema.{
  Db, ResourceRow, PermissionRow, PolicyRow, PolicyRoleRow, PolicyResourceRow, UsrRow, UsrPolicyRow,
  GrpRow, UsrGrpRow, GrpPolicyRow, ClientRow, ClientPolicyRow,
}
use arborist.Engine.Request.{anonymous_group, logged_in_group}
use arborist.Engine.Grants.{
  live, wildcard, direct_policies, member_policies, group_policies, user_policies, client_policies,
  permits, in_filter, policy_resources,
}

-- The binding has no end, or it ends later.
abbrev pub Unexpired : ℕ → Option ℕ → Type 0
Unexpired now none = Unit
Unexpired now (some t) = now < t

-- A permission names the value itself or the star.
abbrev pub Fits : Text → Text → Type 0
Fits column wanted = (column ≡ wanted) ⊎ (column ≡ codes "*")

module _ {P : Type 0} (db : Db P) where
  -- The group of this name holds the policy.
  pub record GroupHolds (name : Text) (policy_id : ℕ) : Type 0 where
    pub group : GrpRow
    pub binding : GrpPolicyRow
    pub group_exists : Elem group db.grp
    pub group_name : group.name ≡ name
    pub binding_exists : Elem binding db.grp_policy
    pub of_group : binding.grp_id ≡ group.id
    pub of_policy : policy_id ≡ binding.policy_id

  -- The user of this lower-case name holds the policy: by an unexpired grant of its own, by an
  -- unexpired membership in a group, or by one of the two built-in groups.
  pub data UserHolds (now : ℕ) (name : Text) (policy_id : ℕ) : Type 0 where
    direct :
        (u : UsrRow) (up : UsrPolicyRow)
        → Elem u db.usr
        → to_lower u.name ≡ name
        → Elem up db.usr_policy
        → up.usr_id ≡ u.id
        → Unexpired now up.expires_at
        → policy_id ≡ up.policy_id
        → UserHolds now name policy_id
    member :
        (u : UsrRow) (ug : UsrGrpRow) (gp : GrpPolicyRow)
        → Elem u db.usr
        → to_lower u.name ≡ name
        → Elem ug db.usr_grp
        → ug.usr_id ≡ u.id
        → Unexpired now ug.expires_at
        → Elem gp db.grp_policy
        → gp.grp_id ≡ ug.grp_id
        → policy_id ≡ gp.policy_id
        → UserHolds now name policy_id
    built_in :
        GroupHolds anonymous_group policy_id ⊎ GroupHolds logged_in_group policy_id
        → UserHolds now name policy_id

  pub record ClientHolds (client_id : Text) (policy_id : ℕ) : Type 0 where
    pub client : ClientRow
    pub binding : ClientPolicyRow
    pub client_exists : Elem client db.client
    pub external_id : client.external_client_id ≡ client_id
    pub binding_exists : Elem binding db.client_policy
    pub of_client : binding.client_id ≡ client.id
    pub of_policy : policy_id ≡ binding.policy_id

  -- A role of the policy has a permission for the action.
  pub record Permits (policy_id : ℕ) (service method : Text) : Type 0 where
    pub link : PolicyRoleRow
    pub permission : PermissionRow
    pub link_exists : Elem link db.policy_role
    pub of_policy : link.policy_id ≡ policy_id
    pub permission_exists : Elem permission db.permission
    pub of_role : permission.role_id ≡ link.role_id
    pub fits_service : Fits permission.service service
    pub fits_method : Fits permission.method method

  -- The request names no policies, or names this one.
  pub data Listed (names : List Text) (policy_id : ℕ) : Type 0 where
    unrestricted : names ≡ [] → Listed names policy_id
    named :
        (p : PolicyRow) (name : Text)
        → Elem p db.policy
        → p.id ≡ policy_id
        → Elem name names
        → p.name ≡ name
        → Listed names policy_id

  -- The policy is attached to the resource.
  pub record Covers (policy_id : ℕ) (root : ResourceRow P) : Type 0 where
    pub link : PolicyResourceRow
    pub link_exists : Elem link db.policy_resource
    pub of_policy : link.policy_id ≡ policy_id
    pub root_exists : Elem root db.resource
    pub of_resource : root.id ≡ link.resource_id
