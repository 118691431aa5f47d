-- ===== src/Store/Principal/User/Revokes.antt =====
-- Revoking the policies of a user.
use arborist.Base.{
  Text, ◌≡◌, ◌↔◌, refl, sym, ◌∙◌, inl, inr, Bool, true, ◌&&◌, Option, some, Elem, and_split,
  and_join, Bool-cases, false≢true,
}
use arborist.Base.Exec.{ok}
use arborist.Store.Schema.{Db, UsrPolicyRow}
use arborist.Store.Rows.{
  Elem-delete, provider_fits, ProviderFits, provider_fits-ProviderFits, equals_id, equals_id_iff,
}
use arborist.Store.Lookup.{select_usr_id, select_policy_id}
use arborist.Store.Principal.User.Bindings.{revoke_user_policy}

module _ {P : Type 0} (db : Db P) where
  -- The row that a revocation names: of this user, this policy and, if one is given, this provider.
  abbrev pub Named : Text → Text → Option Text → UsrPolicyRow → Type 0
  Named username policy_name authz_provider up =
      (select_usr_id db username ≡ some up.usr_id)
      × (select_policy_id db policy_name ≡ some up.policy_id)
      × ProviderFits authz_provider up.authz_provider

  -- The condition of the DELETE statement.
  abbrev test : Text → Text → Option Text → UsrPolicyRow → Bool
  test username policy_name provider up =
      equals_id (select_usr_id db username) up.usr_id
      && (equals_id (select_policy_id db policy_name) up.policy_id
          && provider_fits provider up.authz_provider)

  test_iff :
      (username policy_name : Text) (provider : Option Text) (up : UsrPolicyRow)
      → (test username policy_name provider up ≡ true) ↔ Named username policy_name provider up
  test_iff username policy_name provider up = (
    λ h.
        let (a, bc) = and_split (equals_id (select_usr_id db username) up.usr_id) _ h in
        let (b, c) = and_split (equals_id (select_policy_id db policy_name) up.policy_id) _ bc in
        (
          (equals_id_iff _ _).0 a,
          (equals_id_iff _ _).0 b,
          (provider_fits-ProviderFits provider up.authz_provider).0 c,
        ),
    λ n. and_join _ _ ((equals_id_iff _ _).1 n.0) (
        and_join _ _ ((equals_id_iff _ _).1 n.1)
          ((provider_fits-ProviderFits provider up.authz_provider).1 n.2)),
  )

  -- Revoking always succeeds, and takes away exactly the rows of this user, this policy and, if one is
  -- given, this provider.
  pub revoke_user_policy-rows :
      (username policy_name : Text) (authz_provider : Option Text) (up : UsrPolicyRow)
      → ((revoke_user_policy username policy_name authz_provider db).0 ≡ ok tt)
        × (Elem up (revoke_user_policy username policy_name authz_provider db).1.usr_policy
            ↔ (Elem up db.usr_policy × ¬ Named username policy_name authz_provider up))
  unfolding revoke_user_policy
  revoke_user_policy-rows username policy_name provider up = (
    refl,
    (
      λ m.
          let (k, f) = (Elem-delete _ db.usr_policy up).0 m in
          (k, λ n. false≢true (sym f ∙ (test_iff username policy_name provider up).1 n)),
      λ k. (Elem-delete _ db.usr_policy up).1 (
        k.0,
        elim (Bool-cases (test username policy_name provider up)) [
          | inl h ↦ absurd (k.1 ((test_iff username policy_name provider up).0 h))
          | inr h ↦ h
        ],
      ),
    ),
  )
