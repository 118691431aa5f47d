-- ===== src/Store/Principal/Group/Members.antt =====
-- The members of a group that overwriteInDb has written.
use arborist.Base.{
  ℕ, Text, ◌≡◌, ◌↔◌, ◌⊎◌, refl, ap, sym, ◌∙◌, inl, inr, ◌&&◌, Option, some, map, ◌==◌, text_eq,
  nat_eq, nat_beq_iff, Elem, Option-cases, Bool-cases, and_split, and_join, false≢true, ltb, length,
}
use arborist.Base.Exec.{ok, after_ok}
use arborist.Store.Schema.{Db, PolicyRow, UsrGrpRow}
use arborist.Store.Rows.{
  insert_all, Elem-delete, provider_fits, ProviderFits, provider_fits-ProviderFits,
}
use arborist.Store.Lookup.{select_grp_id}
use arborist.Store.Principal.Group.{
  Group, same_grp_policy, policies, attach_users, attach_policies, attach_usr_and_policy,
  clear_group, overwrite_group,
}
use arborist.Store.Principal.Group.Attach.{Joins, attach_users-Joins}

-- The row is of this group and, if one is given, of this provider.
abbrev pub Cleared : ℕ → Option Text → UsrGrpRow → Type 0
Cleared group_id provider ug = (ug.grp_id ≡ group_id) × ProviderFits provider ug.authz_provider

module _ {P : Type 0} where
  attach_policies-usr_grp :
      (group : Group) (i : ℕ) (provider : Option Text) (db : Db P)
      → (attach_policies group i provider db).1.usr_grp ≡ db.usr_grp
  unfolding attach_policies
  attach_policies-usr_grp group i provider db = elim (Bool-cases (ltb 0 (length group.policies))) [
    | inl e ↦ elim (Bool-cases (ltb (length (policies db group)) (length group.policies))) [
      | inl k ↦ rw (e, attach_policies, k) refl
      | inr k ↦
          elim (Option-cases (
            insert_all same_grp_policy
              (map
                (λ (p : PolicyRow). record {
                  grp_id = i;
                  policy_id = p.id;
                  authz_provider = provider;
                })
                (policies db group))
              db.grp_policy)) [
                | inl z ↦ rw (e, attach_policies, k, z) refl
                | inr (rows, z) ↦ rw (e, attach_policies, k, z) refl
              ]
    ]
    | inr e ↦ rw (e, attach_policies) refl
  ]

  clear_group-rows :
      (i : ℕ) (provider : Option Text) (db : Db P) (ug : UsrGrpRow)
      → Elem ug (clear_group i provider db).usr_grp ↔ (Elem ug db.usr_grp × ¬ Cleared i provider ug)
  unfolding clear_group
  clear_group-rows i provider db ug = (
    λ m.
        let (k, f) = (Elem-delete _ db.usr_grp ug).0 m in
        (
          k,
          λ c. false≢true (
              sym f
              ∙ and_join _ _ ((nat_beq_iff _ _).1 c.0)
                  ((provider_fits-ProviderFits provider ug.authz_provider).1 c.1)),
        ),
    λ k. (Elem-delete _ db.usr_grp ug).1 (
      k.0,
      elim (Bool-cases (ug.grp_id == i && provider_fits provider ug.authz_provider)) [
        | inl h ↦
            let (a, b) = and_split (ug.grp_id == i) _ h in
            absurd (
              k.1 (
                (nat_beq_iff _ _).0 a,
                (provider_fits-ProviderFits provider ug.authz_provider).0 b,
              ))
        | inr h ↦ h
      ],
    ),
  )

  unclear :
      (group : Group) (i : ℕ) (provider : Option Text) (db : Db P) (ug : UsrGrpRow)
      → Joins group i provider (clear_group i provider db) ug
      → Joins group i provider db ug
  unfolding clear_group
  unclear group i provider db ug j = j

  clear :
      (group : Group) (i : ℕ) (provider : Option Text) (db : Db P) (ug : UsrGrpRow)
      → Joins group i provider db ug
      → Joins group i provider (clear_group i provider db) ug
  unfolding clear_group
  clear group i provider db ug j = j

  -- If a group that exists is overwritten, the memberships afterwards are those that are not of this
  -- group, or not of the provider that is given, and one without an end for each user that the new
  -- group lists.
  pub overwrite_group-members :
      (group : Group) (provider : Option Text) (db db' : Db P) (i : ℕ) (ug : UsrGrpRow)
      → select_grp_id db group.name ≡ some i
      → overwrite_group group provider db ≡ (ok tt, db')
      → Elem ug db'.usr_grp
        ↔ ((Elem ug db.usr_grp × ¬ Cleared i provider ug) ⊎ Joins group i provider db ug)
  unfolding overwrite_group attach_usr_and_policy
  overwrite_group-members group provider db db' i ug hi h =
      let (_, db1, h1, h2) =
        after_ok (attach_users group i provider (clear_group i provider db)) _ db'
          (rw (hi, overwrite_group) at h) in
      let same : db'.usr_grp ≡ db1.usr_grp =
        rw (← ap (λ p. p.1.usr_grp) h2) (attach_policies-usr_grp group i provider db1) in
      rw same (members db1 h1)
    where
      members :
          (db1 : Db P)
          → attach_users group i provider (clear_group i provider db) ≡ (ok tt, db1)
          → Elem ug db1.usr_grp
            ↔ ((Elem ug db.usr_grp × ¬ Cleared i provider ug) ⊎ Joins group i provider db ug)
      members db1 h1 =
          let step = attach_users-Joins group i provider (clear_group i provider db) db1 ug h1 in
          let rows = clear_group-rows i provider db ug in
          (
            λ m. elim (step.0 m) [
              | inl k ↦ inl (rows.0 k)
              | inr j ↦ inr (unclear group i provider db ug j)
            ],
            λ s. elim s [
              | inl k ↦ step.1 (inl (rows.1 k))
              | inr j ↦ step.1 (inr (clear group i provider db ug j))
            ],
          )
