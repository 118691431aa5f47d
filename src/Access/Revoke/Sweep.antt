-- ===== src/Access/Revoke/Sweep.antt =====
-- What the loop of RevokeUserAccess over its candidates takes away.
use arborist.Base.{
  Text, codes, ◌≡◌, ◌↔◌, refl, sym, ◌∙◌, ap, inl, inr, Bool, true, false, ◌&&◌, List, [], ◌∷◌, map,
  ◌==◌, nat_eq, text_eq, nat_beq_iff, text_beq_iff, any, any_found, any_of_Elem, select, Elem, here,
  there, and_split, and_join, Bool-cases, false≢true,
}
use arborist.Core.Strings.{to_lower}
use arborist.Store.Schema.{Db, UsrRow, PolicyRow, UsrPolicyRow}
use arborist.Store.Rows.{Elem-delete}
use arborist.Access.Revoke.{
  DirectUserAccessCandidate, is_removable, entry, delete_exact_direct_user_policy,
  remove_candidates,
}

module _ {P : Type 0} where
  -- A grant of the policy of this name to a user of this lower-case name.
  pub record GrantOf (db : Db P) (username policy_name : Text) (up : UsrPolicyRow) : Type 0 where
    pub holder : UsrRow
    pub holder_exists : Elem holder db.usr
    pub of_holder : holder.id ≡ up.usr_id
    pub holder_name : to_lower holder.name ≡ username
    pub policy : PolicyRow
    pub policy_exists : Elem policy db.policy
    pub of_policy : policy.id ≡ up.policy_id
    pub policy_name_is : policy.name ≡ policy_name

  -- A grant of a policy that one of the candidates names and that may be removed.
  abbrev pub Swept : Db P → Text → List DirectUserAccessCandidate → UsrPolicyRow → Type 0
  Swept db username cs up =
      (c : DirectUserAccessCandidate) × Elem c cs
      × (is_removable c ≡ true)
      × GrantOf db username c.policy_id up

  abbrev names_grant : Db P → Text → Text → UsrPolicyRow → Bool
  names_grant db username policy_name up =
      any (λ u. u.id == up.usr_id && to_lower u.name == username) db.usr
      && any (λ p. p.id == up.policy_id && p.name == policy_name) db.policy

  names_grant-GrantOf :
      (db : Db P) (username policy_name : Text) (up : UsrPolicyRow)
      → (names_grant db username policy_name up ≡ true) ↔ GrantOf db username policy_name up
  names_grant-GrantOf db username policy_name up = (
    λ h.
        let (a, b) =
          and_split (any (λ u. u.id == up.usr_id && to_lower u.name == username) db.usr) _ h in
        let (u, m, k) = any_found _ db.usr a in
        let (k1, k2) = and_split (u.id == up.usr_id) _ k in
        let (p, n, q) = any_found _ db.policy b in
        let (q1, q2) = and_split (p.id == up.policy_id) _ q in
        record {
          holder = u;
          holder_exists = m;
          of_holder = (nat_beq_iff _ _).0 k1;
          holder_name = (text_beq_iff _ _).0 k2;
          policy = p;
          policy_exists = n;
          of_policy = (nat_beq_iff _ _).0 q1;
          policy_name_is = (text_beq_iff _ _).0 q2;
        },
    λ g.
        and_join _ _
          (any_of_Elem _ db.usr g.holder g.holder_exists
            (and_join _ _ ((nat_beq_iff _ _).1 g.of_holder) ((text_beq_iff _ _).1 g.holder_name)))
          (any_of_Elem _ db.policy g.policy g.policy_exists (
            and_join _ _ ((nat_beq_iff _ _).1 g.of_policy)
              ((text_beq_iff _ _).1 g.policy_name_is))),
  )

  delete_exact-rows :
      (db : Db P) (username policy_name : Text) (up : UsrPolicyRow)
      → Elem up (delete_exact_direct_user_policy db username policy_name).usr_policy
        ↔ (Elem up db.usr_policy × ¬ GrantOf db username policy_name up)
  unfolding delete_exact_direct_user_policy
  delete_exact-rows db username policy_name up = (
    λ m.
        let (k, f) = (Elem-delete _ db.usr_policy up).0 m in
        (k, λ g. false≢true (sym f ∙ (names_grant-GrantOf db username policy_name up).1 g)),
    λ k. (Elem-delete _ db.usr_policy up).1 (
      k.0,
      elim (Bool-cases (names_grant db username policy_name up)) [
        | inl h ↦ absurd (k.1 ((names_grant-GrantOf db username policy_name up).0 h))
        | inr h ↦ h
      ],
    ),
  )

  GrantOf-tables :
      (db db' : Db P) (policy_name : Text) (up : UsrPolicyRow) {username : Text}
      → db'.usr ≡ db.usr
      → db'.policy ≡ db.policy
      → GrantOf db username policy_name up
      → GrantOf db' username policy_name up
  GrantOf-tables db db' policy_name up u p g = record {
    holder = g.holder;
    holder_exists = rw u g.holder_exists;
    of_holder = g.of_holder;
    holder_name = g.holder_name;
    policy = g.policy;
    policy_exists = rw p g.policy_exists;
    of_policy = g.of_policy;
    policy_name_is = g.policy_name_is;
  }

  -- A revoked grant is one of the first candidate or of the others.
  Swept-cons :
      (db : Db P) (username : Text) (c : DirectUserAccessCandidate)
      (cs : List DirectUserAccessCandidate) (up : UsrPolicyRow)
      → Swept db username (c ∷ cs) up
      → ¬ GrantOf db username c.policy_id up
      → ¬ Swept (delete_exact_direct_user_policy db username c.policy_id) username cs up
      → ⊥
  unfolding delete_exact_direct_user_policy
  Swept-cons db username c cs up (d, here q, f, g) now later = now (rw q at g)
  Swept-cons db username c cs up (d, there n, f, g) now later =
      later (d, n, f, GrantOf-tables _ _ d.policy_id up refl refl g)

  Swept-skip :
      {db : Db P} {username : Text} (c : DirectUserAccessCandidate)
      (cs : List DirectUserAccessCandidate) (up : UsrPolicyRow)
      → is_removable c ≡ false
      → Swept db username (c ∷ cs) up
      → ¬ Swept db username cs up
      → ⊥
  Swept-skip c cs up e (d, here q, f, g) later = false≢true (sym e ∙ (rw q at f))
  Swept-skip c cs up e (d, there n, f, g) later = later (d, n, f, g)

  -- The same database but for the table `usr_policy`.
  abbrev pub OnlyGrants : Db P → Db P → Type 0
  OnlyGrants db db' = db' ≡ record db { usr_policy = db'.usr_policy }

  -- The loop takes away what its candidates name, reports each of them, and leaves the other tables.
  pub remove_candidates-rows :
      (username role_id : Text) (cs : List DirectUserAccessCandidate) (db : Db P)
      → ((up : UsrPolicyRow)
          → Elem up (remove_candidates username role_id cs db).1.usr_policy
            ↔ (Elem up db.usr_policy × ¬ Swept db username cs up))
        × OnlyGrants db (remove_candidates username role_id cs db).1
        × ((remove_candidates username role_id cs db).0.0
            ≡ map (λ c. entry (codes "direct") c.policy_id role_id []) (select is_removable cs))
  unfolding remove_candidates select delete_exact_direct_user_policy
  remove_candidates-rows username role_id [] db =
      (λ up. (λ m. (m, λ (c, k, _, _). elim k [ ]), λ k. k.0), refl, refl)
  remove_candidates-rows username role_id (c ∷ cs) db = elim (Bool-cases (is_removable c)) [
    | inl e ↦
        let db1 = delete_exact_direct_user_policy db username c.policy_id in
        let (rows, only, told) = remove_candidates-rows username role_id cs db1 in
        rw (e, remove_candidates)
          (
            λ up. (
              λ m.
                  let (k, no_later) = (rows up).0 m in
                  let (k', no_now) = (delete_exact-rows db username c.policy_id up).0 k in
                  (k', λ r. Swept-cons db username c cs up r no_now no_later),
              λ k. (rows up).1 (
                (delete_exact-rows db username c.policy_id up).1
                    (k.0, λ g. k.1 (c, here refl, e, g)),
                λ (d, n, f, g).
                    k.1 (d, there n, f, GrantOf-tables db1 db d.policy_id up refl refl g),
              ),
            ),
            only,
            ap (λ t. entry (codes "direct") c.policy_id role_id [] ∷ t) told,
          )
    | inr e ↦
        let (rows, only, told) = remove_candidates-rows username role_id cs db in
        rw (e, remove_candidates)
          (
            λ up. (
              λ m. let (k, no_later) = (rows up).0 m in (k, λ r. Swept-skip c cs up e r no_later),
              λ k. (rows up).1 (k.0, λ (d, n, f, g). k.1 (d, there n, f, g)),
            ),
            only,
            told,
          )
  ]
