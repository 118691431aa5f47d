-- ===== src/Store/Principal/Group/Attach.antt =====
-- The members that attachUsrAndPolicy adds to a group.
use arborist.Base.{
  ℕ, Text, ◌≡◌, ◌↔◌, ◌⊎◌, refl, ap, sym, subst, inl, inr, false, Option, none, some, List, [], ◌∷◌,
  map, text_eq, nat_eq, text_beq_iff, any_found, any_of_Elem, Elem, Elem-select, Elem-select_of,
  Elem-map, Elem-map_of, Option-cases, Bool-cases, ltb, length, arith,
}
use arborist.Base.Exec.{ok}
use arborist.Store.Schema.{Db, UsrRow, UsrGrpRow}
use arborist.Store.Rows.{insert_all}
use arborist.Store.Rows.Inserted.{insert_all-Elem, insert_all-rows}
use arborist.Store.Principal.Group.{Group, same_usr_grp, users, attach_users}

abbrev pub member_row : ℕ → Option Text → UsrRow → UsrGrpRow
member_row group_id provider u = record {
  usr_id = u.id;
  grp_id = group_id;
  expires_at = none;
  authz_provider = provider;
}

module _ {P : Type 0} where
  -- The row makes a user that the group lists a member without an end.
  abbrev pub Joins : Group → ℕ → Option Text → Db P → UsrGrpRow → Type 0
  Joins group group_id provider db ug =
      (u : UsrRow) × Elem u db.usr × Elem u.name group.users × (ug ≡ member_row group_id provider u)

  users-Joins :
      (group : Group) (i : ℕ) (provider : Option Text) (db : Db P) (ug : UsrGrpRow)
      → Elem ug (map (member_row i provider) (users db group))
      → Joins group i provider db ug
  unfolding users
  users-Joins group i provider db ug m =
      let (u, k, e) = Elem-map _ _ ug m in
      let (mu, h) = Elem-select _ db.usr u k in
      let (n, mn, q) = any_found _ group.users h in
      (u, mu, subst (λ x. Elem x group.users) (sym ((text_beq_iff _ _).0 q)) mn, e)

  of_Joins :
      (group : Group) (i : ℕ) (provider : Option Text) (db : Db P) (ug : UsrGrpRow)
      → Joins group i provider db ug
      → Elem ug (map (member_row i provider) (users db group))
  unfolding users
  of_Joins group i provider db ug (u, mu, mn, e) = rw e (
      Elem-map_of (member_row i provider) _ u (
        Elem-select_of _ db.usr u mu
          (any_of_Elem _ group.users u.name mn ((text_beq_iff _ _).1 refl))))

  -- How attach_users can succeed.
  attach_users-ok :
      (group : Group) (i : ℕ) (provider : Option Text) (db db' : Db P)
      → attach_users group i provider db ≡ (ok tt, db')
      → ((group.users ≡ []) × (db' ≡ db))
        ⊎ ((rows : List UsrGrpRow) × (insert_all same_usr_grp
                (map (member_row i provider) (users db group))
                db.usr_grp
              ≡ some rows)
            × (db' ≡ record db { usr_grp = rows }))
  unfolding attach_users
  attach_users-ok group i provider db db' h = elim (Bool-cases (ltb 0 (length group.users))) [
    | inl e ↦ elim (Bool-cases (ltb (length (users db group)) (length group.users))) [
      | inl k ↦ absurd (cc (rw (e, attach_users, k) at h))
      | inr k ↦
          elim (Option-cases
            (insert_all same_usr_grp (map (member_row i provider) (users db group)) db.usr_grp)) [
              | inl z ↦ absurd (cc (rw (e, attach_users, k, z) at h))
              | inr (rows, z) ↦ inr (rows, z, sym (ap (λ p. p.1) (rw (e, attach_users, k, z) at h)))
            ]
    ]
    | inr e ↦ inl (nothing group.users e, sym (ap (λ p. p.1) (rw (e, attach_users) at h)))
  ]
    where
      nothing : (xs : List Text) → ltb 0 (length xs) ≡ false → xs ≡ []
      nothing [] h = refl
      nothing (x ∷ xs) h = absurd (ground arith)

  pub attach_users-Joins :
      (group : Group) (i : ℕ) (provider : Option Text) (db db' : Db P) (ug : UsrGrpRow)
      → attach_users group i provider db ≡ (ok tt, db')
      → Elem ug db'.usr_grp ↔ (Elem ug db.usr_grp ⊎ Joins group i provider db ug)
  attach_users-Joins group i provider db db' ug h =
      elim (attach_users-ok group i provider db db' h) [
        | inl (e, z) ↦ (λ m. inl (rw z at m), λ s. rw z (unlisted e s))
        | inr (rows, k, z) ↦ (λ m. split rows k (rw z at m), λ s. rw z (joined rows k s))
      ]
    where
      unlisted :
          group.users ≡ [] → Elem ug db.usr_grp ⊎ Joins group i provider db ug → Elem ug db.usr_grp
      unlisted e (inl m) = m
      unlisted e (inr (u, mu, mn, q)) = absurd (elim (subst (λ xs. Elem u.name xs) e mn) [ ])

      split :
          (rows : List UsrGrpRow)
          → insert_all same_usr_grp (map (member_row i provider) (users db group)) db.usr_grp
            ≡ some rows
          → Elem ug rows
          → Elem ug db.usr_grp ⊎ Joins group i provider db ug
      split rows k m = elim (insert_all-rows _ _ _ rows ug k m) [
        | inl o ↦ inl o
        | inr n ↦ inr (users-Joins group i provider db ug n)
      ]

      joined :
          (rows : List UsrGrpRow)
          → insert_all same_usr_grp (map (member_row i provider) (users db group)) db.usr_grp
            ≡ some rows
          → Elem ug db.usr_grp ⊎ Joins group i provider db ug
          → Elem ug rows
      joined rows k (inl m) = (insert_all-Elem _ _ _ rows ug k).0 m
      joined rows k (inr j) =
          (insert_all-Elem _ _ _ rows ug k).1 (of_Joins group i provider db ug j)
