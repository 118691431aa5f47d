-- ===== src/Store/Principal/User/Grants.antt =====
-- Granting and revoking the policies of a user, and what the engine then reads.
use arborist.Base.{
  ℕ, Text, ◌≡◌, ◌≢◌, ◌↔◌, refl, ap, sym, ◌∙◌, inl, inr, ◌⊎◌, ◌&&◌, Option, none, some, ◌==◌,
  text_eq, nat_eq, text_beq_iff, nat_beq_iff, Elem, and_split, Option-cases, false≢true, first,
  first_found, first_missing,
}
use arborist.Base.Exec.{Outcome, ok}
use arborist.Core.Strings.{to_lower}
use arborist.Store.Schema.{Db, UsrRow, PolicyRow}
use arborist.Store.Rows.{upsert, Elem-upsert, lookup_found, lookup_missing}
use arborist.Store.Lookup.{select_usr_id, select_policy_id}
use arborist.Store.Principal.User.{user_with_name}
use arborist.Store.Principal.User.Bindings.{
  insert_usr_policy, grant_user_failure, grant_user_policy,
}
use arborist.Engine.Spec.{UserHolds, direct, Unexpired}

module _ {P : Type 0} (db : Db P) where
  -- A user of that name, in any letter case.
  abbrev pub KnownUser : Text → Type 0
  KnownUser username = (u : UsrRow) × Elem u db.usr × (to_lower u.name ≡ to_lower username)

  abbrev pub KnownPolicy : Text → Type 0
  KnownPolicy name = (p : PolicyRow) × Elem p db.policy × (p.name ≡ name)

  usr_of :
      (name : Text) (i : ℕ)
      → select_usr_id db name ≡ some i
      → (u : UsrRow) × Elem u db.usr × (u.name ≡ name) × (u.id ≡ i)
  usr_of name i h =
      let (u, m, q, e) = lookup_found _ _ db.usr i h in (u, m, (text_beq_iff u.name name).0 q, e)

  policy_of : (name : Text) (i : ℕ) → select_policy_id db name ≡ some i → KnownPolicy name
  policy_of name i h =
      let (p, m, q, _) = lookup_found _ _ db.policy i h in (p, m, (text_beq_iff p.name name).0 q)

  granted : ℕ → ℕ → Option ℕ → Option Text → Db P
  granted i p expires_at authz_provider = record db {
    usr_policy =
        upsert (λ up. up.usr_id == i && up.policy_id == p)
          (λ up. record up { expires_at = expires_at })
          (record {
            usr_id = i;
            policy_id = p;
            expires_at = expires_at;
            authz_provider = authz_provider;
          })
          db.usr_policy;
  }

  grant_lem :
      (username policy_name : Text) (expires_at : Option ℕ) (authz_provider : Option Text) (i p : ℕ)
      → select_usr_id db username ≡ some i
      → select_policy_id db policy_name ≡ some p
      → grant_user_policy username policy_name expires_at authz_provider db
        ≡ (ok tt, granted i p expires_at authz_provider)
  unfolding grant_user_policy insert_usr_policy granted
  grant_lem username policy_name e provider i p hu hp =
      rw (hu, grant_user_policy, insert_usr_policy, hp) refl

  granted-UserHolds :
      (now : ℕ) (u : UsrRow) (p : ℕ) (expires_at : Option ℕ) (authz_provider : Option Text)
      → Elem u db.usr
      → Unexpired now expires_at
      → UserHolds (granted u.id p expires_at authz_provider) now (to_lower u.name) p
  unfolding granted
  granted-UserHolds now u p e provider m live = elim (Elem-upsert _ _ _ db.usr_policy) [
    | inl k ↦
        direct u
          (record { usr_id = u.id; policy_id = p; expires_at = e; authz_provider = provider }) m
          refl k refl live refl
    | inr (up, _, same, k) ↦
        let (a, b) = and_split (up.usr_id == u.id) _ same in
        direct u (record up { expires_at = e }) m refl k ((nat_beq_iff _ _).0 a) live
          (sym ((nat_beq_iff _ _).0 b))
  ]

  -- If a user has exactly this name and the policy exists, the grant succeeds, and until it expires the
  -- engine counts the policy for the user.
  pub grant_user_policy-UserHolds :
      (now : ℕ) (username policy_name : Text) (expires_at : Option ℕ) (authz_provider : Option Text)
      (i p : ℕ)
      → select_usr_id db username ≡ some i
      → select_policy_id db policy_name ≡ some p
      → Unexpired now expires_at
      → ((grant_user_policy username policy_name expires_at authz_provider db).0 ≡ ok tt)
        × UserHolds
            (grant_user_policy username policy_name expires_at authz_provider db).1
            now
            (to_lower username)
            p
  grant_user_policy-UserHolds now username policy_name e provider i p hu hp live =
      let (u, m, n, k) = usr_of username i hu in
      let h = grant_lem username policy_name e provider i p hu hp in
      rw h (refl, rw (← n, ← k) (granted-UserHolds now u p e provider m live))

  known_user : (username : Text) → KnownUser username → user_with_name db username ≢ none
  unfolding user_with_name
  known_user username (u, m, n) h =
      elim (Option-cases (first (λ v. to_lower v.name == to_lower username) db.usr)) [
        | inl e ↦ false≢true (sym (first_missing _ _ u e m) ∙ (text_beq_iff _ _).1 n)
        | inr (v, e) ↦ absurd (cc (rw (e, user_with_name) at h))
      ]

  user_known : (username : Text) → user_with_name db username ≢ none → KnownUser username
  unfolding user_with_name
  user_known username h =
      elim (Option-cases (first (λ v. to_lower v.name == to_lower username) db.usr)) [
        | inl e ↦ absurd (h (rw (e, user_with_name) refl))
        | inr (v, e) ↦ let (m, q) = first_found _ _ v e in (v, m, (text_beq_iff _ _).0 q)
      ]

  known_policy : (name : Text) → KnownPolicy name → select_policy_id db name ≢ none
  known_policy name (p, m, n) h =
      false≢true (sym (lookup_missing _ _ db.policy p h m) ∙ (text_beq_iff _ _).1 n)

  refused :
      (username policy_name : Text) (e : Option ℕ) (provider : Option Text)
      → insert_usr_policy username policy_name e provider db ≡ none
      → grant_user_policy username policy_name e provider db
        ≡ (grant_user_failure username policy_name db, db)
  unfolding grant_user_policy
  refused username policy_name e provider h = rw (h, grant_user_policy) refl

  failure_sound :
      (username policy_name : Text)
      → grant_user_failure username policy_name db ≡ ok tt
      → KnownUser username × KnownPolicy policy_name
  unfolding grant_user_failure
  failure_sound username policy_name h = elim (Option-cases (user_with_name db username)) [
    | inl e ↦ absurd (cc (rw (e, grant_user_failure) at h))
    | inr (u, e) ↦ elim (Option-cases (select_policy_id db policy_name)) [
      | inl k ↦ absurd (cc (rw (e, grant_user_failure, k) at h))
      | inr (p, k) ↦ (user_known username (λ n. absurd (cc (sym e ∙ n))), policy_of policy_name p k)
    ]
  ]

  failure_of :
      (username policy_name : Text)
      → KnownUser username × KnownPolicy policy_name
      → grant_user_failure username policy_name db ≡ ok tt
  unfolding grant_user_failure
  failure_of username policy_name (u, p) = elim (Option-cases (user_with_name db username)) [
    | inl e ↦ absurd (known_user username u e)
    | inr (v, e) ↦ elim (Option-cases (select_policy_id db policy_name)) [
      | inl k ↦ absurd (known_policy policy_name p k)
      | inr (q, k) ↦ rw (e, grant_user_failure, k) refl
    ]
  ]

  insert_refused :
      (username policy_name : Text) (e : Option ℕ) (provider : Option Text)
      → (select_usr_id db username ≡ none) ⊎ (select_policy_id db policy_name ≡ none)
      → insert_usr_policy username policy_name e provider db ≡ none
  unfolding insert_usr_policy
  insert_refused username policy_name e provider (inl h) = rw (h, insert_usr_policy) refl
  insert_refused username policy_name e provider (inr h) =
      elim (Option-cases (select_usr_id db username)) [
        | inl k ↦ rw (k, insert_usr_policy) refl
        | inr (p, k) ↦ rw (k, insert_usr_policy, h) refl
      ]

  -- A grant succeeds exactly when a user of that name, in any letter case, and a policy of that name exist.
  pub grant_user_policy-ok :
      (username policy_name : Text) (expires_at : Option ℕ) (authz_provider : Option Text)
      → ((grant_user_policy username policy_name expires_at authz_provider db).0 ≡ ok tt)
        ↔ (KnownUser username × KnownPolicy policy_name)
  grant_user_policy-ok username policy_name e provider =
      elim (Option-cases (select_usr_id db username)) [
        | inl h ↦
            rw
              (refused username policy_name e provider
                (insert_refused username policy_name e provider (inl h)))
              (failure_sound username policy_name, failure_of username policy_name)
        | inr (i, h) ↦ elim (Option-cases (select_policy_id db policy_name)) [
          | inl k ↦
              rw
                (refused username policy_name e provider
                  (insert_refused username policy_name e provider (inr k)))
                (failure_sound username policy_name, failure_of username policy_name)
          | inr (p, k) ↦
              let (u, m, n, _) = usr_of username i h in
              rw (grant_lem username policy_name e provider i p h k)
                (λ _. ((u, m, ap to_lower n), policy_of policy_name p k), λ _. refl)
        ]
      ]

  -- If the policy exists and a user has this name in another letter case only, the grant succeeds and
  -- changes nothing.
  pub grant_user_policy-other_case :
      (username policy_name : Text) (expires_at : Option ℕ) (authz_provider : Option Text)
      → KnownUser username
      → KnownPolicy policy_name
      → ((u : UsrRow) → Elem u db.usr → u.name ≢ username)
      → grant_user_policy username policy_name expires_at authz_provider db ≡ (ok tt, db)
  grant_user_policy-other_case username policy_name e provider u p n =
      elim (Option-cases (select_usr_id db username)) [
        | inl h ↦
            refused username policy_name e provider
              (insert_refused username policy_name e provider (inl h))
            ∙ ap (λ (o : Outcome). (o, db)) (failure_of username policy_name (u, p))
        | inr (i, h) ↦ let (v, m, k, _) = usr_of username i h in absurd (n v m k)
      ]
