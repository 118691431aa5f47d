-- ===== src/Store/Principal/Client/Grants.antt =====
-- Granting a policy to a client, and what the engine then reads.
use arborist.Base.{
  ℕ, Text, ◌≡◌, refl, ap, sym, ◌∙◌, inl, inr, true, false, ◌&&◌, Option, none, some, List, ◌==◌,
  text_eq, nat_eq, text_beq_iff, nat_beq_iff, any, any_found, and_split, first, first_missing,
  false≢true, Option-cases, Bool-cases, Elem, here, Elem-append_right,
}
use mathlib.Core.List.{[], ◌∷◌, ◌++◌}
use arborist.Base.Exec.{Outcome, ok}
use arborist.Store.Schema.{Db, ClientRow, ClientPolicyRow}
use arborist.Store.Rows.{insert, insert-old, insert-new, lookup_found}
use arborist.Store.Lookup.{select_client_id, select_policy_id}
use arborist.Store.Principal.Client.{
  client_with_client_id, insert_client_policy, grant_client_failure, grant_client_policy,
}
use arborist.Engine.Spec.{ClientHolds}

module _ {P : Type 0} (db : Db P) where
  client_of :
      (name : Text) (i : ℕ)
      → select_client_id db name ≡ some i
      → (c : ClientRow) × Elem c db.client × (c.external_client_id ≡ name) × (c.id ≡ i)
  client_of name i h =
      let (c, m, q, e) = lookup_found _ _ db.client i h in
      (c, m, (text_beq_iff c.external_client_id name).0 q, e)

  -- The statement finds both names: the row is new, or it was there.
  insert_cases :
      (client_id policy_name : Text) (provider : Option Text) (i p : ℕ)
      → select_client_id db client_id ≡ some i
      → select_policy_id db policy_name ≡ some p
      → insert_client_policy client_id policy_name provider db
        ≡ insert
            (λ cp. cp.client_id == i && cp.policy_id == p)
            (record { client_id = i; policy_id = p; authz_provider = provider })
            db.client_policy
  unfolding insert_client_policy
  insert_cases client_id policy_name provider i p hc hp = rw (hc, insert_client_policy, hp) refl

  failure_ok :
      (client_id policy_name : Text) (c : ClientRow) (p : ℕ)
      → Elem c db.client
      → c.external_client_id ≡ client_id
      → select_policy_id db policy_name ≡ some p
      → grant_client_failure client_id policy_name db ≡ ok tt
  unfolding grant_client_failure client_with_client_id
  failure_ok client_id policy_name c p m n hp =
      elim (Option-cases (first (λ c. c.external_client_id == client_id) db.client)) [
        | inl e ↦ absurd (false≢true (sym (first_missing _ _ c e m) ∙ (text_beq_iff _ _).1 n))
        | inr (d, e) ↦ rw (e, client_with_client_id, grant_client_failure, hp) refl
      ]

  inserted :
      (client_id policy_name : Text) (provider : Option Text) (rows : List ClientPolicyRow)
      → insert_client_policy client_id policy_name provider db ≡ some rows
      → grant_client_policy client_id policy_name provider db
        ≡ (ok tt, record db { client_policy = rows })
  unfolding grant_client_policy
  inserted client_id policy_name provider rows h = rw (h, grant_client_policy) refl

  refused :
      (client_id policy_name : Text) (provider : Option Text)
      → insert_client_policy client_id policy_name provider db ≡ none
      → grant_client_policy client_id policy_name provider db
        ≡ (grant_client_failure client_id policy_name db, db)
  unfolding grant_client_policy
  refused client_id policy_name provider h = rw (h, grant_client_policy) refl

  holds_new :
      (c : ClientRow) (p : ℕ) (provider : Option Text) (rows : List ClientPolicyRow)
      → Elem c db.client
      → Elem (record { client_id = c.id; policy_id = p; authz_provider = provider }) rows
      → ClientHolds (record db { client_policy = rows }) c.external_client_id p
  holds_new c p provider rows m k = record {
    client = c;
    binding = record { client_id = c.id; policy_id = p; authz_provider = provider };
    client_exists = m;
    external_id = refl;
    binding_exists = k;
    of_client = refl;
    of_policy = refl;
  }

  -- If the client and the policy exist, the grant succeeds, and the client holds the policy afterwards,
  -- whether or not it held it before.
  pub grant_client_policy-ClientHolds :
      (client_id policy_name : Text) (authz_provider : Option Text) (i p : ℕ)
      → select_client_id db client_id ≡ some i
      → select_policy_id db policy_name ≡ some p
      → ((grant_client_policy client_id policy_name authz_provider db).0 ≡ ok tt)
        × ClientHolds (grant_client_policy client_id policy_name authz_provider db).1 client_id p
  grant_client_policy-ClientHolds client_id policy_name provider i p hc hp =
      let (c, m, n, k) = client_of client_id i hc in
      elim (Bool-cases (any (λ cp. cp.client_id == i && cp.policy_id == p) db.client_policy)) [
        | inl old ↦ rw (granted_before old) (refl, rw (← n) (held c m k old))
        | inr new ↦ rw (granted_now new) (
          refl,
          rw (← n) (
              holds_new c p provider _ m
                (rw k (Elem-append_right _ db.client_policy _ (here refl)))),
        )
      ]
    where
      granted_before :
          any (λ (cp : ClientPolicyRow). cp.client_id == i && cp.policy_id == p) db.client_policy
            ≡ true
          → grant_client_policy client_id policy_name provider db ≡ (ok tt, db)
      granted_before old =
          let (c, m, n, k) = client_of client_id i hc in
          refused client_id policy_name provider (
            insert_cases client_id policy_name provider i p hc hp
            ∙ insert-old _ _ db.client_policy old)
          ∙ ap (λ (o : Outcome). (o, db)) (failure_ok client_id policy_name c p m n hp)

      granted_now :
          any (λ (cp : ClientPolicyRow). cp.client_id == i && cp.policy_id == p) db.client_policy
            ≡ false
          → grant_client_policy client_id policy_name provider db ≡ (
            ok tt,
            record db {
              client_policy =
                  db.client_policy
                  ++ record { client_id = i; policy_id = p; authz_provider = provider } ∷ [];
            },
          )
      granted_now new = inserted client_id policy_name provider _ (
          insert_cases client_id policy_name provider i p hc hp
          ∙ insert-new _ _ db.client_policy new)

      held :
          (c : ClientRow)
          → Elem c db.client
          → c.id ≡ i
          → any (λ (cp : ClientPolicyRow). cp.client_id == i && cp.policy_id == p) db.client_policy
            ≡ true
          → ClientHolds db c.external_client_id p
      held c m k old =
          let (cp, mc, q) = any_found _ _ old in
          let (a, b) = and_split (cp.client_id == i) _ q in
          record {
            client = c;
            binding = cp;
            client_exists = m;
            external_id = refl;
            binding_exists = mc;
            of_client = (nat_beq_iff _ _).0 a ∙ sym k;
            of_policy = sym ((nat_beq_iff _ _).0 b);
          }
