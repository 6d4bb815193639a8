-- ===== src/Lifecycle/Refines.antt =====
-- The requests of the plugin are moves of the role that the storage has.
use hcvault_mashery_api_auth.Prelude.{
  ℕ, suc, ℤ, String, ◌≡◌, refl, sym, ◌∙◌, subst, ◌≢◌, inl, inr, Bool, true, false, Option, none,
  some, arith, ne_of_not_equal, append-ne_left,
}
use hcvault_mashery_api_auth.Role.{StoredRoleUsage, has_usage_quota, reduce_remaining_quota}
use hcvault_mashery_api_auth.Role.Json.{encode_usage}
use hcvault_mashery_api_auth.Role.Usage.{uses_left}
use hcvault_mashery_api_auth.Env.{Env, StorageLaws}
use hcvault_mashery_api_auth.Request.{World, persist}
use hcvault_mashery_api_auth.Request.Stored.{get-persist_ne}
use hcvault_mashery_api_auth.RoleSteps.{role_keys_path, role_usage_path, key_suffix, usage_suffix}
use hcvault_mashery_api_auth.Routes.{Operation, WriteLaws}
use hcvault_mashery_api_auth.Routes.Writes.{write_to-path_role}
use hcvault_mashery_api_auth.Roles.Updated.{write_to-path_role-Updated}
use hcvault_mashery_api_auth.Roles.Created.{IsAbsent, handle_write_role_keys-Created}
use hcvault_mashery_api_auth.Roles.Deletion.{handle_delete_role_data-IsGone}
use hcvault_mashery_api_auth.Grant.Sound.{Granted, Paid, issue_grant-Granted}
use hcvault_mashery_api_auth.Grant.Quota.{same_usage, after_grant, path_of}
use hcvault_mashery_api_auth.Lifecycle.{
  AbstractRole, RoleRequest, to_write, to_grant, to_delete, RoleMoves, created, updated, used,
  used_without_quota, deleted, uses_of, Holds, Represents, Serves, writes, grants, deletes,
}
use hcvault_mashery_api_auth.Lifecycle.Entries.{
  keys_kept, absent_keys, Created-Holds, Updated-Holds,
}

module _ {env : Env} (laws : StorageLaws env) (path : String) where
  free_uses : (u : StoredRoleUsage) → has_usage_quota u ≡ false → uses_of u ≡ none
  free_uses u e = ground arith

  counted_uses :
      (u : StoredRoleUsage) (n : ℕ)
      → has_usage_quota u ≡ true
      → uses_left u ≡ n
      → uses_of u ≡ some n
  counted_uses u n e l = ground arith

  entries_apart : role_usage_path path ≢ role_keys_path path
  unfolding role_keys_path role_usage_path
  entries_apart =
      append-ne_left path usage_suffix key_suffix (ne_of_not_equal usage_suffix key_suffix refl)

  -- Where a grant moves a role to, and that the storage then has it.
  abbrev Moved : Option AbstractRole → env.Store → Type 0
  Moved a s = (a' : Option AbstractRole) × RoleMoves to_grant a a' × Represents env path a' s

  free_use-Moved :
      (a : AbstractRole) (w w' : World env)
      → (h : Holds env path a w.store) → has_usage_quota h.usage ≡ false
      → w'.store ≡ w.store
      → Moved (some a) w'.store
  free_use-Moved a w w' h q same = (
    some a,
    subst
        (λ u.
          RoleMoves to_grant (some (record { keys = a.keys; uses = u }))
            (some (record { keys = a.keys; uses = u })))
        (sym (free_uses h.usage q) ∙ h.uses_stored) (used_without_quota a.keys),
    subst (λ s. Holds env path a s) (sym same) h,
  )

  counted_use-Moved :
      (v : ℤ) (a : AbstractRole) (w w' : World env) (u : StoredRoleUsage)
      → (h : Holds env path a w.store) → Granted v path w w'
      → has_usage_quota h.usage ≡ true
      → persist env (role_usage_path path) (encode_usage u) w.store ≡ (none, w'.store)
      → Moved (some a) w'.store
  counted_use-Moved v a w w' u h g q put =
      let (stored, (less, q', range)) =
        after_grant laws path v w w' h.usage g h.usage_stored q h.in_range in
      let left = uses_left (reduce_remaining_quota h.usage) in
      (
        some (record { keys = a.keys; uses = some left }),
        subst
            (λ x.
              RoleMoves to_grant (some (record { keys = a.keys; uses = x }))
                (some (record { keys = a.keys; uses = some left })))
            (sym (counted_uses h.usage (suc left) q (omega arith)) ∙ h.uses_stored)
            (used a.keys left),
        record {
          entry = h.entry;
          keys_entry = get-persist_ne laws _ _ _ _ _ put entries_apart ∙ h.keys_entry;
          keys_stored =
              keys_kept laws path a.keys w.store w'.store
                (get-persist_ne laws _ _ _ _ _ put entries_apart) h.keys_stored;
          usage = reduce_remaining_quota h.usage;
          usage_stored = stored;
          in_range = range;
          uses_stored = counted_uses (reduce_remaining_quota h.usage) left q' refl;
        },
      )

  Granted-Moved :
      (v : ℤ) (a : AbstractRole) (w w' : World env)
      → Holds env path a w.store
      → Granted v path w w'
      → Moved (some a) w'.store
  Granted-Moved v a w w' h g =
      let same =
        same_usage laws path h.usage g.role.usage w.store h.usage_stored g.stored.usage_stored in
      by_payment same g.paid
    where
      by_payment :
          g.role.usage ≡ h.usage → Paid env path g.role w.store w'.store → Moved (some a) w'.store
      by_payment same (inl (q, s)) =
          free_use-Moved a w w' h (subst (λ x. has_usage_quota x ≡ false) same q) s
      by_payment same (inr (q, put)) =
          counted_use-Moved v a w w' _ h g (subst (λ x. has_usage_quota x ≡ true) same q) put

  any_grant-Moved :
      (v : ℤ) (a : Option AbstractRole) (w w' : World env)
      → Represents env path a w.store
      → Granted v path w w'
      → Moved a w'.store
  any_grant-Moved v none w w' h g =
      absurd (absent_keys laws path g.role.keys w.store h g.stored.keys_stored)
  any_grant-Moved v (some a) w w' h g = Granted-Moved v a w w' h g

  -- With a storage that does what it documents: where the storage represents a role, a request
  -- that goes through moves the role as that request may, and the storage then represents what
  -- it moved to. A write with checked fields creates an absent role, with the given keys over the
  -- initial ones and without a quota, and gives a present role, which is not imported, the given keys
  -- over its own, and leaves its uses; a grant finds a present role, and takes one of the uses of a
  -- role with a quota, of which there is one, and leaves a role without one as it is; after a deletion
  -- the role is absent.
  pub Serves-RoleMoves :
      {choose : Option Bool → Operation} (choice : WriteLaws choose) (request : RoleRequest)
      (a : Option AbstractRole) (w w' : World env)
      → Represents env path a w.store
      → Serves env choose path request w w'
      → (a' : Option AbstractRole) × RoleMoves request a a' × Represents env path a' w'.store
  unfolding role_keys_path role_usage_path
  Serves-RoleMoves choice (to_write _) none w w' h (writes d body _ _ c p e) =
      let made =
        handle_write_role_keys-Created laws d body w w' path c p h
          (sym (write_to-path_role choice d body w path none p h.no_keys) ∙ e) in
      (_, created d, Created-Holds laws path d w'.store made)
  Serves-RoleMoves choice (to_write _) (some a) w w' h (writes d body _ _ c p e) =
      let (own, holds) =
        Updated-Holds laws path d a w w' h
          (write_to-path_role-Updated laws choice d body w w' path h.entry c p h.keys_entry e) in
      (_, updated d a.keys a.uses own, holds)
  Serves-RoleMoves choice to_grant a w w' h (grants d body _ _ p named e) =
      let (g, _, (path', found, at_path)) = issue_grant-Granted d body w w' p e in
      let here = path_of (sym found ∙ named) in
      any_grant-Moved g.api_version a w w' h
        (subst (λ x. Granted g.api_version x w w') here at_path)
  Serves-RoleMoves choice to_delete a w w' h (deletes d body _ _ named e) =
      let (root, found, (no_usage, _, no_keys)) =
        handle_delete_role_data-IsGone laws d body w w' e in
      let here = path_of (sym found ∙ named) in
      (
        none,
        deleted a,
        subst (λ x. IsAbsent env x w'.store) here
            (record { no_keys = no_keys; no_usage = no_usage }),
      )
