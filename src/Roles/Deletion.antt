-- ===== src/Roles/Deletion.antt =====
-- The role paths: what a deletion and a refused write leave in the storage.
use hcvault_mashery_api_auth.Prelude.{
  String, ◌<>◌, ◌≡◌, refl, ap, ◌∙◌, subst, ◌≢◌, false, Option, none, some, arith, ◌==◌,
  ne_of_not_equal, append-ne_left,
}
use hcvault_mashery_api_auth.Value.{Fields, Err, good}
use hcvault_mashery_api_auth.Exec.{Exit, ok, panic, Exec}
use hcvault_mashery_api_auth.Env.{Env, StorageLaws}
use hcvault_mashery_api_auth.Request.{FieldData, World, storage_path_for_role}
use hcvault_mashery_api_auth.RoleSteps.{key_suffix, usage_suffix, private_key_suffix}
use hcvault_mashery_api_auth.Roles.{deleted, delete_then, delete_role, handle_delete_role_data}

module _ {env : Env} (laws : StorageLaws env) where
  -- No entry of the role under this root is in the storage.
  abbrev pub IsGone : String → env.Store → Type 0
  IsGone root s =
      (env.storage_get (root <> usage_suffix) s ≡ good none)
      × (env.storage_get (root <> private_key_suffix) s ≡ good none)
      × (env.storage_get (root <> key_suffix) s ≡ good none)

  delete_then-eq-ok :
      (message path : String) (next : Exec (World env) (Unit {0})) (w w' : World env)
      → delete_then message path next w ≡ (ok tt, w')
      → (s : env.Store) × (env.storage_delete path w.store ≡ (none, s))
        × (next (record w { store = s }) ≡ (ok tt, w'))
  unfolding delete_then
  delete_then-eq-ok message path next w w' e = split (env.storage_delete path w.store) e
    where
      split :
          (x : Option Err × env.Store)
          → deleted message x next w ≡ (ok tt, w')
          → (s : env.Store) × (x ≡ (none, s)) × (next (record w { store = s }) ≡ (ok tt, w'))
      split (none, s) q = (s, refl, q)
      split (some err, s) q = absurd (ground arith)

  delete_role-IsGone :
      (root : String) (w w' : World env) → delete_role root w ≡ (ok tt, w') → IsGone root w'.store
  unfolding delete_role
  delete_role-IsGone root w w' e =
      let (s1, d1, e1) =
        delete_then-eq-ok "failed to delete role Usage" (root <> usage_suffix) _ w w' e in
      let (s2, d2, e2) =
        delete_then-eq-ok "failed to delete role private key" (root <> private_key_suffix) _
          (record w { store = s1 }) w' e1 in
      let (s3, d3, e3) =
        delete_then-eq-ok "failed to delete role key data" (root <> key_suffix) _
          (record w { store = s2 }) w' e2 in
      let same = ap (λ (x : Exit (Unit {0}) × World env). x.1.store) e3 in
      subst (λ s. IsGone root s) same
        (
          laws.get-delete_ne _ _ s2 s3 d3 (apart key_suffix usage_suffix refl)
              ∙ laws.get-delete_ne _ _ s1 s2 d2 (apart private_key_suffix usage_suffix refl)
              ∙ laws.get-delete_self _ w.store s1 d1,
          laws.get-delete_ne _ _ s2 s3 d3 (apart key_suffix private_key_suffix refl)
              ∙ laws.get-delete_self _ s1 s2 d2,
          laws.get-delete_self _ s2 s3 d3,
        )
    where
      apart : (s t : String) → (s == t) ≡ false → root <> s ≢ root <> t
      apart s t h = append-ne_left root s t (ne_of_not_equal s t h)

  -- With a storage that does what it documents: after a deletion of a role that reports no error, none
  -- of the role's three entries is in the storage.
  pub handle_delete_role_data-IsGone :
      (d : FieldData) (body : Option Fields) (w w' : World env)
      → handle_delete_role_data d body w ≡ (ok tt, w')
      → (root : String) × (storage_path_for_role env w.plugin d ≡ some root) × IsGone root w'.store
  unfolding handle_delete_role_data
  handle_delete_role_data-IsGone d body w w' e = split (storage_path_for_role env w.plugin d) e
    where
      split :
          (o : Option String)
          → ◌≡◌ {A = Exit (Unit {0}) × World env}
              (elim o [ none ↦ (panic, w) | some root ↦ delete_role root w ])
              (ok tt, w')
          → (root : String) × (o ≡ some root) × IsGone root w'.store
      split none q = absurd (ground arith)
      split (some root) q = (root, refl, delete_role-IsGone root w w' q)
