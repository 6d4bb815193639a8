-- ===== src/Roles/Created.antt =====
-- What the creation of a role leaves: the keys that the request gives, and a usage without bounds.
use hcvault_mashery_api_auth.Prelude.{
  String, ◌≡◌, refl, sym, ap, ◌∙◌, subst, ◌≢◌, false, Option, none, some, List, [], ◌∷◌, arith,
  ne_of_not_equal, append-ne_left,
}
use hcvault_mashery_api_auth.Value.{Value, text, Fields, good, json}
use hcvault_mashery_api_auth.Exec.{Exit, ok}
use hcvault_mashery_api_auth.Role.{
  StoredRoleUsage, StoredRole, zero_usage, unbounded_usage, reset_token,
}
use hcvault_mashery_api_auth.Role.Json.{encode_keys, encode_usage}
use hcvault_mashery_api_auth.Env.{Env, StorageLaws}
use hcvault_mashery_api_auth.Request.{
  FieldData, Req, World, storage_path_for_role, persist, read, read_path, write_path,
}
use hcvault_mashery_api_auth.Request.Stored.{get-persist, get-persist_ne}
use hcvault_mashery_api_auth.Request.Chain.{Transformer, simple_chain}
use hcvault_mashery_api_auth.Request.Chain.Laws.{simple_chain-eq-ok}
use hcvault_mashery_api_auth.Handler.{start_request}
use hcvault_mashery_api_auth.Handler.Laws.{handle_role-eq-ok}
use hcvault_mashery_api_auth.RoleSteps.{
  initial_keys, initial_role, role_keys_path, role_usage_path, key_suffix, usage_suffix, read_role,
  block_operation_on_imported_role, update_role_keys_from_request, save_role_keys,
  set_initial_role_usage, save_role_usage, RoleContainer, role_container, empty_container,
}
use hcvault_mashery_api_auth.RoleSteps.Checks.{carrying}
use hcvault_mashery_api_auth.Routes.{Conforms}
use hcvault_mashery_api_auth.Routes.Schemas.{path_role_fields}
use hcvault_mashery_api_auth.Roles.{write_chain, handle_write_role_keys}
use hcvault_mashery_api_auth.Roles.Updated.{
  given_keys, imported-eq-ok, update_role_keys_from_request-of_role,
}

-- The usage of a role that was just created.
abbrev pub fresh_usage : StoredRoleUsage
fresh_usage = reset_token (unbounded_usage zero_usage)

-- Neither the keys nor the usage of a role are in the storage.
pub record IsAbsent (env : Env) (path : String) (s : env.Store) : Type 0 where
  pub no_keys : env.storage_get (role_keys_path path) s ≡ good none
  pub no_usage : env.storage_get (role_usage_path path) s ≡ good none

-- The entries of a role that was created with what a request gives.
pub record Created (env : Env) (path : String) (d : FieldData) (s : env.Store) : Type 0 where
  pub keys_now :
      env.storage_get (role_keys_path path) s
      ≡ good (some (json (encode_keys (given_keys d initial_keys))))
  pub usage_now :
      env.storage_get (role_usage_path path) s ≡ good (some (json (encode_usage fresh_usage)))

module _ {env : Env} where
  read_absent :
      (r r' : Req env RoleContainer) (v : Value)
      → IsAbsent env r.storage_path r.world.store
      → r.fields.get "roleName" ≡ v
      → read_role false r ≡ (ok tt, r')
      → (name : String) × (r' ≡ carrying (initial_role r.world.plugin name) r)
  unfolding read_role read_path read initial_role
  read_absent r r' (text name) a n e = (name, ground (arith, a.no_keys, a.no_usage))
  read_absent r r' v a n e = absurd (ground (arith, a.no_keys, a.no_usage))

  save_keys-eq-ok :
      (r r' : Req env RoleContainer) (role : StoredRole)
      → r.heap.role ≡ some role
      → save_role_keys r ≡ (ok tt, r')
      → (s : env.Store) × (persist env
            (role_keys_path r.storage_path)
            (encode_keys role.keys)
            r.world.store
          ≡ (none, s))
        × (r' ≡ record r { world = record (r.world) { store = s } })
  unfolding save_role_keys write_path
  save_keys-eq-ok r r' role h e = (r'.world.store, ground arith, ground arith)

  save_usage-eq-ok :
      (r r' : Req env RoleContainer) (role : StoredRole)
      → r.heap.role ≡ some role
      → save_role_usage r ≡ (ok tt, r')
      → persist env (role_usage_path r.storage_path) (encode_usage role.usage) r.world.store
        ≡ (none, r'.world.store)
  unfolding save_role_usage write_path
  save_usage-eq-ok r r' role h e = ground arith

  set_usage-eq-ok :
      (r r' : Req env RoleContainer) (role : StoredRole)
      → r.heap.role ≡ some role
      → set_initial_role_usage r ≡ (ok tt, r')
      → r' ≡ carrying (record role { usage = reset_token (unbounded_usage role.usage) }) r
  unfolding set_initial_role_usage
  set_usage-eq-ok r r' role h e = ground arith

module _ {env : Env} (laws : StorageLaws env) where
  keys_apart : (path : String) → role_usage_path path ≢ role_keys_path path
  unfolding role_keys_path role_usage_path
  keys_apart path =
      append-ne_left path usage_suffix key_suffix (ne_of_not_equal usage_suffix key_suffix refl)

  stored_both :
      (path : String) (d : FieldData) (s s1 s2 : env.Store)
      → persist env (role_keys_path path) (encode_keys (given_keys d initial_keys)) s ≡ (none, s1)
      → persist env (role_usage_path path) (encode_usage fresh_usage) s1 ≡ (none, s2)
      → Created env path d s2
  stored_both path d s s1 s2 e f = record {
    keys_now = get-persist_ne laws _ _ _ _ _ f (keys_apart path) ∙ get-persist laws _ _ _ _ e;
    usage_now = get-persist laws _ _ _ _ f;
  }

  ran :
      {x : Exit (Unit {0}) × Req env RoleContainer} {a b : Req env RoleContainer}
      → x ≡ (ok tt, a)
      → x ≡ (ok tt, b)
      → b ≡ a
  ran p q = ap (λ (y : Exit (Unit {0}) × Req env RoleContainer). y.1) (sym q ∙ p)

  -- The part of the chain that stores.
  abbrev storing : List (Transformer env RoleContainer)
  storing = save_role_keys ∷ set_initial_role_usage ∷ save_role_usage ∷ []

  -- This part, on a request with this role.
  store_role-Created :
      (r r' : Req env RoleContainer) (role : StoredRole)
      → r.heap.role ≡ some role
      → role.keys ≡ given_keys r.fields initial_keys
      → role.usage ≡ zero_usage
      → simple_chain storing r ≡ (ok tt, r')
      → Created env r.storage_path r.fields r'.world.store
  unfolding simple_chain
  store_role-Created r r' role h k u e =
      let (r1, e1, f1) =
        simple_chain-eq-ok save_role_keys (set_initial_role_usage ∷ save_role_usage ∷ []) r r' e in
      let (s1, put1, q1) = save_keys-eq-ok r r1 role h e1 in
      let (r2, e2, f2) =
        simple_chain-eq-ok set_initial_role_usage (save_role_usage ∷ []) r1 r' f1 in
      let q2 =
        set_usage-eq-ok r1 r2 role (ap (λ x. x.heap.role) q1 ∙ h) e2
        ∙ ap (carrying (record role { usage = reset_token (unbounded_usage role.usage) })) q1 in
      let (r3, e3, f3) = simple_chain-eq-ok save_role_usage [] r2 r' f2 in
      let put2 =
        save_usage-eq-ok _ r3 _ refl
          (subst (λ (x : Req env RoleContainer). save_role_usage x ≡ (ok tt, r3)) q2 e3)
        ∙ ap (λ (x : Exit (Unit {0}) × Req env RoleContainer). (none, x.1.world.store)) f3 in
      stored_both r.storage_path r.fields r.world.store s1 r'.world.store
        (subst
          (λ x.
            persist env (role_keys_path r.storage_path) (encode_keys x) r.world.store ≡ (none, s1))
          k put1)
        (subst
          (λ x.
            persist env (role_usage_path r.storage_path)
              (encode_usage (reset_token (unbounded_usage x))) s1
            ≡ (none, r'.world.store))
          u put2)

  write_chain-Created :
      (r r' : Req env RoleContainer)
      → Conforms path_role_fields r.fields
      → IsAbsent env r.storage_path r.world.store
      → write_chain r ≡ (ok tt, r')
      → Created env r.storage_path r.fields r'.world.store
  unfolding write_chain initial_role
  write_chain-Created r r' c a e =
      let (r1, e1, f1) =
        simple_chain-eq-ok (read_role false)
          (block_operation_on_imported_role ∷ update_role_keys_from_request ∷ storing) r r' e in
      let (name, q1) = read_absent r r1 _ a refl e1 in
      let role = initial_role r.world.plugin name in
      let (r2, e2, f2) =
        simple_chain-eq-ok block_operation_on_imported_role
          (update_role_keys_from_request ∷ storing) r1 r' f1 in
      let (own, q2) = imported-eq-ok (carrying role r) r2 role refl (
        subst (λ (x : Req env RoleContainer). block_operation_on_imported_role x ≡ (ok tt, r2)) q1
          e2) in
      let (r3, e3, f3) = simple_chain-eq-ok update_role_keys_from_request storing r2 r' f2 in
      let q3 = ran (update_role_keys_from_request-of_role (carrying role r) role refl c) (
        subst (λ (x : Req env RoleContainer). update_role_keys_from_request x ≡ (ok tt, r3)) q2
          e3) in
      store_role-Created _ r' (record role { keys = given_keys r.fields initial_keys }) refl refl
        refl (subst (λ (x : Req env RoleContainer). simple_chain storing x ≡ (ok tt, r')) q3 f3)

  pub handle_write_role_keys-Created :
      (d : FieldData) (body : Option Fields) (w w' : World env) (path : String)
      → Conforms path_role_fields d
      → storage_path_for_role env w.plugin d ≡ some path
      → IsAbsent env path w.store
      → handle_write_role_keys d body w ≡ (ok tt, w')
      → Created env path d w'.store
  unfolding handle_write_role_keys
  handle_write_role_keys-Created d body w w' path c p a e =
      let (r', ran', q) = handle_role-eq-ok empty_container write_chain d body w w' path p e in
      subst (λ (u : World env). Created env path d u.store) (sym q)
        (write_chain-Created (start_request empty_container path d body w) r' c a ran')
