-- ===== src/Roles/Updated.antt =====
-- What an update of a stored role leaves: the keys that the request gives, and the usage as it was.
use hcvault_mashery_api_auth.Prelude.{
  ℤ, String, ◌<>◌, ◌≡◌, refl, sym, ap, ◌∙◌, subst, ◌≢◌, Bool, true, false, Option, none, some, [],
  ◌∷◌, arith, ne_of_not_equal, append-ne_left,
}
use hcvault_mashery_api_auth.Value.{Value, text, number, Fields, good}
use hcvault_mashery_api_auth.Exec.{Exit, ok}
use hcvault_mashery_api_auth.Exec.Laws.{bind-of_ok}
use hcvault_mashery_api_auth.RoleSteps.Checks.{carrying}
use hcvault_mashery_api_auth.Role.{RoleKeys, StoredRole}
use hcvault_mashery_api_auth.Env.{Env}
use hcvault_mashery_api_auth.Request.{FieldData, Req, World, storage_path_for_role}
use hcvault_mashery_api_auth.RoleSteps.{
  RoleContext, text_or, number_or, update_role_keys_from_request, role_or_error,
}
use hcvault_mashery_api_auth.Routes.{type_string, type_int, Conforms, has_type}
use hcvault_mashery_api_auth.Routes.Schemas.{path_role_fields}
use hcvault_mashery_api_auth.Routes.Checked.{given_as, declared}
use hcvault_mashery_api_auth.Routes.{Operation, WriteLaws, write_to}
use hcvault_mashery_api_auth.Routes.Paths.{path_role}
use hcvault_mashery_api_auth.Routes.Writes.{write_to-path_role}
use hcvault_mashery_api_auth.Env.{StorageLaws}
use hcvault_mashery_api_auth.Value.{json, Blob}
use hcvault_mashery_api_auth.Role.Json.{encode_keys}
use hcvault_mashery_api_auth.Request.{persist, write_path}
use hcvault_mashery_api_auth.Request.Stored.{get-persist, get-persist_ne}
use hcvault_mashery_api_auth.Request.Chain.{simple_chain}
use hcvault_mashery_api_auth.Request.Chain.Laws.{simple_chain-eq-ok}
use hcvault_mashery_api_auth.Handler.{start_request}
use hcvault_mashery_api_auth.Handler.Laws.{handle_role-eq-ok}
use hcvault_mashery_api_auth.RoleSteps.{
  role_keys_path, role_usage_path, key_suffix, usage_suffix, read_role,
  block_operation_on_imported_role, save_role_keys, RoleContainer, role_container, empty_container,
}
use hcvault_mashery_api_auth.RoleSteps.Checks.{IsStored, read_role-eq-ok}
use hcvault_mashery_api_auth.Roles.{update_chain, handle_update_role_data}

abbrev pub given_text : Option Value → String → String
given_text (some (text s)) old = s
given_text _ old = old

abbrev given_number : Option Value → ℤ → ℤ
given_number (some (number n)) old = n
given_number _ old = old

-- The keys of a role with what a request gives in their place.
abbrev pub given_keys : FieldData → RoleKeys → RoleKeys
given_keys d k = record k {
  area_id = given_text (d.get_ok "area_id") k.area_id;
  area_nid = given_number (d.get_ok "area_nid") k.area_nid;
  api_key = given_text (d.get_ok "api_key") k.api_key;
  key_secret = given_text (d.get_ok "secret") k.key_secret;
  username = given_text (d.get_ok "username") k.username;
  password = given_text (d.get_ok "password") k.password;
  max_qps = given_number (d.get_ok "qps") k.max_qps;
}

module _ {env : Env} {H : Type 0} ⦃rc : RoleContext H⦄ where
  pub text_or-of_given :
      (o : Option Value) (default : String) (r : Req env H)
      → given_as type_string o ≡ true
      → text_or o default r ≡ (ok (given_text o default), r)
  unfolding has_type
  text_or-of_given o default r h = ground arith

  number_or-of_given :
      (o : Option Value) (default : ℤ) (r : Req env H)
      → given_as type_int o ≡ true
      → number_or o default r ≡ (ok (given_number o default), r)
  unfolding has_type
  number_or-of_given o default r h = ground arith

  -- A request whose fields are checked updates the keys of the role that was read, and nothing else.
  pub update_role_keys_from_request-of_role :
      (r : Req env H) (role : StoredRole)
      → rc.get_role r.heap ≡ some role
      → Conforms path_role_fields r.fields
      → update_role_keys_from_request r
        ≡ (ok tt, carrying (record role { keys = given_keys r.fields role.keys }) r)
  unfolding update_role_keys_from_request path_role_fields
  update_role_keys_from_request-of_role r role h c =
      bind-of_ok (role_or_error (rc.get_role r.heap)) _ r r role
        (ap (λ o. role_or_error {env = env} {H = H} o r) h)
      ∙ bind-of_ok (text_or (r.fields.get_ok "area_id") role.keys.area_id) _ r r _
          (text_or-of_given _ role.keys.area_id r (declared c "area_id" _ refl))
      ∙ bind-of_ok (number_or (r.fields.get_ok "area_nid") role.keys.area_nid) _ r r _
          (number_or-of_given _ role.keys.area_nid r (declared c "area_nid" _ refl))
      ∙ bind-of_ok (text_or (r.fields.get_ok "api_key") role.keys.api_key) _ r r _
          (text_or-of_given _ role.keys.api_key r (declared c "api_key" _ refl))
      ∙ bind-of_ok (text_or (r.fields.get_ok "secret") role.keys.key_secret) _ r r _
          (text_or-of_given _ role.keys.key_secret r (declared c "secret" _ refl))
      ∙ bind-of_ok (text_or (r.fields.get_ok "username") role.keys.username) _ r r _
          (text_or-of_given _ role.keys.username r (declared c "username" _ refl))
      ∙ bind-of_ok (text_or (r.fields.get_ok "password") role.keys.password) _ r r _
          (text_or-of_given _ role.keys.password r (declared c "password" _ refl))
      ∙ bind-of_ok (number_or (r.fields.get_ok "qps") role.keys.max_qps) _ r r _
          (number_or-of_given _ role.keys.max_qps r (declared c "qps" _ refl))

  pub imported-eq-ok :
      (r r' : Req env H) (role : StoredRole)
      → rc.get_role r.heap ≡ some role
      → block_operation_on_imported_role r ≡ (ok tt, r')
      → (role.keys.imported ≡ false) × (r' ≡ r)
  unfolding block_operation_on_imported_role
  imported-eq-ok r r' role h e = ground arith

  save_role_keys-eq-ok :
      (r r' : Req env H) (role : StoredRole)
      → rc.get_role r.heap ≡ some role
      → save_role_keys r ≡ (ok tt, r')
      → persist env (role_keys_path r.storage_path) (encode_keys role.keys) r.world.store
        ≡ (none, r'.world.store)
  unfolding save_role_keys write_path
  save_role_keys-eq-ok r r' role h e = ground arith

-- The storage after an update of the role that was stored at this path.
pub record Updated {env : Env} (path : String) (d : FieldData) (w w' : World env) : Type 0 where
  pub role : StoredRole
  pub was_stored : IsStored env w.plugin path w.store role
  pub own : role.keys.imported ≡ false
  pub keys_now :
      env.storage_get (role_keys_path path) w'.store
      ≡ good (some (json (encode_keys (given_keys d role.keys))))
  pub usage_kept :
      env.storage_get (role_usage_path path) w'.store
      ≡ env.storage_get (role_usage_path path) w.store

module _ {env : Env} (laws : StorageLaws env) where
  keys_apart : (path : String) → role_keys_path path ≢ role_usage_path path
  unfolding role_keys_path role_usage_path
  keys_apart path =
      append-ne_left path key_suffix usage_suffix (ne_of_not_equal key_suffix usage_suffix refl)

  update_chain-Updated :
      (r r' : Req env RoleContainer)
      → Conforms path_role_fields r.fields
      → update_chain r ≡ (ok tt, r')
      → Updated r.storage_path r.fields r.world r'.world
  unfolding update_chain simple_chain
  update_chain-Updated r r' c e =
      let (r1, s1, e1) =
        simple_chain-eq-ok (read_role true)
          (block_operation_on_imported_role ∷ update_role_keys_from_request ∷ save_role_keys ∷ []) r
          r' e in
      let (role, stored, q1) = read_role-eq-ok r r1 s1 in
      let (r2, s2, e2) =
        simple_chain-eq-ok block_operation_on_imported_role
          (update_role_keys_from_request ∷ save_role_keys ∷ []) r1 r' e1 in
      let (own, q2) = imported-eq-ok (carrying role r) r2 role refl (
        subst (λ (x : Req env RoleContainer). block_operation_on_imported_role x ≡ (ok tt, r2)) q1
          s2) in
      let (r3, s3, e3) =
        simple_chain-eq-ok update_role_keys_from_request (save_role_keys ∷ []) r2 r' e2 in
      let now = update_role_keys_from_request-of_role (carrying role r) role refl c in
      let q3 = ran now (
        subst (λ (x : Req env RoleContainer). update_role_keys_from_request x ≡ (ok tt, r3)) q2
          s3) in
      let (r4, s4, e4) = simple_chain-eq-ok save_role_keys [] r3 r' e3 in
      let put =
        save_role_keys-eq-ok _ r4 _ refl
          (subst (λ (x : Req env RoleContainer). save_role_keys x ≡ (ok tt, r4)) q3 s4)
        ∙ ap (λ (x : Exit (Unit {0}) × Req env RoleContainer). (none, x.1.world.store)) e4 in
      record {
        role = role;
        was_stored = stored;
        own = own;
        keys_now = get-persist laws _ _ _ _ put;
        usage_kept = get-persist_ne laws _ _ _ _ _ put (keys_apart r.storage_path);
      }
    where
      ran :
          {x : Exit (Unit {0}) × Req env RoleContainer} {a b : Req env RoleContainer}
          → x ≡ (ok tt, a)
          → x ≡ (ok tt, b)
          → b ≡ a
      ran p q = ap (λ (y : Exit (Unit {0}) × Req env RoleContainer). y.1) (sym q ∙ p)

  -- With a storage that does what it documents, and fields that are checked: a write to a role whose
  -- key entry is there, and which goes through, found a role that was not imported, stored its keys
  -- with those that the request gives in their place, and left the entry of its usage as it was.
  pub write_to-path_role-Updated :
      {choose : Option Bool → Operation} (choice : WriteLaws choose) (d : FieldData)
      (body : Option Fields) (w w' : World env) (path : String) (entry : Blob)
      → Conforms path_role_fields d
      → storage_path_for_role env w.plugin d ≡ some path
      → env.storage_get (path <> key_suffix) w.store ≡ good (some entry)
      → write_to choose path_role d body w ≡ (ok tt, w')
      → Updated path d w w'
  unfolding handle_update_role_data
  write_to-path_role-Updated choice d body w w' path entry c p there e =
      let (r', ran, q) =
        handle_role-eq-ok empty_container update_chain d body w w' path p
          (sym (write_to-path_role choice d body w path (some entry) p there) ∙ e) in
      subst (λ (u : World env). Updated path d w u) (sym q)
        (update_chain-Updated (start_request empty_container path d body w) r' c ran)
