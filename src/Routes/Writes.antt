-- ===== src/Routes/Writes.antt =====
-- Writes to the paths: which operation of the table they become, and what it does.
use hcvault_mashery_api_auth.Prelude.{
  ℕ, ◌≤◌, String, ◌<>◌, ◌≡◌, refl, sym, ap, ◌∙◌, subst, ◌⊎◌, Bool, true, false, Option, none, some,
  [], arith,
}
use hcvault_mashery_api_auth.Value.{text, Fields, Response, error_response, good, Blob}
use hcvault_mashery_api_auth.Exec.{Exit, ok, respond, ◌>>=◌}
use hcvault_mashery_api_auth.Exec.Laws.{bind-of_ok}
use hcvault_mashery_api_auth.Env.{Env}
use hcvault_mashery_api_auth.Request.{FieldData, World, storage_path_for_role}
use hcvault_mashery_api_auth.Handler.{Handler}
use hcvault_mashery_api_auth.RoleSteps.{key_suffix}
use hcvault_mashery_api_auth.Roles.{
  role_existence_check, handle_write_role_keys, handle_update_role_data,
}
use hcvault_mashery_api_auth.Api.{method_put}
use hcvault_mashery_api_auth.Api.Puts.{CountsOthers, guarded_write-free}
use hcvault_mashery_api_auth.V3.{v3_object_exists, do_if_cli_write_enabled, execute_v3_write}
use hcvault_mashery_api_auth.V3.Exists.{v3_object_exists-true}
use hcvault_mashery_api_auth.Routes.{
  Operation, list_operation, read_operation, create_operation, update_operation, delete_operation,
  RoutePath, callback_in, callback_of, ExistenceCheck, run_callback, write_to, WriteLaws,
}
use hcvault_mashery_api_auth.Routes.Paths.{
  path_role, path_role_v3, path_role_imp_exp_import, refuse_import, role_exists,
}

module _ {env : Env} where
  -- Where the key entry of the role is read, the existence check tells whether it is there.
  role_existence_check-good :
      (d : FieldData) (w : World env) (path : String) (entry : Option Blob)
      → storage_path_for_role env w.plugin d ≡ some path
      → env.storage_get (path <> key_suffix) w.store ≡ good entry
      → role_existence_check d w ≡ (ok (elim entry [ none ↦ false | some _ ↦ true ]), w)
  unfolding role_existence_check
  role_existence_check-good d w path none p e = ground arith
  role_existence_check-good d w path (some b) p e = ground arith

some-inj : {A : Type 0} {x y : A} → some x ≡ some y → x ≡ y
some-inj q = ground arith

-- The operations that write.
abbrev pub IsWrite : Operation → Type 0
IsWrite op = (op ≡ create_operation) ⊎ ((op ≡ update_operation) ⊎ (op ≡ delete_operation))

abbrev pub cli_refusal : Response
cli_refusal = error_response "cli write operations are disabled for V3 API" []

module _ {env : Env} where
  refusal :
      (g : Handler env) (d : FieldData) (body : Option Fields) (w : World env)
      → w.plugin.cfg.cli_write_enabled ≡ false
      → do_if_cli_write_enabled g d body w ≡ (respond cli_refusal, w)
  unfolding do_if_cli_write_enabled
  refusal g d body w h = ground arith

  guarded :
      (g f : Handler env) (d : FieldData) (body : Option Fields) (w : World env)
      → w.plugin.cfg.cli_write_enabled ≡ false
      → some (do_if_cli_write_enabled g) ≡ some f
      → f d body w ≡ (respond cli_refusal, w)
  guarded g f d body w h e =
      subst (λ (k : Handler env). k d body w ≡ (respond cli_refusal, w)) (some-inj e)
        (refusal g d body w h)

  -- Where writes from the command line are disabled, every writing operation of the V3 path is
  -- refused, and nothing is changed.
  pub callback_of-path_role_v3-cli_refusal :
      (op : Operation) (f : Handler env) (d : FieldData) (body : Option Fields) (w : World env)
      → IsWrite op
      → callback_of path_role_v3 op ≡ some f
      → w.plugin.cfg.cli_write_enabled ≡ false
      → f d body w ≡ (respond cli_refusal, w)
  unfolding callback_in path_role_v3
  callback_of-path_role_v3-cli_refusal list_operation f d body w i e h = absurd (ground arith)
  callback_of-path_role_v3-cli_refusal read_operation f d body w i e h = absurd (ground arith)
  callback_of-path_role_v3-cli_refusal create_operation f d body w i e h = guarded _ f d body w h e
  callback_of-path_role_v3-cli_refusal update_operation f d body w i e h = guarded _ f d body w h e
  callback_of-path_role_v3-cli_refusal delete_operation f d body w i e h = guarded _ f d body w h e

module _ {choose : Option Bool → Operation} (laws : WriteLaws choose) where
  abbrev choice : Bool → Operation
  choice true = update_operation
  choice false = create_operation

  choose-some : (b : Bool) → choose (some b) ≡ choice b
  choose-some true = laws.of_present
  choose-some false = laws.of_absent

module _ {env : Env} {choose : Option Bool → Operation} (laws : WriteLaws choose) where
  -- A path whose existence check has returned runs the operation of its answer.
  checked :
      (p : RoutePath env) (check : ExistenceCheck env) (d : FieldData) (body : Option Fields)
      (w w' : World env) (b : Bool)
      → check d body w ≡ (ok b, w')
      → ◌≡◌ {A = Exit (Unit {0}) × World env}
          ((check d body >>= λ b. run_callback (callback_of p (choose (some b))) d body) w)
          (run_callback (callback_of p (choice laws b)) d body w')
  checked p check d body w w' b e =
      bind-of_ok (check d body) (λ b. run_callback (callback_of p (choose (some b))) d body) w w' b
        e
      ∙ ap (λ (op : Operation). run_callback (callback_of p op) d body w') (choose-some laws b)

  -- The callback of a write is that of an update.
  v3_write_is_update :
      (d : FieldData) (body : Option Fields) (w w' : World env) (b : Bool)
      → v3_object_exists d body w ≡ (ok b, w')
      → write_to choose path_role_v3 d body w
        ≡ do_if_cli_write_enabled (execute_v3_write method_put) d body w'
  unfolding write_to callback_in path_role_v3
  v3_write_is_update d body w w' b e =
      checked path_role_v3 v3_object_exists d body w w' b e
      ∙ by_answer b (v3_object_exists-true d body w w' b e)
    where
      by_answer :
          (b : Bool)
          → b ≡ true
          → run_callback (callback_of path_role_v3 (choice laws b)) d body w'
            ≡ do_if_cli_write_enabled (execute_v3_write method_put) d body w'
      by_answer true h = refl
      by_answer false h = absurd (ground arith)

  -- Whatever the existence check of the V3 path answered: a write of an object that was posted is
  -- an update, which is refused where writes from the command line are disabled; and after the
  -- check it makes no call of a resource but the PUT of that object at the path of the request,
  -- as each count shows that leaves out these calls and the requests for tokens.
  pub write_to-path_role_v3 :
      {calls : env.Remote → ℕ} {path : String} {sent : Fields}
      (counts : CountsOthers env calls ("/" <> path) sent) (d : FieldData) (w w' : World env)
      (b : Bool)
      → v3_object_exists d (some sent) w ≡ (ok b, w')
      → d.get "path" ≡ text path
      → (write_to choose path_role_v3 d (some sent) w
          ≡ do_if_cli_write_enabled (execute_v3_write method_put) d (some sent) w')
        × (calls (write_to choose path_role_v3 d (some sent) w).1.remote ≤ calls w'.remote)
  write_to-path_role_v3 {calls} {path} {sent} counts d w w' b e p =
      let same = v3_write_is_update d (some sent) w w' b e in
      (
        same,
        subst (λ (x : Exit (Unit {0}) × World env). calls x.1.remote ≤ calls w'.remote) (sym same)
            (guarded_write-free path sent counts d w' p),
      )

  -- An import into a role whose key entry is not stored is refused, and nothing is changed.
  pub write_to-path_role_imp_exp_import :
      (d : FieldData) (body : Option Fields) (w : World env) (path : String)
      → storage_path_for_role env w.plugin d ≡ some path
      → env.storage_get (path <> key_suffix) w.store ≡ good none
      → write_to choose path_role_imp_exp_import d body w ≡ (
        respond (error_response "importing data into non-existing role cannot possibly work" []),
        w,
      )
  unfolding write_to callback_in path_role_imp_exp_import refuse_import
  write_to-path_role_imp_exp_import d body w path p e =
      checked path_role_imp_exp_import role_exists d body w w false
        (role_existence_check-good d w path none p e)

  -- A write to a role creates it where its key entry is not stored, and else updates it.
  pub write_to-path_role :
      (d : FieldData) (body : Option Fields) (w : World env) (path : String) (entry : Option Blob)
      → storage_path_for_role env w.plugin d ≡ some path
      → env.storage_get (path <> key_suffix) w.store ≡ good entry
      → write_to choose path_role d body w ≡ (elim entry [
        | none ↦ handle_write_role_keys d body w
        | some _ ↦ handle_update_role_data d body w
      ])
  unfolding write_to callback_in path_role
  write_to-path_role d body w path entry p e =
      checked path_role role_exists d body w w _ (role_existence_check-good d w path entry p e)
      ∙ by_entry entry
    where
      by_entry :
          (entry : Option Blob)
          → run_callback
              (callback_of path_role (choice laws (elim entry [ none ↦ false | some _ ↦ true ])))
              d
              body
              w
            ≡ (elim entry [
              | none ↦ handle_write_role_keys d body w
              | some _ ↦ handle_update_role_data d body w
            ])
      by_entry none = refl
      by_entry (some b) = refl
