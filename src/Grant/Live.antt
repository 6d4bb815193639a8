-- ===== src/Grant/Live.antt =====
-- That credentials are given out where nothing is in the way: the path of a grant for V2.
use hcvault_mashery_api_auth.Prelude.{
  ℕ, suc, pos, String, ◌<>◌, ◌≡◌, refl, ap, ◌∙◌, ◌⊎◌, inl, true, false, Option, none, some, [], ◌∷◌,
  arith, ◌==◌,
}
use hcvault_mashery_api_auth.Value.{Value, text, Fields, end, answer, Payload}
use hcvault_mashery_api_auth.Exec.{Exit, ok, respond}
use hcvault_mashery_api_auth.Exec.Laws.{bind-of_ok}
use hcvault_mashery_api_auth.Role.{
  StoredRole, expired, depleted, has_usage_quota, reduce_remaining_quota, is_v2_capable,
}
use hcvault_mashery_api_auth.Role.Json.{encode_usage}
use hcvault_mashery_api_auth.Env.{Env}
use hcvault_mashery_api_auth.Plugin.{AuthPlugin, v2_signature_for, roles_storage_root}
use hcvault_mashery_api_auth.Request.{
  FieldData, Req, World, storage_path_for_role, persist, map_request_handler_context,
}
use hcvault_mashery_api_auth.Request.Chain.{Transformer, simple_chain}
use hcvault_mashery_api_auth.Request.Chain.Runs.{simple_chain-of_ok, mapping_run-of_ok}
use hcvault_mashery_api_auth.RoleSteps.{role_container, empty_container, role_usage_path}
use hcvault_mashery_api_auth.RoleSteps.Checks.{IsStored}
use hcvault_mashery_api_auth.RoleSteps.Passes.{named}
use hcvault_mashery_api_auth.Handler.{handle_role_operation, start_request, at_path}
use hcvault_mashery_api_auth.Grant.{
  GrantRequest, V2SignatureContainer, read_grant_request_params, grant_checks,
  retrieve_v2_signature, select_v2_rendering_func, with_v2_signature, grant_version, issue_grant,
  v2_body,
}
use hcvault_mashery_api_auth.Grant.Passes.{PassesAll, grant_checks-of_stored}
use hcvault_mashery_api_auth.Grant.Checks.{ticked}

-- What the body of an answer is when a V2 signature is given out for these keys at this time.
abbrev pub signed_body : Env → StoredRole → ℕ → Fields
signed_body env role tick = v2_body role (v2_signature_for env (env.now tick) role)

-- A run that ends with an answer of this body.
pub record AnswersWith {S : Type 0} (body : Fields) (x : Exit (Unit {0}) × S) : Type 0 where
  pub payload : Payload
  pub after : S
  pub answered : x ≡ (respond (answer payload), after)
  pub same_body : payload.body ≡ body

abbrev payload_of : Exit (Unit {0}) → Payload
payload_of (respond (answer p)) = p
payload_of _ = record { body = end; lease = none; warnings = []; headers = [] }

-- The role of a request, where it names one.
named-of_path :
    (env : Env) (b : AuthPlugin) (d : FieldData) (path : String)
    → storage_path_for_role env b d ≡ some path
    → (name : String) × (d.get "roleName" ≡ text name)
unfolding storage_path_for_role
named-of_path env b d path e = by_value (d.get "roleName") refl e
  where
    by_value :
        (v : Value)
        → d.get "roleName" ≡ v
        → (elim v [ text name ↦ some (roles_storage_root b <> name) | _ ↦ none ]) ≡ some path
        → (name : String) × (d.get "roleName" ≡ text name)
    by_value (text name) q x = (name, q)
    by_value v q x = absurd (ground arith)

no_signature : V2SignatureContainer
no_signature = record { role = none; sig = "" }

module _ {env : Env} where
  rendering-of_role :
      (g : GrantRequest) (r : Req env V2SignatureContainer) (role : StoredRole)
      → r.heap.role ≡ some role
      → AnswersWith (v2_body role r.heap.sig) (simple_chain (select_v2_rendering_func g ∷ []) r)
  unfolding select_v2_rendering_func simple_chain
  rendering-of_role g r role h = record {
    payload = payload_of (simple_chain (select_v2_rendering_func g ∷ []) r).0;
    after = r;
    answered = ground arith;
    same_body = ground arith;
  }

  signature-of_role :
      (g : GrantRequest) (r : Req env V2SignatureContainer) (role : StoredRole)
      → r.heap.role ≡ some role
      → retrieve_v2_signature r ≡ (
        ok tt,
        record (ticked r) {
          heap = record (r.heap) { sig = v2_signature_for env (env.now r.world.ticks) role };
        },
      )
  unfolding retrieve_v2_signature
  signature-of_role g r role h = ground arith

  own_steps-of_role :
      (g : GrantRequest) (r : Req env V2SignatureContainer) (role paying : StoredRole) (tick : ℕ)
      → r.heap.role ≡ some paying
      → paying.keys ≡ role.keys
      → r.world.ticks ≡ tick
      → AnswersWith
          (signed_body env role tick)
          (simple_chain (retrieve_v2_signature ∷ select_v2_rendering_func g ∷ []) r)
  unfolding v2_signature_for
  own_steps-of_role g r role paying tick h k t =
      let r' = record (ticked r) {
        heap = record (r.heap) { sig = v2_signature_for env (env.now r.world.ticks) paying };
      } in
      let last = rendering-of_role g r' paying h in
      record {
        payload = last.payload;
        after = last.after;
        answered =
            simple_chain-of_ok retrieve_v2_signature _ r r' (signature-of_role g r paying h)
            ∙ last.answered;
        same_body = last.same_body ∙ ground arith;
      }

  handle_role-of_answer :
      {H : Type 0} (c : H) (f : Transformer env H) (d : FieldData) (body : Option Fields)
      (w : World env) (path : String) (out : Fields)
      → storage_path_for_role env w.plugin d ≡ some path
      → AnswersWith out (f (start_request c path d body w))
      → AnswersWith out (handle_role_operation c f d body w)
  unfolding handle_role_operation
  handle_role-of_answer c f d body w path out e a = record {
    payload = a.payload;
    after = a.after.world;
    answered =
        ap (λ o. at_path c f o d body w) e
        ∙ ap (λ (x : Exit (Unit {0}) × Req env _). (x.0, x.1.world)) a.answered;
    same_body = a.same_body;
  }

  -- The steps of a grant for V2.
  abbrev signing : GrantRequest → Transformer env V2SignatureContainer
  signing g =
      with_v2_signature (grant_checks g.api_version)
        (retrieve_v2_signature ∷ select_v2_rendering_func g ∷ [])

  grant_version-of_two :
      (g : GrantRequest) (d : FieldData) (body : Option Fields) (w : World env)
      → g.api_version ≡ pos 2
      → grant_version g d body w ≡ handle_role_operation no_signature (signing g) d body w
  unfolding grant_version no_signature
  grant_version-of_two g d body w v = ground arith

  signing-of_passed :
      (g : GrantRequest) (r : Req env V2SignatureContainer) (role : StoredRole)
      → PassesAll g.api_version role (map_request_handler_context (λ _. empty_container) r)
      → AnswersWith (signed_body env role (suc r.world.ticks)) (signing g r)
  unfolding with_v2_signature map_request_handler_context
  signing-of_passed g r role k =
      let own =
        own_steps-of_role g
          (record r { world = k.left.world; heap = record (r.heap) { role = k.left.heap.role } })
          role k.paying (suc r.world.ticks) k.carried k.same_keys k.same_ticks in
      record {
        payload = own.payload;
        after = own.after;
        answered =
            mapping_run-of_ok (simple_chain (grant_checks g.api_version)) (λ _. empty_container)
              (λ from to. record to { role = from.role })
              (retrieve_v2_signature ∷ select_v2_rendering_func g ∷ []) r k.left k.passed
            ∙ own.answered;
        same_body = own.same_body;
      }

  -- Where a request for V2 meets every check, it is granted.
  grant_version-of_v2 :
      (g : GrantRequest) (d : FieldData) (body : Option Fields) (w : World env) (path : String)
      (role : StoredRole)
      → g.api_version ≡ pos 2
      → storage_path_for_role env w.plugin d ≡ some path
      → (path == "") ≡ false
      → IsStored env w.plugin path w.store role
      → role.keys.force_proxy_mode ≡ false
      → expired (env.now w.ticks) role.usage ≡ false
      → depleted role.usage ≡ false
      → is_v2_capable role.keys ≡ true
      → (has_usage_quota role.usage ≡ false)
        ⊎ ((persist env
              (role_usage_path path)
              (encode_usage (reduce_remaining_quota role.usage))
              w.store).0
            ≡ none)
      → AnswersWith (signed_body env role (suc w.ticks)) (grant_version g d body w)
  unfolding map_request_handler_context
  grant_version-of_v2 g d body w path role v named p s f e u c y =
      let (name, n) = named-of_path env w.plugin d path named in
      let r = start_request no_signature path d body w in
      let checked =
        grant_checks-of_stored g.api_version (map_request_handler_context (λ _. empty_container) r)
          role name p n s f e u (inl (v, c)) y in
      let run =
        handle_role-of_answer no_signature (signing g) d body w path
          (signed_body env role (suc w.ticks)) named (signing-of_passed g r role checked) in
      record {
        payload = run.payload;
        after = run.after;
        answered = grant_version-of_two g d body w v ∙ run.answered;
        same_body = run.same_body;
      }

  -- A request for V2 is granted where nothing is in the way: the parameters ask for V2, the request
  -- names a role that is stored, the role can be used by value, is in term at the first reading of
  -- the clock, has uses left and is V2 capable, and it has no quota or the storage takes the write of
  -- the reduced usage. The answer has the number and the QPS of the area, the API key, and the
  -- signature for the second reading of the clock.
  pub issue_grant-of_v2 :
      (d : FieldData) (body : Option Fields) (w : World env) (g : GrantRequest) (path : String)
      (role : StoredRole)
      → read_grant_request_params d w ≡ (ok g, w)
      → g.api_version ≡ pos 2
      → storage_path_for_role env w.plugin d ≡ some path
      → (path == "") ≡ false
      → IsStored env w.plugin path w.store role
      → role.keys.force_proxy_mode ≡ false
      → expired (env.now w.ticks) role.usage ≡ false
      → depleted role.usage ≡ false
      → is_v2_capable role.keys ≡ true
      → (has_usage_quota role.usage ≡ false)
        ⊎ ((persist env
              (role_usage_path path)
              (encode_usage (reduce_remaining_quota role.usage))
              w.store).0
            ≡ none)
      → AnswersWith (signed_body env role (suc w.ticks)) (issue_grant d body w)
  unfolding issue_grant
  issue_grant-of_v2 d body w g path role a v named p s f e u c y =
      let run = grant_version-of_v2 g d body w path role v named p s f e u c y in
      record {
        payload = run.payload;
        after = run.after;
        answered =
            bind-of_ok (read_grant_request_params d) (λ x. grant_version x d body) w w g a
            ∙ run.answered;
        same_body = run.same_body;
      }
