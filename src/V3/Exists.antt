-- ===== src/V3/Exists.antt =====
-- `v3ObjectExists` of mashery/path_role_v3.go: what it can say.
use hcvault_mashery_api_auth.Prelude.{
  String, ◌≡◌, refl, sym, ap, ◌∙◌, Bool, true, false, Option, none, some, List, [], ◌∷◌, arith, ltb,
}
use hcvault_mashery_api_auth.Value.{Fields}
use hcvault_mashery_api_auth.Exec.{Exit, ok, respond, fail, panic}
use hcvault_mashery_api_auth.Exec.Laws.{bind-eq-ok}
use hcvault_mashery_api_auth.Env.{Env, HttpResponse}
use hcvault_mashery_api_auth.Request.{
  assert_text, FieldData, Req, World, storage_path_for_role, map_request_handler_context,
}
use hcvault_mashery_api_auth.Request.Chain.{Transformer, simple_chain, mapping_run}
use hcvault_mashery_api_auth.Request.Chain.Laws.{simple_chain-eq-ok}
use hcvault_mashery_api_auth.RoleSteps.{
  RoleContainer, role_container, empty_container, read_role, block_usage_exceeding_limits,
  allow_only_v3_capable_role,
}
use hcvault_mashery_api_auth.Token.{ensure_access_token_valid}
use hcvault_mashery_api_auth.Handler.{start_request}
use hcvault_mashery_api_auth.Api.{
  ApiContainer, api_container, fetch_v3_resource, empty_api_container, bounce_error_codes,
}
use hcvault_mashery_api_auth.Api.Fetch.{bounce_error_codes-eq-ok}
use hcvault_mashery_api_auth.V3.{exists_chain, exists_answer, v3_object_exists}

module _ {env : Env} where
  ended : {H : Type 0} (r q : Req env H) → simple_chain [] r ≡ (ok tt, q) → r ≡ q
  unfolding simple_chain
  ended r q e = ap (λ (x : Exit (Unit {0}) × Req env _). x.1) e

  mapping_run-eq-ok :
      {From To : Type 0} (parent : Transformer env From) (exporter : To → From)
      (importer : From → To → To) (own : List (Transformer env To)) (r r' : Req env To)
      → mapping_run parent exporter importer own r ≡ (ok tt, r')
      → (q : Req env To) × (simple_chain own q ≡ (ok tt, r'))
  unfolding mapping_run
  mapping_run-eq-ok {From} {To} parent exporter importer own r r' e =
      split (parent (map_request_handler_context exporter r)) e
    where
      split :
          (x : Exit (Unit {0}) × Req env From)
          → (elim x.0 [
            | ok _ ↦
                simple_chain own (record r { world = x.1.world; heap = importer x.1.heap r.heap })
            | respond lr ↦ (respond lr, record r { world = x.1.world })
            | fail err ↦ (fail err, record r { world = x.1.world })
            | panic ↦ (panic, record r { world = x.1.world })
          ])
            ≡ (ok tt, r')
          → (q : Req env To) × (simple_chain own q ≡ (ok tt, r'))
      split (ok _, q) e' = (_, e')
      split (respond lr, q) e' = absurd (ground arith)
      split (fail err, q) e' = absurd (ground arith)
      split (panic, q) e' = absurd (ground arith)

  -- The chain of the check goes through only with a response of a status of at most 299.
  exists_chain-eq-ok :
      (path : String) (r r' : Req env ApiContainer)
      → exists_chain path r ≡ (ok tt, r')
      → (resp : HttpResponse) × (r'.heap.response ≡ some resp) × (ltb 299 resp.status_code ≡ false)
  unfolding exists_chain
  exists_chain-eq-ok path r r' e =
      let (q, e0) =
        mapping_run-eq-ok {From = RoleContainer}
          (simple_chain
            (read_role true ∷ block_usage_exceeding_limits ∷ allow_only_v3_capable_role ∷ []))
          (λ _. empty_container) (λ from to. record to { role = from.role })
          (ensure_access_token_valid ∷ fetch_v3_resource path [] ∷ bounce_error_codes ∷ []) r r'
          e in
      let (q1, _, e1) =
        simple_chain-eq-ok ensure_access_token_valid
          (fetch_v3_resource path [] ∷ bounce_error_codes ∷ []) q r' e0 in
      let (q2, _, e2) =
        simple_chain-eq-ok (fetch_v3_resource path []) (bounce_error_codes ∷ []) q1 r' e1 in
      let (q3, b3, e3) = simple_chain-eq-ok bounce_error_codes [] q2 r' e2 in
      let (resp, has, low, _, same) = bounce_error_codes-eq-ok q2 q3 b3 in
      let there = sym (ended q3 r' e3) ∙ same in (resp, ap (λ x. x.heap.response) there ∙ has, low)

  exists_answer-true :
      (path : String) (x : Exit (Unit {0}) × Req env ApiContainer) (r : Req env ApiContainer)
      {b : Bool} {w' : World env}
      → exists_chain path r ≡ x
      → exists_answer x ≡ (ok b, w')
      → b ≡ true
  unfolding exists_answer
  exists_answer-true path (ok _, s) r ran e =
      let (resp, has, low) = exists_chain-eq-ok path r s ran in ground arith
  exists_answer-true path (respond lr, s) r ran e = absurd (ground arith)
  exists_answer-true path (fail err, s) r ran e = absurd (ground arith)
  exists_answer-true path (panic, s) r ran e = absurd (ground arith)

  -- `v3ObjectExists` never says that an object does not exist: whenever it returns without an error
  -- it returns true.
  pub v3_object_exists-true :
      (d : FieldData) (body : Option Fields) (w w' : World env) (b : Bool)
      → v3_object_exists d body w ≡ (ok b, w')
      → b ≡ true
  unfolding v3_object_exists
  v3_object_exists-true d body w w' b e =
      let (path, (u, e1, e2)) = bind-eq-ok (assert_text (d.get "path")) _ w e in
      by_root path u (storage_path_for_role env u.plugin d) e2
    where
      by_root :
          (path : String) (u : World env) (o : Option String)
          → ◌≡◌ {A = Exit Bool × World env}
              (elim o [
                | none ↦ (panic, u)
                | some root ↦
                    exists_answer
                      (exists_chain path (start_request empty_api_container root d body u))
              ])
              (ok b, w')
          → b ≡ true
      by_root path u none e' = absurd (ground arith)
      by_root path u (some root) e' = exists_answer-true path _ _ refl e'
