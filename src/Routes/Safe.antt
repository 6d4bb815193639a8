-- ===== src/Routes/Safe.antt =====
-- Code that reads fields does not panic where they have the types that it asserts.
use hcvault_mashery_api_auth.Prelude.{
  ℤ, pos, negsuc, String, ◌≡◌, refl, sym, ap, ◌∙◌, ◌≢◌, Bool, true, false, Option, none, some,
  arith,
}
use hcvault_mashery_api_auth.Value.{Value, text, number, truth, Fields, Result, good}
use hcvault_mashery_api_auth.Exec.{Exit, ok, panic, Exec}
use hcvault_mashery_api_auth.Exec.Laws.{bind-of_ok}
use hcvault_mashery_api_auth.Exec.Safe.{IsSafe, pure-IsSafe, ◌then_safe◌}
use hcvault_mashery_api_auth.Env.{Env}
use hcvault_mashery_api_auth.Request.{FieldData, Req}
use hcvault_mashery_api_auth.ConfigSteps.{
  Draft, edit, copy_truth, with_text, copy_text, consume_text, parse_config_fields, parse_pinning,
  parse_proxy, parse_latency, parse_pin_fields,
}
use hcvault_mashery_api_auth.Exchange.Settings.{
  DesiredRoleExport, parse_desired_role_export, number_param, with_term, truth_param, term_param,
}
use hcvault_mashery_api_auth.Grant.{read_grant_request_params}
use hcvault_mashery_api_auth.V2.{verify_v2_operation_request, v2_request_of}
use hcvault_mashery_api_auth.V3.{target_update_method}
use hcvault_mashery_api_auth.Routes.{type_string, type_int, type_bool, Conforms, has_type}
use hcvault_mashery_api_auth.Routes.Schemas.{path_backend_config_fields, path_role_export_fields}
use hcvault_mashery_api_auth.Routes.Checked.{given_as, declared}

module _ {A : Type 0} where
  with_text-IsSafe :
      (o : Option Value) (k : String → Exec (Draft A) (Unit {0}))
      → given_as type_string o ≡ true
      → ((t : String) → IsSafe (k t))
      → IsSafe (with_text o k)
  unfolding has_type
  with_text-IsSafe none k h f = pure-IsSafe tt
  with_text-IsSafe (some (text t)) k h f = f t
  with_text-IsSafe (some v) k h f = absurd (ground arith)

  copy_text-IsSafe : (o : Option Value) (f : String → A → A) → IsSafe (copy_text o f)
  copy_text-IsSafe o f = record { at = λ s e. absurd (ground arith) }

  copy_truth-IsSafe : (o : Option Value) (f : Bool → A → A) → IsSafe (copy_truth o f)
  copy_truth-IsSafe o f = record { at = λ s e. absurd (ground arith) }

  consume_text-IsSafe :
      (o : Option Value) (g : String → Result String) (f : String → A → A)
      → IsSafe (consume_text o g f)
  consume_text-IsSafe o g f = record { at = λ s e. absurd (ground arith) }

  edit-IsSafe : (f : A → A) → IsSafe (edit f)
  edit-IsSafe f = record { at = λ s e. absurd (ground arith) }

module _ (env : Env) where
  parse_proxy-IsSafe : (t : String) → IsSafe (parse_proxy env t)
  parse_proxy-IsSafe t = record { at = λ s e. absurd (ground arith) }

  parse_latency-IsSafe : (t : String) → IsSafe (parse_latency env t)
  parse_latency-IsSafe t = record { at = λ s e. absurd (ground arith) }

  parse_pinning-IsSafe : (t : String) → IsSafe (parse_pinning env t)
  unfolding parse_pinning
  parse_pinning-IsSafe t = record { at = λ s e. absurd (ground arith) }

  pub parse_config_fields-IsSafe :
      (d : FieldData) → Conforms path_backend_config_fields d → IsSafe (parse_config_fields env d)
  unfolding parse_config_fields path_backend_config_fields
  parse_config_fields-IsSafe d c =
      with_text-IsSafe _ _ (declared c "oaep_label" _ refl) (λ t. edit-IsSafe _)
      then_safe with_text-IsSafe _ _ (declared c "proxy_server" _ refl) parse_proxy-IsSafe
      then_safe copy_text-IsSafe (d.get_ok "proxy_server_auth")
          (λ s be. record be { proxy_server_auth = s })
      then_safe copy_text-IsSafe (d.get_ok "proxy_server_creds")
          (λ s be. record be { proxy_server_creds = s })
      then_safe copy_text-IsSafe (d.get_ok "root_ca") (λ s be. record be { tls_certs = s })
      then_safe with_text-IsSafe _ _ (declared c "tls_pinning" _ refl) parse_pinning-IsSafe
      then_safe copy_truth-IsSafe (d.get_ok "enable_cli_v3_write")
          (λ b be. record be { cli_write_enabled = b })
      then_safe with_text-IsSafe _ _ (declared c "net_latency" _ refl) parse_latency-IsSafe

  pub parse_pin_fields-IsSafe : (d : FieldData) → IsSafe (parse_pin_fields env d)
  unfolding parse_pin_fields
  parse_pin_fields-IsSafe d =
      copy_text-IsSafe (d.get_ok "cn") (λ s p. record p { common_name = s })
      then_safe consume_text-IsSafe (d.get_ok "sn") env.serial_number_from_hex
          (λ s p. record p { serial_number = s })
      then_safe consume_text-IsSafe (d.get_ok "fp") env.fingerprint_from
          (λ s p. record p { fingerprint = s })

module _ {S : Type 0} where
  pub read_grant_request_params-IsSafe :
      (d : FieldData)
      → given_as type_int (d.get_ok "api") ≡ true
      → given_as type_bool (d.get_ok "lease") ≡ true
      → IsSafe {S = S} (read_grant_request_params d)
  unfolding read_grant_request_params has_type
  read_grant_request_params-IsSafe d a l = record { at = λ s e. absurd (ground arith) }

  pub verify_v2_operation_request-IsSafe :
      (d : FieldData) (body : Option Fields)
      → given_as type_string (d.get_ok "method") ≡ true
      → IsSafe {S = S} (verify_v2_operation_request d body)
  unfolding verify_v2_operation_request v2_request_of has_type
  verify_v2_operation_request-IsSafe d body m = record { at = λ s e. absurd (ground arith) }

module _ {env : Env} where
  pub target_update_method-IsSafe :
      (d : FieldData)
      → given_as type_string (d.get_ok "target_method") ≡ true
      → IsSafe (target_update_method {env = env} d)
  unfolding target_update_method has_type
  target_update_method-IsSafe d m = record { at = λ s e. absurd (ground arith) }

abbrev settings : ℤ → Bool → Bool → ℤ → Bool → Bool → DesiredRoleExport
settings n a b q f x = record {
  desired_term = pos 0;
  desired_num_uses = n;
  desired_qps = q;
  desired_force_proxy_mode = f;
  desired_only_v2 = a;
  desired_only_v3 = b;
  desire_exportable = x;
}

module _ {env : Env} {H : Type 0} where
  number_param-ok :
      (o : Option Value) (default : ℤ) (r : Req env H)
      → given_as type_int o ≡ true
      → (n : ℤ) × (number_param o default r ≡ (ok n, r))
  unfolding has_type
  number_param-ok none default r h = (default, refl)
  number_param-ok (some (number n)) default r h = (n, refl)
  number_param-ok (some v) default r h = absurd (ground arith)

  truth_param-ok :
      (o : Option Value) (r : Req env H)
      → given_as type_bool o ≡ true
      → (b : Bool) × (truth_param o r ≡ (ok b, r))
  unfolding has_type
  truth_param-ok none r h = (false, refl)
  truth_param-ok (some (truth b)) r h = (b, refl)
  truth_param-ok (some v) r h = absurd (ground arith)

  term_param-ok :
      (o : Option Value) (r : Req env H)
      → given_as type_string o ≡ true
      → (t : Result ℤ) × ((r' : Req env H) × (term_param o r ≡ (ok t, r')))
  unfolding has_type
  term_param-ok none r h = (good (pos 0), (r, refl))
  term_param-ok (some (text s)) r h = (_, (_, refl))
  term_param-ok (some v) r h = absurd (ground arith)

  parse_desired_role_export-ok :
      (r r' : Req env H) (n q : ℤ) (a b f x : Bool) (t : Result ℤ)
      → number_param (r.fields.get_ok "explicit_num_uses") (negsuc 0) r ≡ (ok n, r)
      → truth_param (r.fields.get_ok "v2_only") r ≡ (ok a, r)
      → truth_param (r.fields.get_ok "v3_only") r ≡ (ok b, r)
      → number_param (r.fields.get_ok "explicit_qps") (negsuc 0) r ≡ (ok q, r)
      → truth_param (r.fields.get_ok "force_proxy_mode") r ≡ (ok f, r)
      → truth_param (r.fields.get_ok "exportable") r ≡ (ok x, r)
      → term_param (r.fields.get_ok "explicit_term") r ≡ (ok t, r')
      → parse_desired_role_export r ≡ (ok (with_term (settings n a b q f x) t), r')
  unfolding parse_desired_role_export
  parse_desired_role_export-ok r r' n q a b f x t e1 e2 e3 e4 e5 e6 e7 =
      bind-of_ok (number_param (r.fields.get_ok "explicit_num_uses") (negsuc 0)) _ r r n e1
      ∙ bind-of_ok (truth_param (r.fields.get_ok "v2_only")) _ r r a e2
      ∙ bind-of_ok (truth_param (r.fields.get_ok "v3_only")) _ r r b e3
      ∙ bind-of_ok (number_param (r.fields.get_ok "explicit_qps") (negsuc 0)) _ r r q e4
      ∙ bind-of_ok (truth_param (r.fields.get_ok "force_proxy_mode")) _ r r f e5
      ∙ bind-of_ok (truth_param (r.fields.get_ok "exportable")) _ r r x e6
      ∙ bind-of_ok (term_param (r.fields.get_ok "explicit_term")) _ r r' t e7

  pub parse_desired_role_export-safe :
      (r : Req env H)
      → Conforms path_role_export_fields r.fields
      → (parse_desired_role_export r).0 ≢ panic
  unfolding path_role_export_fields
  parse_desired_role_export-safe r c e =
      let d = r.fields in
      let (n, e1) =
        number_param-ok (d.get_ok "explicit_num_uses") (negsuc 0) r (declared c _ _ refl) in
      let (a, e2) = truth_param-ok (d.get_ok "v2_only") r (declared c _ _ refl) in
      let (b, e3) = truth_param-ok (d.get_ok "v3_only") r (declared c _ _ refl) in
      let (q, e4) = number_param-ok (d.get_ok "explicit_qps") (negsuc 0) r (declared c _ _ refl) in
      let (f, e5) = truth_param-ok (d.get_ok "force_proxy_mode") r (declared c _ _ refl) in
      let (x, e6) = truth_param-ok (d.get_ok "exportable") r (declared c _ _ refl) in
      let (t, (r', e7)) = term_param-ok (d.get_ok "explicit_term") r (declared c _ _ refl) in
      not_panic (
        sym (
          ap (λ (y : Exit (Result DesiredRoleExport) × Req env H). y.0)
            (parse_desired_role_export-ok r r' n q a b f x t e1 e2 e3 e4 e5 e6 e7))
        ∙ e)
    where
      not_panic : {x : Result DesiredRoleExport} → ok x ≢ panic
      not_panic p = absurd (ground arith)
