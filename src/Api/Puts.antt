-- ===== src/Api/Puts.antt =====
-- What the write of a resource through the V3 API sends.
use hcvault_mashery_api_auth.Prelude.{
  ℕ, ◌≤◌, String, ◌<>◌, ◌≡◌, refl, sym, subst, Bool, true, false, Option, none, some, List, [], ◌∷◌,
  ◌++◌, arith, if◌then◌else◌,
}
use hcvault_mashery_api_auth.Value.{Fields, Result}
use hcvault_mashery_api_auth.Exec.{◌>>=◌}
use hcvault_mashery_api_auth.Token.{ensure_access_token_valid}
use hcvault_mashery_api_auth.Env.{Env, HttpResponse, V3Client, put_any}
use hcvault_mashery_api_auth.Request.{write_path}
use hcvault_mashery_api_auth.Api.{
  ApiContainer, api_container, do_fetch_with_error_handling, fetch_with_error_handling, write_call,
  finish, write_to_v3_resource, method_put,
}
use hcvault_mashery_api_auth.Api.Counts.{
  IsAtMost, IsCosting, bind-IsAtMost, none-IsAtMost, do_fetch-IsAtMost,
}
use hcvault_mashery_api_auth.Api.Renewals.{IsUncounted, ensure-IsAtMost}
use hcvault_mashery_api_auth.Request.{
  FieldData, World, storage_path_for_role, read_path, write_path,
}
use hcvault_mashery_api_auth.Request.Chain.{Transformer, simple_chain, simple_chain-cons}
use hcvault_mashery_api_auth.Request.Chain.Laws.{Each}
use hcvault_mashery_api_auth.RoleSteps.{
  read_role, block_usage_exceeding_limits, allow_only_v3_capable_role,
  decrease_remaining_usage_quota,
}
use hcvault_mashery_api_auth.Handler.{handle_role_operation, start_request, at_path}
use hcvault_mashery_api_auth.Value.{text, field, end}
use hcvault_mashery_api_auth.Request.{assert_text}
use hcvault_mashery_api_auth.Exec.{respond}
use hcvault_mashery_api_auth.Value.{error_response}
use hcvault_mashery_api_auth.Api.{do_fetch, bounce_error_codes, method_put, empty_api_container}
use hcvault_mashery_api_auth.Api.Render.{render_v3_single_object_response}
use hcvault_mashery_api_auth.V3.{
  post_object, base_v3_invocation_chain, invoke_v3, execute_v3_write, do_if_cli_write_enabled,
}

-- A count of the calls of resources but for the PUT of this body at this path.
pub record CountsOthers (env : Env) (calls : env.Remote → ℕ) (path : String) (body : Fields)
    : Type 0 where
  pub put :
      (client : V3Client) (token : String) (m : env.Remote)
      → calls (env.v3_call client token (put_any path body) m).1 ≤ calls m
  pub granted : IsUncounted env calls

module _ (env : Env) (calls : env.Remote → ℕ) where
  abbrev IsFree : Transformer env ApiContainer → Type 0
  IsFree f = IsAtMost {env = env} calls 0 f

  simple_chain-IsFree :
      (fs : List (Transformer env ApiContainer)) → Each IsFree fs → IsFree (simple_chain fs)
  simple_chain-IsFree [] k = none-IsAtMost 0 (simple_chain []) (λ r. unfold simple_chain in refl)
  simple_chain-IsFree (f ∷ fs) (k, ks) = subst IsFree (sym (simple_chain-cons f fs)) (
      bind-IsAtMost 0 0 0 f (λ _. simple_chain fs) (omega arith) k (λ _. simple_chain-IsFree fs ks))

  read_role-IsFree : IsFree (read_role true)
  unfolding read_role read_path
  read_role-IsFree = none-IsAtMost 0 (read_role true) (λ r. ground arith)

  exceeding-IsFree : IsFree block_usage_exceeding_limits
  unfolding block_usage_exceeding_limits
  exceeding-IsFree = none-IsAtMost 0 block_usage_exceeding_limits (λ r. ground arith)

  capable-IsFree : IsFree allow_only_v3_capable_role
  unfolding allow_only_v3_capable_role
  capable-IsFree = none-IsAtMost 0 allow_only_v3_capable_role (λ r. ground arith)

  decrease-IsFree : IsFree decrease_remaining_usage_quota
  unfolding decrease_remaining_usage_quota write_path
  decrease-IsFree = none-IsAtMost 0 decrease_remaining_usage_quota (λ r. ground arith)

  bounce-IsFree : IsFree bounce_error_codes
  unfolding bounce_error_codes
  bounce-IsFree = none-IsAtMost 0 bounce_error_codes (λ r. ground arith)

  render-IsFree : IsFree render_v3_single_object_response
  unfolding render_v3_single_object_response
  render-IsFree = none-IsAtMost 0 render_v3_single_object_response (λ r. ground arith)

  finish-IsFree : (x : Result HttpResponse) → IsFree (finish {env = env} x)
  finish-IsFree x = none-IsAtMost 0 (finish x) (λ r. ground arith)

  -- A handler of a role whose steps are free.
  handle_role-free :
      (f : Transformer env ApiContainer) (d : FieldData) (body : Option Fields) (w : World env)
      → IsFree f
      → calls (handle_role_operation empty_api_container f d body w).1.remote ≤ calls w.remote
  unfolding handle_role_operation
  handle_role-free f d body w k = at_root (storage_path_for_role env w.plugin d)
    where
      at_root :
          (o : Option String)
          → calls (at_path empty_api_container f o d body w).1.remote ≤ calls w.remote
      at_root none = omega arith
      at_root (some root) =
          let free = k.at (start_request empty_api_container root d body w) in omega arith

module _ {env : Env} {calls : env.Remote → ℕ} (path : String) (sent : Fields)
    (counts : CountsOthers env calls ("/" <> path) sent) where
  put-IsCosting :
      IsCosting {env = env} calls 0 (write_call {env = env} ("/" <> path) method_put sent)
  unfolding write_call
  put-IsCosting client token = record {
    at = λ r. let free = counts.put client token r.world.remote in omega arith;
  }

  write-IsFree : IsFree env calls (write_to_v3_resource {env = env} ("/" <> path) method_put sent)
  unfolding write_to_v3_resource fetch_with_error_handling do_fetch_with_error_handling
  write-IsFree =
      bind-IsAtMost 0 0 0
        (do_fetch ensure_access_token_valid (write_call ("/" <> path) method_put sent) 3) finish
        (omega arith)
        (do_fetch-IsAtMost ensure_access_token_valid (write_call ("/" <> path) method_put sent) 0 3
          (ensure-IsAtMost counts.granted) put-IsCosting)
        (finish-IsFree env calls)

  abbrev writing : Fields → List (Transformer env ApiContainer)
  writing body =
      write_to_v3_resource ("/" <> path) method_put body
      ∷ bounce_error_codes
      ∷ render_v3_single_object_response
      ∷ []

  invoked_write-free :
      (d : FieldData) (body : Option Fields) (w : World env)
      → calls (invoke_v3 (writing sent) d body w).1.remote ≤ calls w.remote
  unfolding invoke_v3 base_v3_invocation_chain
  invoked_write-free d body w =
      handle_role-free env calls (simple_chain (base_v3_invocation_chain ++ writing sent)) d body w
        (simple_chain-IsFree env calls (base_v3_invocation_chain ++ writing sent) (
          read_role-IsFree env calls,
          (
            exceeding-IsFree env calls,
            (
              capable-IsFree env calls,
              (
                ensure-IsAtMost counts.granted,
                (
                  decrease-IsFree env calls,
                  (write-IsFree, (bounce-IsFree env calls, (render-IsFree env calls, tt))),
                ),
              ),
            ),
          ),
        ))

  posted-free :
      (d : FieldData) (w : World env) (f : Fields)
      → calls (invoke_v3 (writing f) d (some f) w).1.remote ≤ calls w.remote
      → calls ((post_object (some f) >>= λ o. invoke_v3 (writing o) d (some f)) w).1.remote
        ≤ calls w.remote
  posted-free d w end h = omega arith
  posted-free d w (field k v rest) h = h

  -- A write with this method sends nothing but the PUT of the posted object at the path.
  pub execute_v3_write-free :
      (d : FieldData) (w : World env)
      → d.get "path" ≡ text path
      → calls (execute_v3_write method_put d (some sent) w).1.remote ≤ calls w.remote
  unfolding execute_v3_write
  execute_v3_write-free d w p =
      subst
        (λ v.
          calls
            ((assert_text v >>= λ q. post_object (some sent) >>= λ o.
                invoke_v3
                  (write_to_v3_resource ("/" <> q) method_put o
                    ∷ bounce_error_codes
                    ∷ render_v3_single_object_response
                    ∷ [])
                  d (some sent))
              w).1.remote
          ≤ calls w.remote)
        (sym p) (posted-free d w sent (invoked_write-free d (some sent) w))

  -- The same behind the guard of writes from the command line.
  pub guarded_write-free :
      (d : FieldData) (w : World env)
      → d.get "path" ≡ text path
      → calls (do_if_cli_write_enabled (execute_v3_write method_put) d (some sent) w).1.remote
        ≤ calls w.remote
  unfolding do_if_cli_write_enabled
  guarded_write-free d w p = by_setting w.plugin.cfg.cli_write_enabled
    where
      by_setting :
          (b : Bool)
          → calls
              (if b then execute_v3_write method_put d (some sent) w else (
                respond (error_response "cli write operations are disabled for V3 API" []),
                w,
              )).1.remote
            ≤ calls w.remote
      by_setting true = execute_v3_write-free d w p
      by_setting false = omega arith
