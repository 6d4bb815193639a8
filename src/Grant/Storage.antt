-- ===== src/Grant/Storage.antt =====
-- What the steps after the checks do with the storage: nothing.
use hcvault_mashery_api_auth.Prelude.{arith}
use hcvault_mashery_api_auth.Env.{Env}
use hcvault_mashery_api_auth.Handler.Laws.{KeepsStore}
use hcvault_mashery_api_auth.Token.{
  v3_token_container, retrieve_v3_access_token, rehydrate_v3_access_token,
}
use hcvault_mashery_api_auth.Grant.{
  GrantRequest, v2_signature_container, retrieve_v2_signature, select_v2_rendering_func,
  select_v3_rendering_func,
}

module _ {env : Env} where
  pub retrieve_v2_signature-KeepsStore : KeepsStore {env = env} retrieve_v2_signature
  unfolding retrieve_v2_signature
  retrieve_v2_signature-KeepsStore r = ground arith

  pub v2_rendering-KeepsStore :
      (g : GrantRequest) → KeepsStore {env = env} (select_v2_rendering_func g)
  unfolding select_v2_rendering_func
  v2_rendering-KeepsStore g r = ground arith

  pub retrieve_v3_access_token-KeepsStore : KeepsStore {env = env} retrieve_v3_access_token
  unfolding retrieve_v3_access_token
  retrieve_v3_access_token-KeepsStore r = ground arith

  pub rehydrate-KeepsStore : KeepsStore {env = env} rehydrate_v3_access_token
  unfolding rehydrate_v3_access_token
  rehydrate-KeepsStore r = ground arith

  pub v3_rendering-KeepsStore :
      (g : GrantRequest) → KeepsStore {env = env} (select_v3_rendering_func g)
  unfolding select_v3_rendering_func
  v3_rendering-KeepsStore g r = ground arith
