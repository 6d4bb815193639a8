-- ===== src/Request/Chain/Runs.antt =====
-- Chains of steps that go on, run forwards.
use hcvault_mashery_api_auth.Prelude.{◌≡◌, refl, List, [], ◌∷◌, arith}
use hcvault_mashery_api_auth.Exec.{ok}
use hcvault_mashery_api_auth.Env.{Env}
use hcvault_mashery_api_auth.Request.{Req, map_request_handler_context}
use hcvault_mashery_api_auth.Request.Chain.{Transformer, simple_chain, mapping_run}

module _ {env : Env} where
  pub simple_chain-of_ok :
      {H : Type 0} (f : Transformer env H) (fs : List (Transformer env H)) (r q : Req env H)
      → f r ≡ (ok tt, q)
      → simple_chain (f ∷ fs) r ≡ simple_chain fs q
  unfolding simple_chain
  simple_chain-of_ok f fs r q e = ground arith

  pub simple_chain-nil : {H : Type 0} (r : Req env H) → simple_chain {env = env} [] r ≡ (ok tt, r)
  unfolding simple_chain
  simple_chain-nil r = refl

  pub mapping_run-of_ok :
      {From To : Type 0} (parent : Transformer env From) (exporter : To → From)
      (importer : From → To → To) (own : List (Transformer env To)) (r : Req env To)
      (q : Req env From)
      → parent (map_request_handler_context exporter r) ≡ (ok tt, q)
      → mapping_run parent exporter importer own r
        ≡ simple_chain own (record r { world = q.world; heap = importer q.heap r.heap })
  unfolding mapping_run
  mapping_run-of_ok parent exporter importer own r q e = ground arith
