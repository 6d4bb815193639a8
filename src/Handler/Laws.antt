-- ===== src/Handler/Laws.antt =====
-- How to read the run of a handler backwards, and steps that leave the storage alone.
use hcvault_mashery_api_auth.Prelude.{
  String, ◌≡◌, refl, ap, ◌∙◌, Option, none, some, List, [], ◌∷◌, arith,
}
use hcvault_mashery_api_auth.Value.{Fields, answer, Payload}
use hcvault_mashery_api_auth.Exec.{Exit, ok, respond, fail, panic, Exec, continue, ◌>>◌}
use hcvault_mashery_api_auth.Env.{Env}
use hcvault_mashery_api_auth.Request.{FieldData, Req, World, storage_path_for_role}
use hcvault_mashery_api_auth.Request.Chain.{Transformer, simple_chain, simple_chain-cons}
use hcvault_mashery_api_auth.Request.Chain.Laws.{Each}
use hcvault_mashery_api_auth.Handler.{start_request, handle_role_operation, at_path}

module _ {env : Env} {H : Type 0} where
  -- A handler that answers has found the path of its role, and its chain has answered there.
  pub handle_role-eq-answer :
      (c : H) (f : Transformer env H) (d : FieldData) (body : Option Fields) (w w' : World env)
      (p : Payload)
      → handle_role_operation c f d body w ≡ (respond (answer p), w')
      → (path : String) × (storage_path_for_role env w.plugin d ≡ some path)
        × ((r' : Req env H) × (f (start_request c path d body w) ≡ (respond (answer p), r'))
            × (w' ≡ r'.world))
  unfolding handle_role_operation
  handle_role-eq-answer c f d body w w' p e = split (storage_path_for_role env w.plugin d) refl e
    where
      split :
          (o : Option String)
          → storage_path_for_role env w.plugin d ≡ o
          → at_path c f o d body w ≡ (respond (answer p), w')
          → (path : String) × (storage_path_for_role env w.plugin d ≡ some path)
            × ((r' : Req env H) × (f (start_request c path d body w) ≡ (respond (answer p), r'))
                × (w' ≡ r'.world))
      split none q e' = absurd (ground arith)
      split (some path) q e' =
          (path, q, ((f (start_request c path d body w)).1, ground arith, ground arith))

  -- A handler that goes through at a path has run its chain to the end there.
  pub handle_role-eq-ok :
      (c : H) (f : Transformer env H) (d : FieldData) (body : Option Fields) (w w' : World env)
      (path : String)
      → storage_path_for_role env w.plugin d ≡ some path
      → handle_role_operation c f d body w ≡ (ok tt, w')
      → (r' : Req env H) × (f (start_request c path d body w) ≡ (ok tt, r')) × (w' ≡ r'.world)
  unfolding handle_role_operation
  handle_role-eq-ok c f d body w w' path q e = split (storage_path_for_role env w.plugin d) q e
    where
      split :
          (o : Option String)
          → o ≡ some path
          → at_path c f o d body w ≡ (ok tt, w')
          → (r' : Req env H) × (f (start_request c path d body w) ≡ (ok tt, r')) × (w' ≡ r'.world)
      split none q' e' = absurd (ground arith)
      split (some p) q' e' = ((f (start_request c path d body w)).1, ground arith, ground arith)

  -- A step that leaves the storage as it was, however it ends.
  abbrev pub KeepsStore : {A : Type 0} → Exec (Req env H) A → Type 0
  KeepsStore m = (r : Req env H) → (m r).1.world.store ≡ r.world.store

  pub bind-KeepsStore :
      (f g : Transformer env H) → KeepsStore f → KeepsStore g → KeepsStore (f >> g)
  bind-KeepsStore f g hf hg r = split (f r) ∙ hf r
    where
      split :
          (x : Exit (Unit {0}) × Req env H)
          → (continue x.0 (λ _. g) x.1).1.world.store ≡ x.1.world.store
      split (ok _, s) = hg s
      split (respond lr, s) = refl
      split (fail err, s) = refl
      split (panic, s) = refl

  pub simple_chain-KeepsStore :
      (fs : List (Transformer env H)) → Each (λ f. KeepsStore f) fs → KeepsStore (simple_chain fs)
  simple_chain-KeepsStore [] h r = unfold simple_chain in refl
  simple_chain-KeepsStore (f ∷ fs) h r =
      ap (λ (m : Transformer env H). (m r).1.world.store) (simple_chain-cons f fs)
      ∙ bind-KeepsStore f (simple_chain fs) h.0 (simple_chain-KeepsStore fs h.1) r
