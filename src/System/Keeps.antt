-- ===== src/System/Keeps.antt =====
-- Actions on a request that keep the plugin coherent: one rule for each way to build an action.
use hcvault_mashery_api_auth.Prelude.{
  String, ◌≡◌, refl, sym, subst, Bool, true, false, Option, none, some, List, [], ◌∷◌,
  if◌then◌else◌,
}
use hcvault_mashery_api_auth.Exec.{Exit, ok, respond, fail, panic, Exec, continue, ◌>>=◌}
use hcvault_mashery_api_auth.Env.{Env}
use hcvault_mashery_api_auth.Plugin.Cache.{IsCoherent}
use hcvault_mashery_api_auth.Request.{
  Req, World, Step, FieldData, storage_path_for_role, map_request_handler_context,
}
use hcvault_mashery_api_auth.Value.{Fields}
use hcvault_mashery_api_auth.Request.Chain.{
  Transformer, simple_chain, simple_chain-cons, mapping_run,
}
use hcvault_mashery_api_auth.Request.Chain.Laws.{Each}
use hcvault_mashery_api_auth.Handler.{
  start_request, handle_operation_with_container, handle_role_operation, at_path,
}

module _ {env : Env} {H A : Type 0} where
  -- However the action ends, a coherent plugin is coherent after it.
  pub record Keeps (m : Step env H A) : Type 0 where
    pub at : (r : Req env H) → IsCoherent env r.world.plugin → IsCoherent env (m r).1.world.plugin

  pub Keeps-of_plugin :
      (m : Step env H A) → ((r : Req env H) → (m r).1.world.plugin ≡ r.world.plugin) → Keeps m
  Keeps-of_plugin m same = record { at = λ r h. subst (λ b. IsCoherent env b) (sym (same r)) h }

  pub if-Keeps : (b : Bool) (m n : Step env H A) → Keeps m → Keeps n → Keeps (if b then m else n)
  if-Keeps true m n hm hn = hm
  if-Keeps false m n hm hn = hn

module _ {env : Env} {H A B : Type 0} where
  pub bind-Keeps :
      (m : Step env H A) (f : A → Step env H B)
      → Keeps m
      → ((a : A) → Keeps (f a))
      → Keeps (m >>= f)
  bind-Keeps m f hm hf = record { at = λ r h. split (m r) (hm.at r h) }
    where
      split :
          (x : Exit A × Req env H)
          → IsCoherent env x.1.world.plugin
          → IsCoherent env (continue x.0 f x.1).1.world.plugin
      split (ok a, r') h = (hf a).at r' h
      split (respond lr, r') h = h
      split (fail err, r') h = h
      split (panic, r') h = h

module _ {env : Env} {H : Type 0} where
  pub simple_chain-Keeps :
      (fs : List (Transformer env H)) → Each (λ f. Keeps f) fs → Keeps (simple_chain fs)
  simple_chain-Keeps [] k = Keeps-of_plugin (simple_chain []) (λ r. unfold simple_chain in refl)
  simple_chain-Keeps (f ∷ fs) k =
      subst (λ (m : Transformer env H). Keeps m) (sym (simple_chain-cons f fs))
        (bind-Keeps f (λ _. simple_chain fs) k.0 (λ _. simple_chain-Keeps fs k.1))

module _ {env : Env} {From To : Type 0} where
  pub mapping_run-Keeps :
      (parent : Transformer env From) (exporter : To → From) (importer : From → To → To)
      (own : List (Transformer env To))
      → Keeps parent
      → Each (λ f. Keeps f) own
      → Keeps (mapping_run parent exporter importer own)
  unfolding mapping_run
  mapping_run-Keeps parent exporter importer own hp ho = record {
    at = λ r h.
        split r (parent (map_request_handler_context exporter r))
          (hp.at (map_request_handler_context exporter r) h);
  }
    where
      rest : Req env To → Exit (Unit {0}) × Req env From → Exit (Unit {0}) × Req env To
      rest r x = elim x.0 [
        | ok _ ↦ simple_chain own (record r { world = x.1.world; heap = importer x.1.heap r.heap })
        | respond lr ↦ (respond lr, record r { world = x.1.world })
        | fail err ↦ (fail err, record r { world = x.1.world })
        | panic ↦ (panic, record r { world = x.1.world })
      ]

      split :
          (r : Req env To) (x : Exit (Unit {0}) × Req env From)
          → IsCoherent env x.1.world.plugin
          → IsCoherent env (rest r x).1.world.plugin
      split r (ok _, p) h = (simple_chain-Keeps own ho).at _ h
      split r (respond lr, p) h = h
      split r (fail err, p) h = h
      split r (panic, p) h = h

-- A handler, or an existence check, that keeps the plugin coherent.
pub record KeepsWorld {env : Env} {A : Type 0} (m : Exec (World env) A) : Type 0 where
  pub at : (w : World env) → IsCoherent env w.plugin → IsCoherent env (m w).1.plugin

module _ {env : Env} {A B : Type 0} where
  pub bind-KeepsWorld :
      (m : Exec (World env) A) (f : A → Exec (World env) B)
      → KeepsWorld m
      → ((a : A) → KeepsWorld (f a))
      → KeepsWorld (m >>= f)
  bind-KeepsWorld m f hm hf = record { at = λ w h. split (m w) (hm.at w h) }
    where
      split :
          (x : Exit A × World env)
          → IsCoherent env x.1.plugin
          → IsCoherent env (continue x.0 f x.1).1.plugin
      split (ok a, w) h = (hf a).at w h
      split (respond lr, w) h = h
      split (fail err, w) h = h
      split (panic, w) h = h

module _ {env : Env} {A : Type 0} where
  pub if-KeepsWorld :
      (b : Bool) (m n : Exec (World env) A)
      → KeepsWorld m
      → KeepsWorld n
      → KeepsWorld (if b then m else n)
  if-KeepsWorld true m n hm hn = hm
  if-KeepsWorld false m n hm hn = hn

  pub KeepsWorld-of_plugin :
      (m : Exec (World env) A) → ((w : World env) → (m w).1.plugin ≡ w.plugin) → KeepsWorld m
  KeepsWorld-of_plugin m same = record {
    at = λ w h. subst (λ b. IsCoherent env b) (sym (same w)) h;
  }

module _ {env : Env} {H : Type 0} where
  pub handle_operation-KeepsWorld :
      (c : H) (path : String) (f : Transformer env H) (d : FieldData) (body : Option Fields)
      → Keeps f
      → KeepsWorld (handle_operation_with_container c path f d body)
  unfolding handle_operation_with_container
  handle_operation-KeepsWorld c path f d body k = record {
    at = λ w h. k.at (start_request c path d body w) h;
  }

  pub handle_role-KeepsWorld :
      (c : H) (f : Transformer env H) (d : FieldData) (body : Option Fields)
      → Keeps f
      → KeepsWorld (handle_role_operation c f d body)
  unfolding handle_role_operation
  handle_role-KeepsWorld c f d body k = record {
    at = λ w h. split w h (storage_path_for_role env w.plugin d);
  }
    where
      split :
          (w : World env)
          → IsCoherent env w.plugin
          → (o : Option String) → IsCoherent env (at_path c f o d body w).1.plugin
      split w h none = h
      split w h (some path) = (handle_operation-KeepsWorld c path f d body k).at w h
