-- ===== src/Request/Chain/Laws.antt =====
-- Laws of chains: early return, composition, and how to read a run backwards.
use hcvault_mashery_api_auth.Prelude.{
  ◌≡◌, refl, sym, ap, ◌∙◌, fun_ext, subst, ◌≢◌, List, [], ◌∷◌, ◌++◌, arith,
}
use hcvault_mashery_api_auth.Value.{Response, answer, Payload}
use hcvault_mashery_api_auth.Exec.{Exit, ok, respond, fail, panic, Exec, continue, ◌>>=◌, ◌>>◌}
use hcvault_mashery_api_auth.Env.{Env}
use hcvault_mashery_api_auth.Exec.Laws.{bind_assoc}
use hcvault_mashery_api_auth.Request.{Req, map_request_handler_context}
use hcvault_mashery_api_auth.Request.Chain.{
  Transformer, simple_chain, tail_from, tail_chain, append_steps, mapping_run, simple_chain-cons,
}

-- A step that gives no answer but a refusal.
abbrev pub Refuses : {S A : Type 0} → Exec S A → Type 0
Refuses {S} m = (s : S) (p : Payload) → (m s).0 ≢ respond (answer p)

module _ {env : Env} {H : Type 0} where
  -- What holds of every step of a list.
  abbrev pub Each : (Transformer env H → Type 0) → List (Transformer env H) → Type 0
  Each P [] = Unit
  Each P (f ∷ fs) = P f × Each P fs

  pub bind-Refuses : (f g : Transformer env H) → Refuses f → Refuses g → Refuses (f >> g)
  bind-Refuses f g hf hg s p e = split (f s) refl e
    where
      split :
          (x : Exit (Unit {0}) × Req env H)
          → f s ≡ x
          → (continue x.0 (λ _. g) x.1).0 ≢ respond (answer p)
      split (ok _, s') q e = hg s' p e
      split (respond lr, s') q e = hf s p (ap (λ (y : Exit (Unit {0}) × Req env H). y.0) q ∙ e)
      split (fail err, s') q e = absurd (cc)
      split (panic, s') q e = absurd (cc)

  empty_chain-Refuses : Refuses (simple_chain {env = env} {H = H} [])
  unfolding simple_chain
  empty_chain-Refuses s p e = absurd (cc)

  -- A chain of steps that only refuse only refuses.
  pub simple_chain-Refuses :
      (fs : List (Transformer env H)) → Each (λ f. Refuses f) fs → Refuses (simple_chain fs)
  simple_chain-Refuses [] h = empty_chain-Refuses
  simple_chain-Refuses (f ∷ fs) h =
      subst Refuses (sym (simple_chain-cons f fs))
        (bind-Refuses f (simple_chain fs) h.0 (simple_chain-Refuses fs h.1))

  -- A chain runs its parts one after the other.
  pub simple_chain-append :
      (fs gs : List (Transformer env H))
      → simple_chain (append_steps fs gs) ≡ (simple_chain fs >> simple_chain gs)
  unfolding append_steps
  simple_chain-append [] gs = unfold simple_chain in refl
  simple_chain-append (f ∷ fs) gs =
      simple_chain-cons f (fs ++ gs)
      ∙ ap (λ (m : Transformer env H). f >> m) (simple_chain-append fs gs)
      ∙ sym (bind_assoc f (λ _. simple_chain fs) (λ _. simple_chain gs))
      ∙ ap (λ (m : Transformer env H). m >> simple_chain gs) (sym (simple_chain-cons f fs))

  tail_from-eq-continue :
      (fs : List (Transformer env H)) (x : Exit (Unit {0})) (r : Req env H)
      → tail_from fs (x, r) ≡ continue x (λ _. simple_chain fs) r
  tail_from-eq-continue [] (ok _) r = unfold simple_chain in refl
  tail_from-eq-continue [] (respond lr) r = refl
  tail_from-eq-continue [] (fail err) r = refl
  tail_from-eq-continue [] panic r = refl
  tail_from-eq-continue (f ∷ fs) (ok _) r =
      let (x, r') = f r in
      tail_from-eq-continue fs x r'
      ∙ ap (λ (m : Transformer env H). m r) (sym (simple_chain-cons f fs))
  tail_from-eq-continue (f ∷ fs) (respond lr) r = refl
  tail_from-eq-continue (f ∷ fs) (fail err) r = refl
  tail_from-eq-continue (f ∷ fs) panic r = refl

  -- `Tail` and `SimpleChain` do the same with the same steps.
  pub tail_chain-eq-simple_chain :
      (f : Transformer env H) (fs : List (Transformer env H))
      → tail_chain f fs ≡ simple_chain (f ∷ fs)
  unfolding tail_chain
  tail_chain-eq-simple_chain f fs = fun_ext (λ r.
      let (x, r') = f r in
      tail_from-eq-continue fs x r'
      ∙ ap (λ (m : Transformer env H). m r) (sym (simple_chain-cons f fs)))

  -- A chain that went on to its end went on after its first step.
  pub simple_chain-eq-ok :
      (f : Transformer env H) (fs : List (Transformer env H)) (r r'' : Req env H)
      → simple_chain (f ∷ fs) r ≡ (ok tt, r'')
      → (r' : Req env H) × (f r ≡ (ok tt, r')) × (simple_chain fs r' ≡ (ok tt, r''))
  simple_chain-eq-ok f fs r r'' e =
      split (f r) (ap (λ (m : Transformer env H). m r) (sym (simple_chain-cons f fs)) ∙ e)
    where
      split :
          (x : Exit (Unit {0}) × Req env H)
          → continue x.0 (λ _. simple_chain fs) x.1 ≡ (ok tt, r'')
          → (r' : Req env H) × (x ≡ (ok tt, r')) × (simple_chain fs r' ≡ (ok tt, r''))
      split (ok _, s') q = (s', refl, q)
      split (respond lr, s') q = absurd (ground arith)
      split (fail err, s') q = absurd (ground arith)
      split (panic, s') q = absurd (ground arith)

module _ {env : Env} {From To : Type 0} where
  -- A mapped run answers only after its parent went through, from the parent's world and heap.
  pub mapping_run-eq-answer :
      (parent : Transformer env From) (exporter : To → From) (importer : From → To → To)
      (own : List (Transformer env To)) (r r' : Req env To) (p : Payload)
      → Refuses parent
      → mapping_run parent exporter importer own r ≡ (respond (answer p), r')
      → (q : Req env From) × (parent (map_request_handler_context exporter r) ≡ (ok tt, q))
        × (simple_chain own (record r { world = q.world; heap = importer q.heap r.heap })
            ≡ (respond (answer p), r'))
  unfolding mapping_run
  mapping_run-eq-answer parent exporter importer own r r' p h e =
      split (parent (map_request_handler_context exporter r)) refl e
    where
      split :
          (x : Exit (Unit {0}) × Req env From)
          → parent (map_request_handler_context exporter r) ≡ x
          → (elim x.0 [
            | ok _ ↦
                simple_chain own (record r { world = x.1.world; heap = importer x.1.heap r.heap })
            | respond lr ↦ (respond lr, record r { world = x.1.world })
            | fail err ↦ (fail err, record r { world = x.1.world })
            | panic ↦ (panic, record r { world = x.1.world })
          ])
            ≡ (respond (answer p), r')
          → (q : Req env From) × (parent (map_request_handler_context exporter r) ≡ (ok tt, q))
            × (simple_chain own (record r { world = q.world; heap = importer q.heap r.heap })
                ≡ (respond (answer p), r'))
      split (ok _, q) eq e' = (q, eq, e')
      split (respond lr, q) eq e' = absurd (
          h _ p (
            ap (λ (y : Exit (Unit {0}) × Req env From). y.0) eq
            ∙ ap (λ (y : Exit (Unit {0}) × Req env To). y.0) e'))
      split (fail err, q) eq e' = absurd (ground arith)
      split (panic, q) eq e' = absurd (ground arith)

module _ {S A B : Type 0} where
  -- A sequence whose first part only refuses answers in its second part.
  pub bind-eq-answer :
      (m : Exec S A) (f : A → Exec S B) (s t : S) (p : Payload)
      → Refuses m
      → (m >>= f) s ≡ (respond (answer p), t)
      → (a : A) × ((u : S) × (m s ≡ (ok a, u)) × (f a u ≡ (respond (answer p), t)))
  bind-eq-answer m f s t p h e = split (m s) refl e
    where
      split :
          (x : Exit A × S)
          → m s ≡ x
          → continue x.0 f x.1 ≡ (respond (answer p), t)
          → (a : A) × ((u : S) × (m s ≡ (ok a, u)) × (f a u ≡ (respond (answer p), t)))
      split (ok a, u) q e' = (a, (u, q, e'))
      split (respond lr, u) q e' =
          absurd (h s p (ap (λ (y : Exit A × S). y.0) q ∙ ap respond (respond-inj e')))
        where
          respond-inj :
              {lr : Response} {u : S}
              → ◌≡◌ {A = Exit B × S} (respond lr, u) (respond (answer p), t)
              → lr ≡ answer p
          respond-inj e = ground arith
      split (fail err, u) q e' = absurd (ground arith)
      split (panic, u) q e' = absurd (ground arith)

  -- A sequence of parts that only refuse only refuses.
  pub sequence-Refuses :
      (m : Exec S A) (f : A → Exec S B) → Refuses m → ((a : A) → Refuses (f a)) → Refuses (m >>= f)
  sequence-Refuses m f hm hf s p e =
      let (a, (u, q, e')) = bind-eq-answer m f s _ p hm (ap (λ x. (x, ((m >>= f) s).1)) e) in
      hf a u p (ap (λ (y : Exit B × S). y.0) e')
