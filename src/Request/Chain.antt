-- ===== src/Request/Chain.antt =====
-- Chains of responsibility: mashery/chainofresponsibility.go and mashery/cordriver.go.
pub mod Laws
pub mod Runs
use hcvault_mashery_api_auth.Prelude.{
  ℕ, zero, suc, ◌+◌, ◌-◌, ◌*◌, ◌/◌, ◌%◌, ◌^◌, ◌≤◌, ◌<◌, ℤ, pos, negsuc, pos_part, neg_part, ◌+ℤ◌,
  ◌-ℤ◌, ◌≤ℤ◌, ◌<ℤ◌, ltb_ℤ, leb_ℤ, eqb_ℤ, wrap64, IsInt64, wrap64_of_IsInt64, String, ◌<>◌, ◌≡◌,
  refl, sym, ap, ◌∙◌, fun_ext, subst, ◌≢◌, ◌↔◌, ◌⊎◌, inl, inr, Bool, true, false, not, ◌&&◌, ◌||◌,
  Option, none, some, List, [], ◌∷◌, ◌++◌, map, arith, ◌==◌, eq_iff, eq_refl, ltb, leb, eqb,
  if◌then◌else◌, Bool-cases, Option-cases, length, ne_of_not_equal, not_equal_of_ne, append-ne_left,
  append-ne_right,
}
use hcvault_mashery_api_auth.Exec.{
  Exit, ok, respond, fail, panic, Exec, continue, pure, ◌>>=◌, ◌>>◌,
}
use hcvault_mashery_api_auth.Env.{Env}
use hcvault_mashery_api_auth.Request.{Req, Step, World, map_request_handler_context}

-- `TransformerFunc[T]`
abbrev pub Transformer : Env → Type 0 → Type 0
Transformer env H = Exec (Req env H) (Unit {0})

module _ {env : Env} {H : Type 0} where
  -- `SimpleChain` and `SimpleRunner.Run`: the first step that ends the request ends the loop.
  unfoldable pub simple_chain : List (Transformer env H) → Transformer env H
  simple_chain [] r = (ok tt, r)
  simple_chain (f ∷ subsequent) r =
      let (x, r') = f r in
      elim x [
        | ok _ ↦ simple_chain subsequent r'
        | respond lr ↦ (respond lr, r')
        | fail err ↦ (fail err, r')
        | panic ↦ (panic, r')
      ]

  -- The loop of `Tail`, which leaves the last answer in `resp, err`.
  abbrev tail_from :
      List (Transformer env H) → Exit (Unit {0}) × Req env H → Exit (Unit {0}) × Req env H
  tail_from [] (x, r) = (x, r)
  tail_from (f2 ∷ fs) (ok _, r) = tail_from fs (f2 r)
  tail_from (f2 ∷ fs) (x, r) = (x, r)

  unfoldable pub tail_chain : Transformer env H → List (Transformer env H) → Transformer env H
  tail_chain f1 subsequent r = tail_from subsequent (f1 r)

  -- `SimpleRunner.Append`
  unfoldable pub append_steps :
      List (Transformer env H) → List (Transformer env H) → List (Transformer env H)
  append_steps f subsequent = f ++ subsequent

-- `MappingRunner.Run`: the parent runs on a heap of its own, in the same world; what it leaves is
-- imported into the heap, and the steps of the runner go on.
module _ {env : Env} {From To : Type 0} where
  unfoldable pub mapping_run :
      Transformer env From
      → (To → From)
      → (From → To → To)
      → List (Transformer env To)
      → Transformer env To
  unfolding map_request_handler_context simple_chain
  mapping_run parent exporter importer own r =
      let (x, p) = parent (map_request_handler_context exporter r) in
      let r' = record r { world = p.world } in
      elim x [
        | ok _ ↦ simple_chain own (record r' { heap = importer p.heap r.heap })
        | respond lr ↦ (respond lr, r')
        | fail err ↦ (fail err, r')
        | panic ↦ (panic, r')
      ]

-- A chain as a sequence, which proofs step through.
module _ {env : Env} {H : Type 0} where
  pub simple_chain-cons :
      (f : Transformer env H) (fs : List (Transformer env H))
      → simple_chain (f ∷ fs) ≡ (f >> simple_chain fs)
  unfolding simple_chain
  simple_chain-cons f fs = fun_ext λ r. let (x, r') = f r in by_exit x r'
    where
      by_exit :
          (x : Exit (Unit {0})) (r' : Req env H)
          → (elim x [
            | ok _ ↦ simple_chain fs r'
            | respond lr ↦ (respond lr, r')
            | fail err ↦ (fail err, r')
            | panic ↦ (panic, r')
          ])
            ≡ continue x (λ _. simple_chain fs) r'
      by_exit (ok _) r' = refl
      by_exit (respond lr) r' = refl
      by_exit (fail err) r' = refl
      by_exit panic r' = refl
