-- ===== src/Roles/Imported.antt =====
-- Imported roles: what a write of one does.
use hcvault_mashery_api_auth.Prelude.{◌≡◌, sym, ap, subst, true, false, some, List, [], ◌∷◌, arith}
use hcvault_mashery_api_auth.Value.{error_response}
use hcvault_mashery_api_auth.Exec.{Exit, ok, respond, fail, panic}
use hcvault_mashery_api_auth.Role.{StoredRole}
use hcvault_mashery_api_auth.Env.{Env}
use hcvault_mashery_api_auth.Request.{Req}
use hcvault_mashery_api_auth.Request.Chain.{Transformer, simple_chain}
use hcvault_mashery_api_auth.RoleSteps.{
  RoleContainer, role_container, read_role, block_operation_on_imported_role,
  update_role_keys_from_request, save_role_keys, set_initial_role_usage, save_role_usage,
}
use hcvault_mashery_api_auth.Roles.{write_chain, update_chain}

abbrev pub imported_refusal : Exit (Unit {0})
imported_refusal = respond (error_response "operation is not permitted on an imported role" [])

module _ {env : Env} where
  block_imported :
      (r : Req env RoleContainer) (role : StoredRole)
      → r.heap.role ≡ some role
      → role.keys.imported ≡ true
      → block_operation_on_imported_role r ≡ (imported_refusal, r)
  unfolding block_operation_on_imported_role
  block_imported r role h i = ground arith

  refused :
      (read : Transformer env RoleContainer) (fs : List (Transformer env RoleContainer))
      (r q : Req env RoleContainer) (role : StoredRole)
      → read r ≡ (ok tt, q)
      → q.heap.role ≡ some role
      → role.keys.imported ≡ true
      → simple_chain (read ∷ block_operation_on_imported_role ∷ fs) r ≡ (imported_refusal, q)
  unfolding simple_chain
  refused read fs r q role e h i = split (read r) e (block_imported q role h i)
    where
      after_block :
          (y : Exit (Unit {0}) × Req env RoleContainer)
          → y ≡ (imported_refusal, q)
          → ◌≡◌ {A = Exit (Unit {0}) × Req env RoleContainer}
              (elim y.0 [
                | ok _ ↦ simple_chain fs y.1
                | respond lr ↦ (respond lr, y.1)
                | fail err ↦ (fail err, y.1)
                | panic ↦ (panic, y.1)
              ])
              (imported_refusal, q)
      after_block (ok x, t) p = absurd (ground arith)
      after_block (respond lr, t) p = p
      after_block (fail err, t) p = p
      after_block (panic, t) p = p

      split :
          (x : Exit (Unit {0}) × Req env RoleContainer)
          → x ≡ (ok tt, q)
          → block_operation_on_imported_role q ≡ (imported_refusal, q)
          → ◌≡◌ {A = Exit (Unit {0}) × Req env RoleContainer}
              (elim x.0 [
                | ok _ ↦ simple_chain (block_operation_on_imported_role ∷ fs) x.1
                | respond lr ↦ (respond lr, x.1)
                | fail err ↦ (fail err, x.1)
                | panic ↦ (panic, x.1)
              ])
              (imported_refusal, q)
      split (ok x, t) p b =
          subst
            (λ u. simple_chain (block_operation_on_imported_role ∷ fs) u ≡ (imported_refusal, q))
            (sym (ap (λ (x : Exit (Unit {0}) × Req env RoleContainer). x.1) p))
            (after_block (block_operation_on_imported_role q) b)
      split (respond lr, t) p b = absurd (ground arith)
      split (fail err, t) p b = absurd (ground arith)
      split (panic, t) p b = absurd (ground arith)

  -- Where the role that a write or an update reads is an imported one, both are refused, and the
  -- request ends with what the reading left: nothing is written.
  pub imported_role_unchanged :
      (r q q' : Req env RoleContainer) (role role' : StoredRole)
      → read_role false r ≡ (ok tt, q)
      → read_role true r ≡ (ok tt, q')
      → q.heap.role ≡ some role
      → q'.heap.role ≡ some role'
      → role.keys.imported ≡ true
      → role'.keys.imported ≡ true
      → (write_chain r ≡ (imported_refusal, q)) × (update_chain r ≡ (imported_refusal, q'))
  unfolding write_chain update_chain
  imported_role_unchanged r q q' role role' e e' h h' i i' = (
    refused (read_role false)
        (update_role_keys_from_request ∷ save_role_keys ∷ set_initial_role_usage ∷ save_role_usage
          ∷ [])
        r q role e h i,
    refused (read_role true) (update_role_keys_from_request ∷ save_role_keys ∷ []) r q' role' e' h'
        i',
  )
