-- ===== src/Handler.antt =====
-- Running a request: `handleOperationWithContainer` and its kin of mashery/plugin.go.
pub mod Laws
use hcvault_mashery_api_auth.Prelude.{
  ℕ, zero, suc, ◌+◌, ◌-◌, ◌*◌, ◌/◌, ◌%◌, ◌^◌, ◌≤◌, ◌<◌, ℤ, pos, negsuc, pos_part, neg_part, ◌+ℤ◌,
  ◌-ℤ◌, ◌≤ℤ◌, ◌<ℤ◌, ltb_ℤ, leb_ℤ, eqb_ℤ, wrap64, IsInt64, wrap64_of_IsInt64, String, ◌<>◌, ◌≡◌,
  refl, sym, ap, ◌∙◌, fun_ext, subst, ◌≢◌, ◌↔◌, ◌⊎◌, inl, inr, Bool, true, false, not, ◌&&◌, ◌||◌,
  Option, none, some, List, [], ◌∷◌, ◌++◌, map, arith, ◌==◌, eq_iff, eq_refl, ltb, leb, eqb,
  if◌then◌else◌, Bool-cases, Option-cases, length, ne_of_not_equal, not_equal_of_ne, append-ne_left,
  append-ne_right,
}
use hcvault_mashery_api_auth.Value.{Fields}
use hcvault_mashery_api_auth.Exec.{Exit, ok, respond, fail, panic, Exec, deref, ◌>>=◌}
use hcvault_mashery_api_auth.Env.{Env}
use hcvault_mashery_api_auth.Plugin.{AuthPlugin}
use hcvault_mashery_api_auth.Request.{FieldData, Req, World, storage_path_for_role}
use hcvault_mashery_api_auth.Request.Chain.{Transformer}

-- A handler of the framework's: `ok` stands for (nil, nil).
abbrev pub Handler : Env → Type 0
Handler env = FieldData → Option Fields → Exec (World env) (Unit {0})

module _ {env : Env} {H : Type 0} where
  abbrev pub start_request : H → String → FieldData → Option Fields → World env → Req env H
  start_request c path d body w = record {
    fields = d;
    body = body;
    storage_path = path;
    heap = c;
    world = w;
  }

  unfoldable pub handle_operation_with_container : H → String → Transformer env H → Handler env
  handle_operation_with_container c path f d body w =
      let (x, r) = f (start_request c path d body w) in (x, r.world)

  -- The operation at a path, if the request names one.
  abbrev pub at_path : H → Transformer env H → Option String → Handler env
  at_path c f none d body w = (panic, w)
  at_path c f (some path) d body w = handle_operation_with_container c path f d body w

  -- At the storage path of the role that the request names.
  unfoldable pub handle_role_operation : H → Transformer env H → Handler env
  unfolding handle_operation_with_container storage_path_for_role
  handle_role_operation c f d body w = at_path c f (storage_path_for_role env w.plugin d) d body w
