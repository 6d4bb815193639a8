-- ===== src/Request.antt =====
-- A request on its way through a chain of steps: `RequestHandlerContext` of
-- mashery/chainofresponsibility.go, the storage service of mashery/vaultstorage.go, and what a step
-- can reach from there: the storage, the Mashery API, the plugin and the clock.
pub mod Chain
pub mod Stored
use hcvault_mashery_api_auth.Prelude.{
  ℕ, zero, suc, ◌+◌, ◌-◌, ◌*◌, ◌/◌, ◌%◌, ◌^◌, ◌≤◌, ◌<◌, ℤ, pos, negsuc, pos_part, neg_part, ◌+ℤ◌,
  ◌-ℤ◌, ◌≤ℤ◌, ◌<ℤ◌, ltb_ℤ, leb_ℤ, eqb_ℤ, wrap64, IsInt64, wrap64_of_IsInt64, String, ◌<>◌, ◌≡◌,
  refl, sym, ap, ◌∙◌, fun_ext, subst, ◌≢◌, ◌↔◌, ◌⊎◌, inl, inr, Bool, true, false, not, ◌&&◌, ◌||◌,
  Option, none, some, List, [], ◌∷◌, ◌++◌, map, arith, ◌==◌, eq_iff, eq_refl, ltb, leb, eqb,
  if◌then◌else◌, Bool-cases, Option-cases, length, ne_of_not_equal, not_equal_of_ne, append-ne_left,
  append-ne_right,
}
use hcvault_mashery_api_auth.Value.{
  Value, text, Fields, Err, new_error, wrapped, external, Result, good, bad, Blob, document, raw,
  json, null,
}
use hcvault_mashery_api_auth.Exec.{Exit, Exec, ok, fail, pure, throw, crash, lift, ◌>>=◌, ◌>>◌}
use hcvault_mashery_api_auth.Env.{Env}
use hcvault_mashery_api_auth.Plugin.{AuthPlugin, roles_storage_root}

-- `framework.FieldData`: `GetOk`, and `Get` with its default.
pub record FieldData : Type 0 where
  pub get_ok : String → Option Value
  pub get : String → Value

pub record World (env : Env) : Type 0 where
  pub store : env.Store
  pub remote : env.Remote
  pub plugin : AuthPlugin
  pub ticks : ℕ

-- `RequestHandlerContext[T]`; `body` is the request's own map of data, `none` for nil.
pub record Req (env : Env) (H : Type 0) : Type 0 where
  pub fields : FieldData
  pub body : Option Fields
  pub storage_path : String
  pub heap : H
  pub world : World env

abbrev pub uninitialized : Err
uninitialized = new_error "storage path to read/write to/from hasn't been initialized" []

-- A type assertion `v.(string)`, which panics at another type.
abbrev pub assert_text : {S : Type 0} → Value → Exec S String
assert_text (text s) = pure s
assert_text _ = crash

-- `VaultStorageImpl`, over `logical.Storage`.
module _ (env : Env) where
  unfoldable pub persist : String → Fields → env.Store → Option Err × env.Store
  persist path f store =
      let (e, store') = env.storage_put path (json f) store in
      (elim e [ none ↦ none | some err ↦ some (wrapped "failed to persist object" err) ], store')

  unfoldable pub persist_binary : String → Blob → env.Store → Option Err × env.Store
  persist_binary path blob store = env.storage_put path blob store

  -- `entry.DecodeJSON(receiver)`: `null` leaves the receiver alone.
  abbrev pub unmarshal {ℓ} : {A : Type ℓ} → (Fields → A → Option A) → A → Blob → Result (Bool × A)
  unmarshal decode receiver (json f) = elim (decode f receiver) [
    | none ↦ bad (wrapped "cannot unmarshal data structure" (external "json"))
    | some a ↦ good (true, a)
  ]
  unmarshal decode receiver (document null) = good (true, receiver)
  unmarshal decode receiver _ = bad (wrapped "cannot unmarshal data structure" (external "json"))

  -- The result says whether there was an entry, and has the receiver after the call.
  unfoldable pub read {ℓ} :
      {A : Type ℓ} → (Fields → A → Option A) → String → A → env.Store → Result (Bool × A)
  read decode path receiver store = elim (env.storage_get path store) [
    | bad err ↦ bad (wrapped "failed to read object from storage" err)
    | good none ↦ good (false, receiver)
    | good (some entry) ↦ unmarshal decode receiver entry
  ]

  unfoldable pub read_binary : String → env.Store → Result (Option Blob)
  read_binary path store = elim (env.storage_get path store) [
    | bad err ↦ bad (wrapped "failed to read data from storage" err)
    | good entry ↦ good entry
  ]

  unfoldable pub storage_path_for_role : AuthPlugin → FieldData → Option String
  unfolding roles_storage_root
  storage_path_for_role b d = elim (d.get "roleName") [
    | text name ↦ some (roles_storage_root b <> name)
    | _ ↦ none
  ]

-- An action of a step.
abbrev pub Step : Env → Type 0 → Type 0 → Type 0
Step env H A = Exec (Req env H) A

module _ {env : Env} {H : Type 0} where
  abbrev pub get_heap : Step env H H
  get_heap r = (ok r.heap, r)

  abbrev pub put_heap : H → Step env H Unit
  put_heap h r = (ok tt, record r { heap = h })

  abbrev pub get_plugin : Step env H AuthPlugin
  get_plugin r = (ok r.world.plugin, r)

  abbrev pub put_plugin : AuthPlugin → Step env H Unit
  put_plugin b r = (ok tt, record r { world = record (r.world) { plugin = b } })

  abbrev pub get_fields : Step env H FieldData
  get_fields r = (ok r.fields, r)

  abbrev pub get_path : Step env H String
  get_path r = (ok r.storage_path, r)

  -- The number of the next draw of the clock or of random bytes.
  abbrev pub next_tick : Step env H ℕ
  next_tick r =
      (ok r.world.ticks, record r { world = record (r.world) { ticks = suc r.world.ticks } })

  -- `time.Now()`
  abbrev pub read_clock : Step env H ℤ
  read_clock r = (
    ok (env.now r.world.ticks),
    record r { world = record (r.world) { ticks = suc r.world.ticks } },
  )

  unfoldable pub read_path :
      {A : Type 0} → (Fields → A → Option A) → String → A → Step env H (Bool × A)
  unfolding read
  read_path decode path receiver r =
      if r.storage_path == ""
      then (fail uninitialized, r)
      else lift (read env decode path receiver r.world.store) r

  -- `Read`, at the path of the request.
  unfoldable pub read_own : {A : Type 0} → (Fields → A → Option A) → A → Step env H (Bool × A)
  unfolding read_path
  read_own decode receiver r = read_path decode r.storage_path receiver r

  unfoldable pub read_binary_path : String → Step env H (Option Blob)
  unfolding read_binary
  read_binary_path path r =
      if r.storage_path == ""
      then (fail uninitialized, r)
      else lift (read_binary env path r.world.store) r

  -- The end of a write: the error, if there is one, and the storage that the write left.
  abbrev pub written : Option Err × env.Store → Step env H Unit
  written (none, s) r = (ok tt, record r { world = record (r.world) { store = s } })
  written (some e, s) r = (fail e, record r { world = record (r.world) { store = s } })

  unfoldable pub write_path : String → Fields → Step env H Unit
  unfolding persist
  write_path path v r =
      if r.storage_path == ""
      then (fail uninitialized, r)
      else written (persist env path v r.world.store) r

  -- `Write`, at the path of the request.
  unfoldable pub write_own : Fields → Step env H Unit
  unfolding write_path
  write_own v r = write_path r.storage_path v r

  unfoldable pub write_binary_path : String → Blob → Step env H Unit
  unfolding persist_binary
  write_binary_path path v r =
      if r.storage_path == ""
      then (fail uninitialized, r)
      else written (persist_binary env path v r.world.store) r

  -- A call of the Mashery API, which may change what lies behind it.
  abbrev pub call_remote :
      {A : Type 0} → (env.Remote → Result A × env.Remote) → Step env H (Result A)
  call_remote f r =
      let (a, m) = f r.world.remote in (ok a, record r { world = record (r.world) { remote = m } })

-- `MapRequestHandlerContext`
unfoldable pub map_request_handler_context :
    {env : Env} {From To : Type 0} → (From → To) → Req env From → Req env To
map_request_handler_context heap_mapper from = record {
  fields = from.fields;
  body = from.body;
  storage_path = from.storage_path;
  heap = heap_mapper from.heap;
  world = from.world;
}
