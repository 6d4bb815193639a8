-- ===== src/Role/Json.antt =====
-- The JSON form of role data: the struct tags of mashery/data_structs.go, read as
-- `encoding/json` documents them. A field tagged `omitempty` is left out where it is zero, and
-- decoding leaves the receiver's field alone where the object has no such key or has `null`.
use hcvault_mashery_api_auth.Prelude.{
  ℤ, pos, eqb_ℤ, String, Bool, not, Option, none, some, ◌==◌, if◌then◌else◌,
}
use hcvault_mashery_api_auth.Value.{
  Value, null, truth, number, text, object, Fields, end, field, lookup,
}
use hcvault_mashery_api_auth.Role.{
  RoleKeys, RoleUsageTerm, RoleDataExchange, StoredRoleUsage, zero_keys,
}

infixl 5 ◌>>=◌
abbrev pub ◌>>=◌ {ℓ κ} : {A : Type ℓ} {B : Type κ} → Option A → (A → Option B) → Option B
none >>= f = none
some a >>= f = f a

-- One field of a struct that is encoded; the first argument says whether it is left out.
abbrev pub put_unless : Bool → String → Value → Fields → Fields
put_unless skip key v rest = if skip then rest else field key v rest

-- One field of a receiver that is decoded into; `none` is the type error of the decoder.
abbrev pub as_text : String → Option Value → Option String
as_text default none = some default
as_text default (some null) = some default
as_text default (some (text s)) = some s
as_text default (some _) = none

abbrev pub as_number : ℤ → Option Value → Option ℤ
as_number default none = some default
as_number default (some null) = some default
as_number default (some (number n)) = some n
as_number default (some _) = none

abbrev pub as_truth : Bool → Option Value → Option Bool
as_truth default none = some default
as_truth default (some null) = some default
as_truth default (some (truth b)) = some b
as_truth default (some _) = none

abbrev pub is_zero : ℤ → Bool
is_zero n = eqb_ℤ n (pos 0)

unfoldable pub encode_keys : RoleKeys → Fields
encode_keys k = put_unless (k.area_id == "") "aid" (text k.area_id) (
    put_unless (is_zero k.area_nid) "nid" (number k.area_nid) (
      put_unless (k.api_key == "") "key" (text k.api_key) (
        put_unless (k.key_secret == "") "srt" (text k.key_secret) (
          put_unless (k.username == "") "usr" (text k.username) (
            put_unless (k.password == "") "pwd" (text k.password) (
              put_unless (is_zero k.max_qps) "qps" (number k.max_qps) (
                put_unless (not k.force_proxy_mode) "fpm" (truth k.force_proxy_mode)
                  (field "_imp" (truth k.imported) (field "_exp" (truth k.exportable) end)))))))))

unfoldable pub decode_keys : Fields → RoleKeys → Option RoleKeys
decode_keys f r = do
  area_id ← as_text r.area_id (lookup "aid" f)
  area_nid ← as_number r.area_nid (lookup "nid" f)
  api_key ← as_text r.api_key (lookup "key" f)
  key_secret ← as_text r.key_secret (lookup "srt" f)
  username ← as_text r.username (lookup "usr" f)
  password ← as_text r.password (lookup "pwd" f)
  max_qps ← as_number r.max_qps (lookup "qps" f)
  force_proxy_mode ← as_truth r.force_proxy_mode (lookup "fpm" f)
  imported ← as_truth r.imported (lookup "_imp" f)
  exportable ← as_truth r.exportable (lookup "_exp" f)
  some (record {
    area_id = area_id;
    area_nid = area_nid;
    api_key = api_key;
    key_secret = key_secret;
    username = username;
    password = password;
    max_qps = max_qps;
    force_proxy_mode = force_proxy_mode;
    imported = imported;
    exportable = exportable;
  })

unfoldable pub encode_usage : StoredRoleUsage → Fields
encode_usage u = field "_v3t" (text u.v3_token) (
    field "_v3te" (number u.v3_token_expiry) (
      field "_v3to" (number u.v3_token_obtained) (
        put_unless (is_zero u.explicit_num_uses) "enu" (number u.explicit_num_uses) (
          field "_urm" (number u.remaining_num_uses)
            (put_unless (is_zero u.explicit_term) "etm" (number u.explicit_term) end)))))

unfoldable pub decode_usage : Fields → StoredRoleUsage → Option StoredRoleUsage
decode_usage f r = do
  v3_token ← as_text r.v3_token (lookup "_v3t" f)
  v3_token_expiry ← as_number r.v3_token_expiry (lookup "_v3te" f)
  v3_token_obtained ← as_number r.v3_token_obtained (lookup "_v3to" f)
  explicit_num_uses ← as_number r.explicit_num_uses (lookup "enu" f)
  remaining_num_uses ← as_number r.remaining_num_uses (lookup "_urm" f)
  explicit_term ← as_number r.explicit_term (lookup "etm" f)
  some (record {
    v3_token = v3_token;
    v3_token_expiry = v3_token_expiry;
    v3_token_obtained = v3_token_obtained;
    explicit_num_uses = explicit_num_uses;
    remaining_num_uses = remaining_num_uses;
    explicit_term = explicit_term;
  })

unfoldable pub encode_term : RoleUsageTerm → Fields
encode_term t =
    put_unless (is_zero t.explicit_term) "etm" (number t.explicit_term)
      (put_unless (is_zero t.explicit_num_uses) "enu" (number t.explicit_num_uses) end)

unfoldable pub decode_term : Fields → RoleUsageTerm → Option RoleUsageTerm
decode_term f r = do
  explicit_term ← as_number r.explicit_term (lookup "etm" f)
  explicit_num_uses ← as_number r.explicit_num_uses (lookup "enu" f)
  some (record { explicit_term = explicit_term; explicit_num_uses = explicit_num_uses })

unfoldable pub encode_exchange : RoleDataExchange → Fields
unfolding encode_keys encode_term
encode_exchange x =
    field "d" (object (encode_keys x.role_data))
      (elim x.usage_term [ none ↦ end | some t ↦ field "u" (object (encode_term t)) end ])

abbrev decode_nested_keys : Option Value → Option RoleKeys
decode_nested_keys none = some zero_keys
decode_nested_keys (some null) = some zero_keys
decode_nested_keys (some (object f)) = decode_keys f zero_keys
decode_nested_keys (some _) = none

abbrev decode_nested_term : Option Value → Option (Option RoleUsageTerm)
decode_nested_term none = some none
decode_nested_term (some null) = some none
decode_nested_term (some (object f)) = do
  t ← decode_term f (record { explicit_term = pos 0; explicit_num_uses = pos 0 })
  some (some t)
decode_nested_term (some _) = none

-- `json.Unmarshal` into a zero `RoleDataExchange`.
unfoldable pub decode_exchange : Fields → Option RoleDataExchange
unfolding decode_keys decode_term
decode_exchange f = do
  role_data ← decode_nested_keys (lookup "d" f)
  usage_term ← decode_nested_term (lookup "u" f)
  some (record { role_data = role_data; usage_term = usage_term })
