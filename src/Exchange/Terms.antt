-- ===== src/Exchange/Terms.antt =====
-- What a role can do once it was exported with some settings, and imported: the settings of
-- mashery/transformers_pki.go and `StoredRole.Import`.
use hcvault_mashery_api_auth.Prelude.{
  ℤ, pos, ◌<ℤ◌, ◌≡◌, ap, ◌∙◌, true, false, Option, none, some, arith, eq_iff, if◌then◌else◌,
}
use hcvault_mashery_api_auth.Role.{
  RoleKeys, RoleUsageTerm, RoleDataExchange, StoredRole, zero_keys, import_role, is_v2_capable,
  is_v3_capable, has_usage_quota, depleted,
}
use hcvault_mashery_api_auth.Role.Json.{
  encode_exchange, decode_exchange, encode_keys, decode_keys, is_zero,
}
use hcvault_mashery_api_auth.Role.RoundTrip.{decode-encode_keys, decode-encode_term}
use hcvault_mashery_api_auth.Exchange.Settings.{DesiredRoleExport, export_of}

no_area_id : (k : RoleKeys) → k.area_id ≡ "" → is_v3_capable k ≡ false
unfolding is_v3_capable
no_area_id k h = ground (arith, eq_iff k.area_id "")

no_area_nid : (k : RoleKeys) → k.area_nid ≡ pos 0 → is_v2_capable k ≡ false
unfolding is_v2_capable
no_area_nid k h = ground arith

-- A role that is exported for V2 only is not V3 capable after its import, whatever the recipient's
-- role was.
pub import-export_of-only_v2 :
    (now : ℤ) (s : DesiredRoleExport) (role target : StoredRole)
    → s.desired_only_v2 ≡ true
    → is_v3_capable (import_role (export_of now s role) target).keys ≡ false
unfolding import_role export_of
import-export_of-only_v2 now s role target h =
    no_area_id (import_role (export_of now s role) target).keys (ground arith)

-- A role that is exported for V3 only is not V2 capable after its import, whatever the recipient's
-- role was.
pub import-export_of-only_v3 :
    (now : ℤ) (s : DesiredRoleExport) (role target : StoredRole)
    → s.desired_only_v3 ≡ true
    → is_v2_capable (import_role (export_of now s role) target).keys ≡ false
unfolding import_role export_of
import-export_of-only_v3 now s role target h =
    no_area_nid (import_role (export_of now s role) target).keys (ground arith)

-- A role that is exported with a positive number of uses and imported has exactly that number of
-- uses as its quota, all of them left.
pub import-export_of-uses :
    (now : ℤ) (s : DesiredRoleExport) (role target : StoredRole)
    → pos 0 <ℤ s.desired_num_uses
    → ((import_role (export_of now s role) target).usage.explicit_num_uses ≡ s.desired_num_uses)
      × ((import_role (export_of now s role) target).usage.remaining_num_uses ≡ s.desired_num_uses)
      × (has_usage_quota (import_role (export_of now s role) target).usage ≡ true)
      × (depleted (import_role (export_of now s role) target).usage ≡ false)
unfolding import_role export_of has_usage_quota depleted
import-export_of-uses now s role target h = ground arith

zero_qps : (n : ℤ) → (if is_zero n then pos 0 else n) ≡ n
zero_qps n = ground arith

keys_back : (k : RoleKeys) → decode_keys (encode_keys k) zero_keys ≡ some k
keys_back k =
    decode-encode_keys k (pos 0) false
    ∙ ap (λ n. some (record k { max_qps = n })) (zero_qps k.max_qps)

exchange_back :
    (k : RoleKeys) (o : Option RoleUsageTerm)
    → decode_exchange (encode_exchange (record { role_data = k; usage_term = o }))
      ≡ some (record { role_data = k; usage_term = o })
unfolding encode_exchange decode_exchange
exchange_back k none = simp (keys_back)
exchange_back k (some t) = simp (keys_back, decode-encode_term)

-- What is exported is read back by the recipient as it was, for any keys and terms.
pub decode-encode_exchange : (x : RoleDataExchange) → decode_exchange (encode_exchange x) ≡ some x
decode-encode_exchange x = exchange_back x.role_data x.usage_term
