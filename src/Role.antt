-- ===== src/Role.antt =====
-- Role data and its predicates: the role half of mashery/data_structs.go. A method that reads the
-- clock takes the reading as its first argument, in nanoseconds since the epoch.
pub mod Usage
pub mod RoundTrip
pub mod Json
use hcvault_mashery_api_auth.Prelude.{
  ℤ, pos, negsuc, String, Bool, true, false, not, ◌&&◌, ◌||◌, Option, none, some, ltb_ℤ, leb_ℤ,
  eqb_ℤ, ◌==◌, if◌then◌else◌,
}
use hcvault_mashery_api_auth.Value.{Blob}
use hcvault_mashery_api_auth.Time.{unix, sub64, add64}

pub record RoleKeys : Type 0 where
  pub area_id : String
  pub area_nid : ℤ
  pub api_key : String
  pub key_secret : String
  pub username : String
  pub password : String
  pub max_qps : ℤ
  pub force_proxy_mode : Bool
  pub imported : Bool
  pub exportable : Bool

pub record RoleUsageTerm : Type 0 where
  pub explicit_term : ℤ
  pub explicit_num_uses : ℤ

pub record RoleDataExchange : Type 0 where
  pub role_data : RoleKeys
  pub usage_term : Option RoleUsageTerm

pub record StoredRoleUsage : Type 0 where
  pub v3_token : String
  pub v3_token_expiry : ℤ
  pub v3_token_obtained : ℤ
  pub explicit_num_uses : ℤ
  pub remaining_num_uses : ℤ
  pub explicit_term : ℤ

-- `private_key` is `none` for a nil slice.
pub record StoredRole : Type 0 where
  pub keys : RoleKeys
  pub usage : StoredRoleUsage
  pub private_key : Option Blob
  pub name : String
  pub storage_path : String

abbrev pub Credentials : Type 0
Credentials = record {
  area_id : String;
  api_key : String;
  secret : String;
  username : String;
  password : String;
}

-- The zero value of each struct.
abbrev pub zero_keys : RoleKeys
zero_keys = record {
  area_id = "";
  area_nid = pos 0;
  api_key = "";
  key_secret = "";
  username = "";
  password = "";
  max_qps = pos 0;
  force_proxy_mode = false;
  imported = false;
  exportable = false;
}

abbrev pub zero_usage : StoredRoleUsage
zero_usage = record {
  v3_token = "";
  v3_token_expiry = pos 0;
  v3_token_obtained = pos 0;
  explicit_num_uses = pos 0;
  remaining_num_uses = pos 0;
  explicit_term = pos 0;
}

unfoldable pub replace_access_token : ℤ → String → ℤ → StoredRoleUsage → StoredRoleUsage
replace_access_token now tkn expiry sru = record sru {
  v3_token = tkn;
  v3_token_expiry = expiry;
  v3_token_obtained = unix now;
}

unfoldable pub has_usage_quota : StoredRoleUsage → Bool
has_usage_quota sr = ltb_ℤ (pos 0) sr.explicit_num_uses

unfoldable pub reduce_remaining_quota : StoredRoleUsage → StoredRoleUsage
reduce_remaining_quota sr =
    if ltb_ℤ (pos 0) sr.remaining_num_uses
    then record sr { remaining_num_uses = sub64 sr.remaining_num_uses (pos 1) }
    else sr

unfoldable pub v3_token_expired : ℤ → StoredRoleUsage → Bool
v3_token_expired now sr = ltb_ℤ (pos 0) sr.v3_token_expiry && ltb_ℤ sr.v3_token_expiry (unix now)

unfoldable pub unbounded_usage : StoredRoleUsage → StoredRoleUsage
unbounded_usage sr = record sr {
  explicit_num_uses = negsuc 0;
  explicit_term = negsuc 0;
  remaining_num_uses = negsuc 0;
}

unfoldable pub is_unbounded_usage : StoredRoleUsage → Bool
is_unbounded_usage sr = leb_ℤ sr.explicit_num_uses (pos 0) && leb_ℤ sr.explicit_term (pos 0)

unfoldable pub reset_token : StoredRoleUsage → StoredRoleUsage
reset_token sr = record sr {
  v3_token = "";
  v3_token_expiry = negsuc 0;
  v3_token_obtained = negsuc 0;
}

unfoldable pub v3_token_needs_renew : ℤ → StoredRoleUsage → Bool
v3_token_needs_renew now sr =
    sr.v3_token == "" || ltb_ℤ (sub64 sr.v3_token_expiry (pos 300)) (unix now)

unfoldable pub supplies_key_and_secret : RoleKeys → Bool
supplies_key_and_secret ar = not (ar.api_key == "") && not (ar.key_secret == "")

unfoldable pub is_v2_capable : RoleKeys → Bool
unfolding supplies_key_and_secret
is_v2_capable ar = ltb_ℤ (pos 0) ar.area_nid && supplies_key_and_secret ar

unfoldable pub is_v3_capable : RoleKeys → Bool
unfolding supplies_key_and_secret
is_v3_capable ar =
    not (ar.area_id == "")
    && supplies_key_and_secret ar
    && not (ar.username == "")
    && not (ar.password == "")

-- The argument is the time of the server.
unfoldable pub after_expiry_term : ℤ → StoredRoleUsage → Bool
after_expiry_term t ar = ltb_ℤ (pos 0) ar.explicit_term && ltb_ℤ ar.explicit_term (unix t)

unfoldable pub has_not_expired : ℤ → StoredRoleUsage → Bool
has_not_expired now ar = eqb_ℤ ar.explicit_term (pos 0) || ltb_ℤ (unix now) ar.explicit_term

unfoldable pub expired : ℤ → StoredRoleUsage → Bool
expired now ar = ltb_ℤ (pos 0) ar.explicit_term && ltb_ℤ ar.explicit_term (unix now)

unfoldable pub depleted : StoredRoleUsage → Bool
depleted ar = ltb_ℤ (pos 0) ar.explicit_num_uses && leb_ℤ ar.remaining_num_uses (pos 0)

unfoldable pub create_role_data_exchange : ℤ → ℤ → StoredRole → RoleDataExchange
create_role_data_exchange now term ar = record {
  role_data = record zero_keys {
    area_id = ar.keys.area_id;
    area_nid = ar.keys.area_nid;
    api_key = ar.keys.api_key;
    key_secret = ar.keys.key_secret;
    username = ar.keys.username;
    password = ar.keys.password;
    max_qps = ar.keys.max_qps;
  };
  usage_term = some (record {
    explicit_term = if eqb_ℤ term (pos 0) then pos 0 else unix (add64 now term);
    explicit_num_uses = pos 0;
  });
}

-- The assignments of `Import` to the usage.
unfoldable pub import_usage : Option RoleUsageTerm → StoredRoleUsage → StoredRoleUsage
unfolding unbounded_usage
import_usage none u = unbounded_usage u
import_usage (some t) u = record u {
  explicit_term = t.explicit_term;
  explicit_num_uses = t.explicit_num_uses;
  remaining_num_uses =
      if ltb_ℤ (pos 0) t.explicit_num_uses then t.explicit_num_uses else u.remaining_num_uses;
}

-- `StoredRole.Import`
unfoldable pub import_role : RoleDataExchange → StoredRole → StoredRole
unfolding import_usage
import_role role ar = record ar {
  keys = record role.role_data { imported = true };
  usage = import_usage role.usage_term ar.usage;
}

unfoldable pub as_v3_credentials : StoredRole → Credentials
as_v3_credentials ar = record {
  area_id = ar.keys.area_id;
  api_key = ar.keys.api_key;
  secret = ar.keys.key_secret;
  username = ar.keys.username;
  password = ar.keys.password;
}
