-- ===== src/Lifecycle/Entries.antt =====
-- The entries of a role after a write of it, and what role they hold.
use hcvault_mashery_api_auth.Prelude.{
  pos, IsInt64, String, ◌≡◌, refl, sym, ap, ◌∙◌, subst, ◌≢◌, Bool, true, false, none, some, arith,
}
use hcvault_mashery_api_auth.Value.{json, good, bad, Result}
use hcvault_mashery_api_auth.Role.{
  RoleKeys, StoredRoleUsage, zero_usage, has_usage_quota, unbounded_usage, reset_token,
}
use hcvault_mashery_api_auth.Role.Json.{encode_keys, decode_keys, encode_usage, decode_usage}
use hcvault_mashery_api_auth.Role.RoundTrip.{decode-encode_keys, decode-encode_usage}
use hcvault_mashery_api_auth.Env.{Env, StorageLaws}
use hcvault_mashery_api_auth.Request.{FieldData, World, read}
use hcvault_mashery_api_auth.RoleSteps.{initial_keys, role_keys_path, role_usage_path}
use hcvault_mashery_api_auth.Roles.Updated.{given_keys, Updated}
use hcvault_mashery_api_auth.Roles.Created.{IsAbsent, Created, fresh_usage}
use hcvault_mashery_api_auth.Grant.Quota.{kept}
use hcvault_mashery_api_auth.Lifecycle.{AbstractRole, read_back, uses_of, Holds}

keys_of : Result (Bool × RoleKeys) → RoleKeys
keys_of (good x) = x.1
keys_of (bad err) = initial_keys

module _ {env : Env} (laws : StorageLaws env) (path : String) where
  usage_read_back :
      (u : StoredRoleUsage) (s : env.Store)
      → env.storage_get (role_usage_path path) s ≡ good (some (json (encode_usage u)))
      → read env decode_usage (role_usage_path path) zero_usage s ≡ good (true, u)
  unfolding read
  usage_read_back u s e = ground (arith, e, decode-encode_usage u)

  keys_read_back :
      (k : RoleKeys) (s : env.Store)
      → env.storage_get (role_keys_path path) s ≡ good (some (json (encode_keys k)))
      → read env decode_keys (role_keys_path path) initial_keys s ≡ good (true, read_back k)
  unfolding read
  keys_read_back k s e = ground (arith, e, decode-encode_keys k (pos 2) true)

  pub keys_kept :
      (k : RoleKeys) (s s' : env.Store)
      → env.storage_get (role_keys_path path) s' ≡ env.storage_get (role_keys_path path) s
      → read env decode_keys (role_keys_path path) initial_keys s ≡ good (true, k)
      → read env decode_keys (role_keys_path path) initial_keys s' ≡ good (true, k)
  unfolding read
  keys_kept k s s' e h = ground arith

  same_keys :
      (k l : RoleKeys) (s : env.Store)
      → read env decode_keys (role_keys_path path) initial_keys s ≡ good (true, k)
      → read env decode_keys (role_keys_path path) initial_keys s ≡ good (true, l)
      → l ≡ k
  unfolding keys_of
  same_keys k l s h e = ap keys_of (sym e ∙ h)

  pub absent_keys :
      (k : RoleKeys) (s : env.Store)
      → IsAbsent env path s
      → read env decode_keys (role_keys_path path) initial_keys s ≢ good (true, k)
  unfolding read
  absent_keys k s a e = let n = a.no_keys in ground arith

  fresh_uses : uses_of fresh_usage ≡ none
  unfolding has_usage_quota reset_token unbounded_usage
  fresh_uses = refl

  fresh_range : IsInt64 (fresh_usage).remaining_num_uses
  unfolding reset_token unbounded_usage
  fresh_range = omega arith

  pub Created-Holds :
      (d : FieldData) (s : env.Store)
      → Created env path d s
      → Holds env path (record { keys = read_back (given_keys d initial_keys); uses = none }) s
  Created-Holds d s c = record {
    entry = _;
    keys_entry = c.keys_now;
    keys_stored = keys_read_back (given_keys d initial_keys) s c.keys_now;
    usage = fresh_usage;
    usage_stored = usage_read_back fresh_usage s c.usage_now;
    in_range = fresh_range;
    uses_stored = fresh_uses;
  }

  pub Updated-Holds :
      (d : FieldData) (a : AbstractRole) (w w' : World env)
      → Holds env path a w.store
      → Updated path d w w'
      → (a.keys.imported ≡ false)
        × Holds env path (record { keys = read_back (given_keys d a.keys); uses = a.uses }) w'.store
  Updated-Holds d a w w' h u =
      let same = same_keys a.keys u.role.keys w.store h.keys_stored u.was_stored.keys_stored in
      (
        subst (λ (k : RoleKeys). k.imported ≡ false) same u.own,
        record {
          entry = json (encode_keys (given_keys d u.role.keys));
          keys_entry = u.keys_now;
          keys_stored =
              subst
                (λ (k : RoleKeys).
                  read env decode_keys (role_keys_path path) initial_keys w'.store
                  ≡ good (true, read_back (given_keys d k)))
                same (keys_read_back (given_keys d u.role.keys) w'.store u.keys_now);
          usage = h.usage;
          usage_stored = kept laws path w.store w'.store h.usage u.usage_kept h.usage_stored;
          in_range = h.in_range;
          uses_stored = h.uses_stored;
        },
      )
