-- ===== src/RoleSteps/Render.antt =====
-- What a reader of a role sees: `renderRole` of mashery/transformers_role_rw.go.
use hcvault_mashery_api_auth.Prelude.{
  ◌*◌, ℤ, pos, pos_part, ◌+ℤ◌, ◌-ℤ◌, ltb_ℤ, leb_ℤ, String, ◌<>◌, none, [], ◌==◌, if◌then◌else◌,
}
use hcvault_mashery_api_auth.Prelude.{saturate64, scale, floor_div}
use hcvault_mashery_api_auth.Value.{text, truth, number, Fields, end, field, answer}
use hcvault_mashery_api_auth.Exec.{stop, ◌>>=◌}
use hcvault_mashery_api_auth.Time.{from_unix, sub64}
use hcvault_mashery_api_auth.Role.{
  StoredRoleUsage, StoredRole, is_v2_capable, is_v3_capable, v3_token_expired, v3_token_needs_renew,
}
use hcvault_mashery_api_auth.Env.{Env}
use hcvault_mashery_api_auth.Request.{Step, read_clock}
use hcvault_mashery_api_auth.RoleSteps.{RoleContext, get_role}

-- How long a role may be used yet.
pub data Remaining : Type 0 where
  unlimited exhausted : Remaining
  left : ℤ → Remaining

-- What is said of the stored token.
pub data TokenState : Type 0 where
  not_set token_expired needs_renew acquired : TokenState

unfoldable pub term_remaining : ℤ → StoredRoleUsage → Remaining
term_remaining now u =
    if ltb_ℤ (pos 0) u.explicit_term
    then (let dur = saturate64 (from_unix u.explicit_term -ℤ now) in
        if ltb_ℤ (pos 0) dur then left dur else exhausted)
    else unlimited

unfoldable pub use_remaining : StoredRoleUsage → Remaining
use_remaining u =
    if ltb_ℤ (pos 0) u.explicit_num_uses
    then if leb_ℤ u.remaining_num_uses (pos 0) then exhausted else left u.remaining_num_uses
    else unlimited

unfoldable pub token_state : ℤ → StoredRoleUsage → TokenState
token_state now u =
    if u.v3_token == ""
    then not_set
    else if v3_token_expired now u
    then token_expired
    else if v3_token_needs_renew now u
    then needs_renew
    else acquired

-- `math.Round(100 * used / granted)` of a positive number of granted uses, rounding half away
-- from zero.
unfoldable pub used_percent : StoredRoleUsage → ℤ
used_percent u =
    let granted = pos_part u.explicit_num_uses in
    let used = sub64 u.explicit_num_uses u.remaining_num_uses in
    if ltb_ℤ used (pos 0)
    then pos 0 -ℤ floor_div (scale 200 (pos 0 -ℤ used) +ℤ pos granted) (2 * granted)
    else floor_div (scale 200 used +ℤ pos granted) (2 * granted)

module _ (env : Env) where
  unfoldable pub show_term_remaining : Remaining → String
  show_term_remaining unlimited = "∞"
  show_term_remaining exhausted = "---EXPIRED---"
  show_term_remaining (left dur) = env.show_duration dur

  unfoldable pub show_use_remaining : StoredRoleUsage → Remaining → String
  unfolding used_percent
  show_use_remaining u unlimited = "∞"
  show_use_remaining u exhausted = "---DEPLETED---"
  show_use_remaining u (left n) =
      env.show_number n <> " times (" <> env.show_number (used_percent u) <> "% used)"

  unfoldable pub show_token_state : TokenState → String
  show_token_state not_set = "---NOT-SET---"
  show_token_state token_expired = "---EXPIRED---"
  show_token_state needs_renew = "---NEEDS-RENEW---"
  show_token_state acquired = "---ACQUIRED---"

  unfoldable pub show_token_life : ℤ → StoredRoleUsage → TokenState → String
  show_token_life now u not_set = "n/a"
  show_token_life now u token_expired =
      "expired on "
      <> env.show_time (from_unix u.v3_token_expiry)
      <> " ("
      <> env.show_duration (saturate64 (now -ℤ from_unix u.v3_token_expiry))
      <> " ago)"
  show_token_life now u _ = env.show_duration (saturate64 (from_unix u.v3_token_expiry -ℤ now))

  unfoldable pub role_description : ℤ → StoredRole → Fields
  unfolding term_remaining use_remaining token_state show_term_remaining show_use_remaining
      show_token_state show_token_life
  role_description now role =
      let u = role.usage in
      field "v2_capable" (truth (is_v2_capable role.keys)) (
        field "v3_capable" (truth (is_v3_capable role.keys)) (
          field "qps" (number role.keys.max_qps) (
            field "term"
              (text (
                if ltb_ℤ (pos 0) u.explicit_term
                then env.show_time (from_unix u.explicit_term)
                else "∞"))
              (field "term_remaining" (text (show_term_remaining (term_remaining now u))) (
                field "use_remaining" (text (show_use_remaining u (use_remaining u))) (
                  field "exportable" (truth role.keys.exportable) (
                    field "forced_proxy_mode" (truth role.keys.force_proxy_mode) (
                      field "v3_token" (text (show_token_state (token_state now u))) (
                        field "v3_token_life" (text (show_token_life now u (token_state now u)))
                          end)))))))))

-- The readings of the clock within this step are taken as one.
module _ {env : Env} {H : Type 0} ⦃rc : RoleContext H⦄ where
  unfoldable pub render_role : Step env H (Unit {0})
  unfolding role_description
  render_role = do
    role ← get_role
    now ← read_clock
    stop (
        answer (record {
          body = role_description env now role;
          lease = none;
          warnings = [];
          headers = [];
        }))
