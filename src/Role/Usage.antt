-- ===== src/Role/Usage.antt =====
-- How usage terms behave: quotas, expiry and token renewal.
use hcvault_mashery_api_auth.Prelude.{
  ℕ, ◌+◌, ◌-◌, ◌^◌, ◌≤◌, ◌<◌, ℤ, pos, negsuc, pos_part, ◌-ℤ◌, ◌<ℤ◌, IsInt64, wrap64_of_IsInt64, ◌≡◌,
  ◌∙◌, arith,
}
use hcvault_mashery_api_auth.Time.{sub64}
use hcvault_mashery_api_auth.Role.{StoredRoleUsage, reduce_remaining_quota}

-- The number of uses that are left of a role with a quota.
abbrev pub uses_left : StoredRoleUsage → ℕ
uses_left u = pos_part u.remaining_num_uses

pub sub64_one : (n : ℕ) → n < 2 ^ 63 → 0 < n → sub64 (pos n) (pos 1) ≡ pos (n - 1)
unfolding sub64 ◌-ℤ◌
sub64_one n h k = wrap64_of_IsInt64 _ (ground arith) ∙ ground arith

reduced_count : (r : ℤ) → IsInt64 r → pos 0 <ℤ r → sub64 r (pos 1) ≡ pos (pos_part r - 1)
reduced_count (pos n) h k = sub64_one n (omega arith) (omega arith)
reduced_count (negsuc n) h k = absurd (omega arith)

-- A use of a role with a quota that is not depleted takes away exactly one of the uses that are
-- left, and changes nothing else.
pub reduce_remaining_quota_lem :
    (u : StoredRoleUsage)
    → IsInt64 u.remaining_num_uses
    → pos 0 <ℤ u.remaining_num_uses
    → (uses_left (reduce_remaining_quota u) + 1 ≡ uses_left u)
      × (reduce_remaining_quota u ≡ record u { remaining_num_uses = pos (uses_left u - 1) })
unfolding reduce_remaining_quota
reduce_remaining_quota_lem u h k = ground (arith, reduced_count u.remaining_num_uses h k)

-- Whatever a role's numbers are, `reduce_remaining_quota` never adds uses.
pub reduce_remaining_quota-le :
    (u : StoredRoleUsage)
    → IsInt64 u.remaining_num_uses
    → uses_left (reduce_remaining_quota u) ≤ uses_left u
unfolding reduce_remaining_quota
reduce_remaining_quota-le u h = ground (arith, reduced_count u.remaining_num_uses h)
