-- ===== src/Grant/Quota.antt =====
-- The quota of a role: how many grants it can pay for, whatever happens between them.
use hcvault_mashery_api_auth.Prelude.{
  ℕ, zero, suc, ◌+◌, ◌≤◌, ℤ, IsInt64, String, ◌≡◌, sym, ap, ◌∙◌, subst, inl, inr, Bool, true, false,
  Option, none, some, arith,
}
use hcvault_mashery_api_auth.Value.{Fields, answer, Payload, Result, good, bad}
use hcvault_mashery_api_auth.Exec.{respond}
use hcvault_mashery_api_auth.Role.{
  StoredRole, StoredRoleUsage, zero_usage, has_usage_quota, depleted, reduce_remaining_quota,
}
use hcvault_mashery_api_auth.Role.Json.{encode_usage, decode_usage}
use hcvault_mashery_api_auth.Role.RoundTrip.{decode-encode_usage}
use hcvault_mashery_api_auth.Role.Usage.{uses_left, reduce_remaining_quota_lem}
use hcvault_mashery_api_auth.Env.{Env, StorageLaws}
use hcvault_mashery_api_auth.Request.{FieldData, World, storage_path_for_role, read, persist}
use hcvault_mashery_api_auth.Request.Stored.{get-persist}
use hcvault_mashery_api_auth.RoleSteps.{role_usage_path}
use hcvault_mashery_api_auth.Grant.{issue_grant}
use hcvault_mashery_api_auth.Grant.Sound.{Granted, Paid, issue_grant-Granted}

-- A run in which the role at this path is granted this many times. Between the grants anything may
-- happen that keeps the stored usage of the role.
pub data Grants (env : Env) (path : String) : ℕ → World env → Type 0 where
  finished : (w : World env) → Grants env path 0 w
  grant :
      {n : ℕ} (d : FieldData) (body : Option Fields) (w w' : World env) (p : Payload)
      → storage_path_for_role env w.plugin d ≡ some path
      → issue_grant d body w ≡ (respond (answer p), w')
      → Grants env path n w'
      → Grants env path (suc n) w
  other :
      {n : ℕ} (w w' : World env)
      → env.storage_get (role_usage_path path) w'.store
        ≡ env.storage_get (role_usage_path path) w.store
      → Grants env path n w'
      → Grants env path n w

usage_of : Result (Bool × StoredRoleUsage) → StoredRoleUsage
usage_of (good x) = x.1
usage_of (bad err) = zero_usage

pub path_of : {p q : String} → some p ≡ some q → p ≡ q
path_of e = ground arith

-- A use of a role with a quota that is not depleted.
one_use :
    (u : StoredRoleUsage)
    → has_usage_quota u ≡ true
    → IsInt64 u.remaining_num_uses
    → depleted u ≡ false
    → (uses_left (reduce_remaining_quota u) + 1 ≡ uses_left u)
      × (has_usage_quota (reduce_remaining_quota u) ≡ true)
      × IsInt64 (reduce_remaining_quota u).remaining_num_uses
unfolding has_usage_quota depleted
one_use u q i h =
    let (less, same) = reduce_remaining_quota_lem u i (ground arith) in
    (
      less,
      subst (λ x. has_usage_quota x ≡ true) (sym same) q,
      subst (λ x. IsInt64 x.remaining_num_uses) (sym same) (ground arith),
    )

module _ {env : Env} (laws : StorageLaws env) (path : String) where
  -- The usage of the role as the storage has it.
  abbrev pub HasUsage : env.Store → StoredRoleUsage → Type 0
  HasUsage s u = read env decode_usage (role_usage_path path) zero_usage s ≡ good (true, u)

  pub same_usage : (u v : StoredRoleUsage) (s : env.Store) → HasUsage s u → HasUsage s v → v ≡ u
  unfolding usage_of
  same_usage u v s h k = ap usage_of (sym k ∙ h)

  pub kept :
      (s s' : env.Store) (u : StoredRoleUsage)
      → env.storage_get (role_usage_path path) s' ≡ env.storage_get (role_usage_path path) s
      → HasUsage s u
      → HasUsage s' u
  unfolding read
  kept s s' u e h = ground (arith)

  pub written_back :
      (u : StoredRoleUsage) (s s' : env.Store)
      → persist env (role_usage_path path) (encode_usage u) s ≡ (none, s')
      → HasUsage s' u
  unfolding read
  written_back u s s' e =
      let found = get-persist laws (role_usage_path path) (encode_usage u) s s' e in
      ground (arith, found, decode-encode_usage u)

  Paid-HasUsage :
      (role : StoredRole) (s s' : env.Store)
      → Paid env path role s s'
      → has_usage_quota role.usage ≡ true
      → HasUsage s' (reduce_remaining_quota role.usage)
  Paid-HasUsage role s s' (inl (free, _)) q = absurd (ground arith)
  Paid-HasUsage role s s' (inr (_, stored)) q =
      written_back (reduce_remaining_quota role.usage) s s' stored

  -- What a grant does to the stored usage of a role with a quota.
  pub after_grant :
      (v : ℤ) (w w' : World env) (u : StoredRoleUsage)
      → Granted v path w w'
      → HasUsage w.store u
      → has_usage_quota u ≡ true
      → IsInt64 u.remaining_num_uses
      → HasUsage w'.store (reduce_remaining_quota u)
        × ((uses_left (reduce_remaining_quota u) + 1 ≡ uses_left u)
            × (has_usage_quota (reduce_remaining_quota u) ≡ true)
            × IsInt64 (reduce_remaining_quota u).remaining_num_uses)
  after_grant v w w' u g has q i =
      let same = same_usage u g.role.usage w.store has g.stored.usage_stored in
      (
        subst (λ x. HasUsage w'.store (reduce_remaining_quota x)) same
            (Paid-HasUsage g.role w.store w'.store g.paid
              (subst (λ x. has_usage_quota x ≡ true) (sym same) q)),
        one_use u q i (subst (λ x. depleted x ≡ false) same g.has_uses),
      )

  -- With a storage that does what it documents: a role whose stored usage has a quota is granted at
  -- most as many times as it has uses left, in any sequence of requests between whose grants the
  -- stored usage is kept.
  pub Grants-le :
      (n : ℕ) (w : World env) (u : StoredRoleUsage)
      → Grants env path n w
      → HasUsage w.store u
      → has_usage_quota u ≡ true
      → IsInt64 u.remaining_num_uses
      → n ≤ uses_left u
  Grants-le zero w u (finished _) has q i = omega arith
  Grants-le n w u (other _ w' same rest) has q i =
      Grants-le n w' u rest (kept w.store w'.store u same has) q i
  Grants-le (suc n) w u (grant d body _ w' p named answered rest) has q i =
      let (g, _, (path', found, at_path)) = issue_grant-Granted d body w w' p answered in
      let here = path_of (sym found ∙ named) in
      let (h, (less, q', i')) =
        after_grant g.api_version w w' u (subst (λ x. Granted g.api_version x w w') here at_path)
          has q i in
      let bound = Grants-le n w' (reduce_remaining_quota u) rest h q' i' in omega arith
