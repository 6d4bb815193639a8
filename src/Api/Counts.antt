-- ===== src/Api/Counts.antt =====
-- How often the rounds of the fetch loop call the API.
use hcvault_mashery_api_auth.Prelude.{
  ℕ, zero, suc, ◌+◌, ◌≤◌, String, ◌≡◌, refl, ap, Bool, true, false, arith, eqb, if◌then◌else◌,
}
use hcvault_mashery_api_auth.Value.{Result, good, bad}
use hcvault_mashery_api_auth.Exec.{Exit, ok, respond, fail, panic, continue, pure, ◌>>=◌}
use hcvault_mashery_api_auth.Role.{StoredRole}
use hcvault_mashery_api_auth.Env.{Env, HttpResponse, V3Client}
use hcvault_mashery_api_auth.Plugin.{get_mashery_v3_client}
use hcvault_mashery_api_auth.Request.{Req, Step}
use hcvault_mashery_api_auth.RoleSteps.{get_role}
use hcvault_mashery_api_auth.Api.{
  ApiContainer, api_container, FetchFunction, try, after_response, attempt, refreshed, do_fetch,
  is_inactive, denied,
}

-- `calls` reads off the API how often it was called.
module _ {env : Env} (calls : env.Remote → ℕ) where
  abbrev called : Req env ApiContainer → ℕ
  called r = calls r.world.remote

  -- The action calls the API at most `n` times, however it ends.
  pub record IsAtMost {A : Type 0} (n : ℕ) (m : Step env ApiContainer A) : Type 0 where
    pub at : (r : Req env ApiContainer) → called (m r).1 ≤ called r + n

  -- A fetch function that calls the API at most `c` times.
  abbrev pub IsCosting : ℕ → FetchFunction env → Type 0
  IsCosting c f = (client : V3Client) (token : String) → IsAtMost c (f client token)

-- What this many rounds cost.
abbrev pub total : ℕ → ℕ → ℕ
total zero c = 0
total (suc rounds) c = c + total rounds c

module _ {env : Env} {calls : env.Remote → ℕ} where
  pub bind-IsAtMost :
      {A B : Type 0} (k n t : ℕ) (m : Step env ApiContainer A) (f : A → Step env ApiContainer B)
      → k + n ≤ t
      → IsAtMost {env = env} calls k m
      → ((a : A) → IsAtMost {env = env} calls n (f a))
      → IsAtMost {env = env} calls t (m >>= f)
  bind-IsAtMost {A} {B} k n t m f le hm hf = record { at = λ r. split r (m r) (hm.at r) }
    where
      split :
          (r : Req env ApiContainer) (x : Exit A × Req env ApiContainer)
          → called calls x.1 ≤ called calls r + k
          → called calls (continue x.0 f x.1).1 ≤ called calls r + t
      split r (ok a, s) h = let last = (hf a).at s in omega arith
      split r (respond lr, s) h = omega arith
      split r (fail err, s) h = omega arith
      split r (panic, s) h = omega arith

  pub if-IsAtMost :
      {A : Type 0} (n : ℕ) (b : Bool) (l m : Step env ApiContainer A)
      → IsAtMost {env = env} calls n l
      → IsAtMost {env = env} calls n m
      → IsAtMost {env = env} calls n (if b then l else m)
  if-IsAtMost n true l m hl hm = hl
  if-IsAtMost n false l m hl hm = hm

  pub none-IsAtMost :
      {A : Type 0} (n : ℕ) (m : Step env ApiContainer A)
      → ((r : Req env ApiContainer) → (m r).1.world.remote ≡ r.world.remote)
      → IsAtMost {env = env} calls n m
  none-IsAtMost n m same = record { at = λ r. let e = ap calls (same r) in omega arith }

  try-IsAtMost :
      {A : Type 0} (n : ℕ) (m : Step env ApiContainer A)
      → IsAtMost {env = env} calls n m
      → IsAtMost {env = env} calls n (try m)
  try-IsAtMost {A} n m k = record { at = λ r. split r (m r) (k.at r) }
    where
      tried : Exit A × Req env ApiContainer → Exit (Result A) × Req env ApiContainer
      tried (x, s') = elim x [
        | ok a ↦ (ok (good a), s')
        | respond lr ↦ (respond lr, s')
        | fail e ↦ (ok (bad e), s')
        | panic ↦ (panic, s')
      ]

      split :
          (r : Req env ApiContainer) (x : Exit A × Req env ApiContainer)
          → called calls x.1 ≤ called calls r + n
          → called calls (tried x).1 ≤ called calls r + n
      split r (ok a, s) h = h
      split r (respond lr, s) h = h
      split r (fail e, s) h = h
      split r (panic, s) h = h

  get_role-IsAtMost : IsAtMost {env = env} calls 0 (get_role {env = env})
  get_role-IsAtMost = none-IsAtMost 0 get_role (λ r. ground arith)

  after_response-IsAtMost :
      (n : ℕ) (retry : Step env ApiContainer (Result HttpResponse)) (x : Result HttpResponse)
      → IsAtMost {env = env} calls n retry
      → IsAtMost {env = env} calls n (after_response retry x)
  unfolding after_response
  after_response-IsAtMost n retry (bad err) k = none-IsAtMost n (pure (bad err)) (λ r. refl)
  after_response-IsAtMost n retry (good resp) k =
      if-IsAtMost n (eqb resp.status_code 403) _ _
        (if-IsAtMost n (is_inactive resp) _ _
          (bind-IsAtMost 0 n n get_role _ (omega arith) get_role-IsAtMost
            (λ role. record { at = λ r. k.at _ }))
          (none-IsAtMost n (pure (bad denied)) (λ r. refl)))
        (none-IsAtMost n (pure (good resp)) (λ r. refl))

  attempt-IsAtMost :
      (c n : ℕ) (f : FetchFunction env) (retry : Step env ApiContainer (Result HttpResponse))
      → IsCosting {env = env} calls c f
      → IsAtMost {env = env} calls n retry
      → IsAtMost {env = env} calls (c + n) (attempt f retry)
  unfolding attempt
  attempt-IsAtMost c n f retry kf k =
      bind-IsAtMost 0 (c + n) (c + n) get_role _ (omega arith) get_role-IsAtMost (λ role. record {
        at = λ r.
            let now = env.now r.world.ticks in
            (called_once role (get_mashery_v3_client env now role r.world.plugin).0).at (record r {
              world = record (r.world) {
                ticks = suc r.world.ticks;
                plugin = (get_mashery_v3_client env now role r.world.plugin).1;
              };
            });
      })
    where
      called_once :
          (role : StoredRole) (client : V3Client)
          → IsAtMost {env = env} calls
              (c + n)
              (f client role.usage.v3_token >>= after_response retry)
      called_once role client =
          bind-IsAtMost c n (c + n) (f client role.usage.v3_token) (after_response retry)
            (omega arith) (kf client role.usage.v3_token) (λ x. after_response-IsAtMost n retry x k)

  refreshed-IsAtMost :
      (c n : ℕ) (f : FetchFunction env) (retry : Step env ApiContainer (Result HttpResponse))
      → IsCosting {env = env} calls c f
      → IsAtMost {env = env} calls n retry
      → (x : Result (Unit {0})) → IsAtMost {env = env} calls (c + n) (refreshed f retry x)
  refreshed-IsAtMost c n f retry kf k (bad e) = none-IsAtMost (c + n) (pure (bad e)) (λ r. refl)
  refreshed-IsAtMost c n f retry kf k (good u) = attempt-IsAtMost c n f retry kf k

  pub do_fetch-IsAtMost :
      (refresher : Step env ApiContainer (Unit {0})) (f : FetchFunction env) (c rounds : ℕ)
      → IsAtMost {env = env} calls 0 refresher
      → IsCosting {env = env} calls c f
      → IsAtMost {env = env} calls (total rounds c) (do_fetch refresher f rounds)
  unfolding do_fetch
  do_fetch-IsAtMost refresher f c zero kr kf = none-IsAtMost 0 _ (λ r. refl)
  do_fetch-IsAtMost refresher f c (suc n) kr kf =
      bind-IsAtMost 0 (c + total n c) (c + total n c) (try refresher) _ (omega arith)
        (try-IsAtMost 0 refresher kr)
        (refreshed-IsAtMost c (total n c) f (do_fetch refresher f n) kf
          (do_fetch-IsAtMost refresher f c n kr kf))
