-- ===== src/Plugin/Idle.antt =====
-- Which clients `Housekeeping` of mashery/plugin.go keeps.
use hcvault_mashery_api_auth.Prelude.{
  ℕ, ◌*◌, ℤ, pos, negsuc, ◌-ℤ◌, ◌≤ℤ◌, ltb_ℤ, IsInt64, wrap64_of_IsInt64, String, ◌≡◌, refl, sym,
  ◌∙◌, subst, ◌↔◌, Bool, true, false, List, [], ◌∷◌, arith, if◌then◌else◌,
}
use mathlib.Core.List.{Memᴰ}
use mathlib.Core.List.Memᴰ.{head, tail}
use hcvault_mashery_api_auth.Time.{add64}
use hcvault_mashery_api_auth.Env.{Env, V3Client, V2Client}
use hcvault_mashery_api_auth.Plugin.{AuthPlugin, Cached, drop_idle, housekeeping, http_idle}

-- Fifteen minutes, in nanoseconds.
abbrev pub fifteen_minutes : ℕ
fifteen_minutes = 15 * 60 * 1000000000

-- What is in a cache after housekeeping: what was in it, and was last used in the fifteen minutes
-- before this time.
abbrev pub IsRecent : {C : Type 0} → ℤ → List (String × Cached C) → String × Cached C → Type 0
IsRecent now clients kc = Memᴰ kc clients × ((now -ℤ pos fifteen_minutes) ≤ℤ kc.1.last_used)

cutover_lem :
    (now : ℤ) → pos 0 ≤ℤ now → IsInt64 now → add64 now http_idle ≡ now -ℤ pos fifteen_minutes
unfolding add64 ◌-ℤ◌
cutover_lem (pos n) p i = wrap64_of_IsInt64 _ (ground arith) ∙ ground arith
cutover_lem (negsuc n) p i = absurd (omega arith)

module _ {C : Type 0} (cutover : ℤ) where
  abbrev swept : Bool → String × Cached C → List (String × Cached C) → List (String × Cached C)
  swept idle kc kept = if idle then kept else kc ∷ kept

  kept_is_fresh :
      (l : List (String × Cached C)) (x : String × Cached C)
      → Memᴰ x (drop_idle cutover l)
      → Memᴰ x l × (cutover ≤ℤ x.1.last_used)
  unfolding drop_idle
  kept_is_fresh [] x m = elim m [ ]
  kept_is_fresh (kc ∷ rest) x m =
      by_age (ltb_ℤ kc.1.last_used cutover) refl (kept_is_fresh rest x) m
    where
      by_age :
          (idle : Bool)
          → ltb_ℤ kc.1.last_used cutover ≡ idle
          → (Memᴰ x (drop_idle cutover rest) → Memᴰ x rest × (cutover ≤ℤ x.1.last_used))
          → Memᴰ x (swept idle kc (drop_idle cutover rest))
          → Memᴰ x (kc ∷ rest) × (cutover ≤ℤ x.1.last_used)
      by_age true e ih n = let (found, fresh) = ih n in (tail found, fresh)
      by_age false e ih (head q) = (
        head q,
        subst (λ (y : String × Cached C). cutover ≤ℤ y.1.last_used) (sym q) (ground arith),
      )
      by_age false e ih (tail n) = let (found, fresh) = ih n in (tail found, fresh)

  fresh_is_kept :
      (l : List (String × Cached C)) (x : String × Cached C)
      → Memᴰ x l
      → cutover ≤ℤ x.1.last_used
      → Memᴰ x (drop_idle cutover l)
  unfolding drop_idle
  fresh_is_kept [] x m f = elim m [ ]
  fresh_is_kept (kc ∷ rest) x m f =
      by_age (ltb_ℤ kc.1.last_used cutover) refl (fresh_is_kept rest x) m
    where
      by_age :
          (idle : Bool)
          → ltb_ℤ kc.1.last_used cutover ≡ idle
          → (Memᴰ x rest → cutover ≤ℤ x.1.last_used → Memᴰ x (drop_idle cutover rest))
          → Memᴰ x (kc ∷ rest)
          → Memᴰ x (swept idle kc (drop_idle cutover rest))
      by_age true e ih (head q) =
          let g = subst (λ (y : String × Cached C). cutover ≤ℤ y.1.last_used) q f in
          absurd (ground arith)
      by_age true e ih (tail n) = ih n f
      by_age false e ih (head q) = head q
      by_age false e ih (tail n) = tail (ih n f)

module _ {C : Type 0} where
  drop_idle-IsRecent :
      (now : ℤ) (l : List (String × Cached C)) (x : String × Cached C)
      → pos 0 ≤ℤ now
      → IsInt64 now
      → Memᴰ x (drop_idle (add64 now http_idle) l) ↔ IsRecent now l x
  drop_idle-IsRecent now l x p i =
      subst (λ c. Memᴰ x (drop_idle c l) ↔ IsRecent now l x) (sym (cutover_lem now p i))
        (
          kept_is_fresh (now -ℤ pos fifteen_minutes) l x,
          λ m. fresh_is_kept (now -ℤ pos fifteen_minutes) l x m.0 m.1,
        )

-- At a time that an int64 of nanoseconds holds, counted from the epoch: housekeeping leaves in the
-- caches, of the V3 clients and of the V2 clients alike, exactly those clients that were there and
-- whose recorded last use is at most fifteen minutes before that time.
pub housekeeping_lem :
    (env : Env) (now : ℤ) (b : AuthPlugin) (x : String × Cached V3Client)
    (y : String × Cached V2Client)
    → pos 0 ≤ℤ now
    → IsInt64 now
    → (Memᴰ x (housekeeping env now b).v3_clients ↔ IsRecent now b.v3_clients x)
      × (Memᴰ y (housekeeping env now b).v2_clients ↔ IsRecent now b.v2_clients y)
unfolding housekeeping
housekeeping_lem env now b x y p i =
    (drop_idle-IsRecent now b.v3_clients x p i, drop_idle-IsRecent now b.v2_clients y p i)
