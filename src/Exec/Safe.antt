-- ===== src/Exec/Safe.antt =====
-- Code that does not panic, one rule for each way to build an action.
use hcvault_mashery_api_auth.Prelude.{refl, ◌≢◌, Bool, true, false, arith, if◌then◌else◌}
use hcvault_mashery_api_auth.Value.{Response, Err}
use hcvault_mashery_api_auth.Exec.{
  Exit, ok, respond, fail, panic, Exec, continue, pure, stop, throw, ◌>>=◌, ◌>>◌,
}

-- `m` ends in any way but a run-time panic.
pub record IsSafe {ℓ} {S A : Type ℓ} (m : Exec S A) : Type ℓ where
  pub at : (s : S) → (m s).0 ≢ panic

module _ {ℓ} {S A : Type ℓ} where
  pub pure-IsSafe : (a : A) → IsSafe {S = S} (pure a)
  pure-IsSafe a = record { at = λ s e. absurd (ground arith) }

  pub stop-IsSafe : (lr : Response) → IsSafe {S = S} {A = A} (stop lr)
  stop-IsSafe lr = record { at = λ s e. absurd (ground arith) }

  pub throw-IsSafe : (err : Err) → IsSafe {S = S} {A = A} (throw err)
  throw-IsSafe err = record { at = λ s e. absurd (ground arith) }

  pub if-IsSafe : (b : Bool) (m n : Exec S A) → IsSafe m → IsSafe n → IsSafe (if b then m else n)
  if-IsSafe true m n hm hn = hm
  if-IsSafe false m n hm hn = hn

module _ {ℓ} {S A B : Type ℓ} where
  continue-IsSafe :
      (x : Exit A) (f : A → Exec S B) → x ≢ panic → ((a : A) → IsSafe (f a)) → IsSafe (continue x f)
  continue-IsSafe (ok a) f h hf = hf a
  continue-IsSafe (respond lr) f h hf = record { at = λ s e. absurd (ground arith) }
  continue-IsSafe (fail err) f h hf = record { at = λ s e. absurd (ground arith) }
  continue-IsSafe panic f h hf = absurd (h refl)

  pub bind-IsSafe :
      (m : Exec S A) (f : A → Exec S B) → IsSafe m → ((a : A) → IsSafe (f a)) → IsSafe (m >>= f)
  bind-IsSafe m f hm hf = record { at = λ s. (continue-IsSafe (m s).0 f (hm.at s) hf).at (m s).1 }

  infixr 3 ◌then_safe◌
  -- The rule for two actions one after the other.
  pub ◌then_safe◌ : {m : Exec S A} {n : Exec S B} → IsSafe m → IsSafe n → IsSafe (m >> n)
  ◌then_safe◌ {m} {n} hm hn = bind-IsSafe m (λ _. n) hm (λ _. hn)

pub ruleset safe_rules = (pure-IsSafe, stop-IsSafe, throw-IsSafe, if-IsSafe, bind-IsSafe)
