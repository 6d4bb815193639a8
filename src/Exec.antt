-- ===== src/Exec.antt =====
-- The effect of a handler step. A Go step returns `(*logical.Response, error)`; no function of the
-- package returns both a response and an error, so a step ends in one of four ways. What was written
-- before a step ended stays written: the state comes back beside every outcome.
pub mod Laws
pub mod Safe
use hcvault_mashery_api_auth.Prelude.{Option, none, some}
use hcvault_mashery_api_auth.Value.{Err, Response, Result, good, bad}

-- `ok` is (nil, nil), and lets the next step run; `respond` is (response, nil); `fail` is
-- (nil, error); `panic` is a run-time panic, such as a nil dereference.
pub data Exit {ℓ} (A : Type ℓ) : Type ℓ where
  ok : A → Exit A
  respond : Response → Exit A
  fail : Err → Exit A
  panic : Exit A

abbrev pub Exec {ℓ} : Type ℓ → Type ℓ → Type ℓ
Exec S A = S → Exit A × S

module _ {ℓ} {S A : Type ℓ} where
  abbrev pub pure : A → Exec S A
  pure a s = (ok a, s)

  abbrev pub stop : Response → Exec S A
  stop r s = (respond r, s)

  abbrev pub throw : Err → Exec S A
  throw e s = (fail e, s)

  abbrev pub crash : Exec S A
  crash s = (panic, s)

  -- `if v, err := ...; err != nil { return nil, err }`
  abbrev pub lift : Result A → Exec S A
  lift (good a) = pure a
  lift (bad e) = throw e

  -- A dereference of a pointer that may be nil.
  abbrev pub deref : Option A → Exec S A
  deref none = crash
  deref (some a) = pure a

module _ {ℓ} {S A B : Type ℓ} where
  abbrev pub continue : Exit A → (A → Exec S B) → Exec S B
  continue (ok a) f s = f a s
  continue (respond r) f s = (respond r, s)
  continue (fail e) f s = (fail e, s)
  continue panic f s = (panic, s)

  infixl 10 ◌>>=◌ ◌>>◌
  abbrev pub ◌>>=◌ : Exec S A → (A → Exec S B) → Exec S B
  ◌>>=◌ step next s = continue (step s).0 next (step s).1

  abbrev pub ◌>>◌ : Exec S A → Exec S B → Exec S B
  step >> next = step >>= λ _. next
