-- ===== src/Exec/Laws.antt =====
-- Laws of sequencing, and how to read a run of a sequence backwards.
use hcvault_mashery_api_auth.Prelude.{◌≡◌, refl, ap, fun_ext, arith}
use hcvault_mashery_api_auth.Exec.{Exit, ok, respond, fail, panic, Exec, continue, ◌>>=◌}

module _ {ℓ} {S A B C : Type ℓ} where
  continue-continue :
      (next : A → Exec S B) (last : B → Exec S C) (x : Exit A) (s : S)
      → (continue x next >>= last) s ≡ continue x (λ a. next a >>= last) s
  continue-continue next last (ok a) s = refl
  continue-continue next last (respond r) s = refl
  continue-continue next last (fail e) s = refl
  continue-continue next last panic s = refl

  pub bind_assoc :
      (step : Exec S A) (next : A → Exec S B) (last : B → Exec S C)
      → (step >>= next >>= last) ≡ (step >>= λ a. next a >>= last)
  bind_assoc step next last = fun_ext λ s. continue-continue next last (step s).0 (step s).1

module _ {ℓ} {S A B : Type ℓ} where
  -- After a part that went on, a sequence is its second part.
  pub bind-of_ok :
      (m : Exec S A) (f : A → Exec S B) (s t : S) (a : A) → m s ≡ (ok a, t) → (m >>= f) s ≡ f a t
  bind-of_ok m f s t a e = ap (λ x. continue x.0 f x.1) e

  -- A sequence that goes on has gone on through both of its parts.
  pub bind-eq-ok :
      (m : Exec S A) (f : A → Exec S B) (s : S) {b : B} {t : S}
      → (m >>= f) s ≡ (ok b, t)
      → (a : A) × ((u : S) × (m s ≡ (ok a, u)) × (f a u ≡ (ok b, t)))
  bind-eq-ok m f s e = split (m s) e
    where
      split :
          {b : B} {t : S} (x : Exit A × S)
          → continue x.0 f x.1 ≡ (ok b, t)
          → (a : A) × ((u : S) × (x ≡ (ok a, u)) × (f a u ≡ (ok b, t)))
      split (ok a, u) e = (a, (u, refl, e))
      split (respond r, u) e = absurd (ground arith)
      split (fail r, u) e = absurd (ground arith)
      split (panic, u) e = absurd (ground arith)
