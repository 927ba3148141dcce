-- ===== src/Base/Exec.antt =====
-- Methods that change an object and may raise. What was written before a raise stays written, so
-- the state comes back beside the exception too.
use mathlib.Core.Path.{◌≡◌, refl, fun_ext}
use mathlib.Core.Logic.{inl, inr}
use native.Mathlib.Omega.{arith}
use goldstone_mgmt.Base.Results.{Exn, Result, ok, err, Result-cases}

abbrev pub Exec {ℓ κ} : Type ℓ → Type κ → Type (ℓ ⊔ κ)
Exec S A = S → Result A × S

module _ {ℓ κ} {S : Type ℓ} {A : Type κ} where
  abbrev pub pure : A → Exec S A
  pure a s = (ok a, s)

  abbrev pub raise : Exn → Exec S A
  raise c s = (err c, s)

  abbrev pub lift : Result A → Exec S A
  lift r s = (r, s)

module _ {ℓ κ μ} {S : Type ℓ} {A : Type κ} {B : Type μ} where
  abbrev pub continue : Result A → (A → Exec S B) → Exec S B
  continue (ok a) f s = f a s
  continue (err c) f s = (err c, s)

  infixl 10 ◌>>=◌ ◌>>◌
  abbrev pub ◌>>=◌ : Exec S A → (A → Exec S B) → Exec S B
  ◌>>=◌ m f s = let (r, s') = m s in continue r f s'

  abbrev pub ◌>>◌ : Exec S A → Exec S B → Exec S B
  m >> n = m >>= λ _. n

module _ {ℓ κ μ ν} {S : Type ℓ} {A : Type κ} {B : Type μ} {C : Type ν} where
  continue_assoc :
      (r : Result A) (n : A → Exec S B) (k : B → Exec S C) (s : S)
      → continue r (λ a. n a >>= k) s ≡ (continue r n >>= k) s
  continue_assoc (ok a) n k s = refl
  continue_assoc (err c) n k s = refl

  pub >>=-assoc :
      (m : Exec S A) (n : A → Exec S B) (k : B → Exec S C)
      → (m >>= λ a. n a >>= k) ≡ (m >>= n >>= k)
  >>=-assoc m n k = fun_ext λ s. continue_assoc (m s).0 n k (m s).1

module _ {S : Type 0} {A B : Type 0} where
  -- A chain goes on after a first part that returns.
  pub bind-path :
      (m : Exec S A) (f : A → Exec S B) (s s' : S) (a : A) → m s ≡ (ok a, s') → (m >>= f) s ≡ f a s'
  bind-path m f s s' a h = rw (h, ◌>>=◌) refl

  -- A chain that returns has returned at its first part.
  pub bind-ok :
      (m : Exec S A) (f : A → Exec S B) (s : S) (b : B)
      → ((m >>= f) s).0 ≡ ok b
      → (a : A) × ((m s).0 ≡ ok a) × ((m >>= f) s ≡ f a (m s).1)
  bind-ok m f s b h = elim (Result-cases (m s).0) [
    | inl (a, e) ↦ (a, e, rw e refl)
    | inr (c, e) ↦ absurd (ground (arith, rw e at h))
  ]
