-- ===== src/Base/Triple.antt =====
-- What a call that may raise leaves: one condition where it returns, another where it raises.
use mathlib.Core.Path.{◌≡◌, refl, sym, ap, subst, ◌∙◌}
use mathlib.Core.Logic.{inl, inr}
use mathlib.Core.Bool.{Bool, true, false}
use goldstone_mgmt.Base.Tests.{if◌then◌else◌}
use goldstone_mgmt.Base.Results.{Result, ok, err, Result-cases}
use goldstone_mgmt.Base.Exec.{Exec, bind-ok, pure, lift, ◌>>=◌}

module _ {S : Type 0} {A : Type 0} where
  abbrev pub After : (A → S → Type 0) → (S → Type 0) → Result A → S → Type 0
  After Q X (ok a) s = Q a s
  After Q X (err e) s = X s

  pub record Triple (P : S → Type 0) (m : Exec S A) (Q : A → S → Type 0) (X : S → Type 0)
      : Type 0 where
    pub at : (s : S) → P s → After Q X (m s).0 (m s).1

  pub Triple-pure : {Q : A → S → Type 0} {X : S → Type 0} (a : A) → Triple (Q a) (pure a) Q X
  Triple-pure a = record { at = λ s h. h }

module _ {S A B : Type 0} where
  pub Triple-bind :
      {P : S → Type 0} {m : Exec S A} {Q : A → S → Type 0} {X : S → Type 0} {f : A → Exec S B}
      {R : B → S → Type 0}
      → Triple P m Q X
      → ((a : A) → Triple (Q a) (f a) R X)
      → Triple P (m >>= f) R X
  Triple-bind {m} {f} h k = record {
    at = λ s p. elim (Result-cases (m s).0) [
      | inl (a, e) ↦ let q = h.at s p in rw e ((k a).at (m s).1 (rw e at q))
      | inr (c, e) ↦ let q = h.at s p in rw e (rw e at q)
    ];
  }

-- A call leaves what `view` shows of the state alone, whether it returns or raises.
pub record Keeps {ℓ κ μ} {S : Type ℓ} {V : Type κ} {A : Type μ} (view : S → V) (m : Exec S A)
    : Type (ℓ ⊔ κ) where
  pub at : (s : S) → view (m s).1 ≡ view s

module _ {ℓ κ} {S : Type ℓ} {V : Type κ} {view : S → V} where
  pub Keeps-lift {μ} : {A : Type μ} (r : Result A) → Keeps view (lift r)
  Keeps-lift r = record { at = λ s. refl }

  pub Keeps-bind {μ ν} :
      {A : Type μ} {B : Type ν} {m : Exec S A} {f : A → Exec S B}
      → Keeps view m
      → ((a : A) → Keeps view (f a))
      → Keeps view (m >>= f)
  Keeps-bind {m} {f} h k = record {
    at = λ s. elim (Result-cases (m s).0) [
      | inl (a, e) ↦ rw e ((k a).at (m s).1 ∙ h.at s)
      | inr (c, e) ↦ rw e (h.at s)
    ];
  }

  pub Keeps-if {μ} :
      {A : Type μ} (b : Bool) {m n : Exec S A}
      → Keeps view m
      → Keeps view n
      → Keeps view (if b then m else n)
  Keeps-if true h k = h
  Keeps-if false h k = k

-- What a call returns meets a condition, wherever it returns.
pub record Returns {S A : Type 0} (Q : A → Type 0) (m : Exec S A) : Type 0 where
  pub at : (s : S) (a : A) → (m s).0 ≡ ok a → Q a

module _ {S A : Type 0} {Q : A → Type 0} where
  pub Returns-pure : (a : A) → Q a → Returns {S = S} Q (pure a)
  Returns-pure a q = record { at = λ s b h. let same : a ≡ b = cc in subst Q same q }

  pub Returns-bind :
      {B : Type 0} (m : Exec S B) {f : B → Exec S A}
      → ((b : B) → Returns Q (f b))
      → Returns Q (m >>= f)
  Returns-bind m {f} k = record {
    at = λ s a h.
        let (b, e, p) = bind-ok m f s a h in (k b).at (m s).1 a (sym (ap (λ r. r.0) p) ∙ h);
  }
