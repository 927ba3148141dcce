-- ===== src/Core/Fresh.antt =====
-- The handlers that one 'change' event of src/lib/goldstone/lib/core.py creates are different objects.
use mathlib.Core.Path.{subst}
use goldstone_mgmt.Base.{
  Result, err, Exn, ℕ, suc, ◌<◌, ◌≤◌, ◌≡◌, sym, ap, ◌∙◌, List, [], ◌∷◌, inl, inr, Option-cases,
  Bool-cases, ok, arith, nat_eq,
}
use goldstone_mgmt.Base.Exec.{bind-ok, pure}
use goldstone_mgmt.Core.Handlers.{Class, no_op, sub, get_handler}
use goldstone_mgmt.Core.{
  Subclass, Change, Handler, base_handler, object, make, init_handler, validate, prepare,
  is_deleted,
}
use goldstone_mgmt.Core.Contract.{Contract}

ok_same : {A : Type 0} {a b : A} → ◌≡◌ {A = Result A} (ok a) (ok b) → a ≡ b
ok_same h = cc

err_not_ok : {A : Type 0} {a : A} {e : Exn} → ◌≡◌ {A = Result A} (err e) (ok a) → ⊥
err_not_ok h = absurd (cc)

module _ (P : Subclass) {V : Type 0} (view : P.World → V) (contract : Contract P view) where
  -- Addresses from `n` on, each above those before it.
  abbrev pub IsFrom : ℕ → List (Handler P) → Type 0
  IsFrom n [] = Unit {0}
  IsFrom n (base_handler ∷ hs) = IsFrom n hs
  IsFrom n (object o ∷ hs) = (n ≤ contract.address o) × IsFrom (suc (contract.address o)) hs

  -- Addresses below `n`, each below those before it.
  abbrev pub IsBelow : ℕ → List (Handler P) → Type 0
  IsBelow n [] = Unit {0}
  IsBelow n (base_handler ∷ hs) = IsBelow n hs
  IsBelow n (object o ∷ hs) = (contract.address o < n) × IsBelow (contract.address o) hs

  IsFrom-mono : (n m : ℕ) (hs : List (Handler P)) → n ≤ m → IsFrom m hs → IsFrom n hs
  IsFrom-mono n m [] le h = tt
  IsFrom-mono n m (base_handler ∷ hs) le h = IsFrom-mono n m hs le h
  IsFrom-mono n m (object o ∷ hs) le h = (omega (arith, le, h.0), h.1)

  pub IsBelow-mono : (n m : ℕ) (hs : List (Handler P)) → n ≤ m → IsBelow n hs → IsBelow m hs
  IsBelow-mono n m [] le h = tt
  IsBelow-mono n m (base_handler ∷ hs) le h = IsBelow-mono n m hs le h
  IsBelow-mono n m (object o ∷ hs) le h = (omega (arith, le, h.0), h.1)

  init_next :
      (h : Handler P) (u : P.User) (w : P.World)
      → contract.next w ≤ contract.next (init_handler P h u w).1
  unfolding init_handler
  init_next base_handler u w = omega arith
  init_next (object o) u w = contract.init_next o u w

  validate_next :
      (h : Handler P) (u : P.User) (w : P.World)
      → contract.next w ≤ contract.next (validate P h u w).1
  unfolding validate
  validate_next base_handler u w = omega arith
  validate_next (object o) u w = contract.validate_next o u w

  -- A made handler stands before the handlers that are made later.
  make-IsFrom :
      (k : Class P.HandlerClass) (c : Change P.Value) (w : P.World) (h : Handler P) (n : ℕ)
      (hs : List (Handler P))
      → (make P k c w).0 ≡ ok h
      → contract.next (make P k c w).1 ≤ n
      → IsFrom n hs
      → IsFrom (contract.next w) (h ∷ hs)
  unfolding make
  make-IsFrom no_op c w h n hs e le f =
      let same : base_handler ≡ h = ok_same e in
      subst (λ x. IsFrom (contract.next w) (x ∷ hs)) same (IsFrom-mono (contract.next w) n hs le f)
  make-IsFrom (sub k) c w h n hs e le f =
      let (o, made, p) = bind-ok (P.create k c) (λ o. pure (object o)) w h e in
      let last = sym (ap (λ r. r.0) p) ∙ e in
      let same : object o ≡ h = ok_same last in
      let moved = ap (λ r. contract.next r.1) p in
      let fresh = contract.create_fresh k c w o made in
      subst (λ x. IsFrom (contract.next w) (x ∷ hs)) same
        (fresh.0, IsFrom-mono (suc (contract.address o)) n hs (omega (arith, fresh.1, moved, le)) f)

  pub prepare-IsFrom :
      (cs : List (Change P.Value)) (u : P.User) (w : P.World) (hs : List (Handler P))
      → (prepare P cs u w).0 ≡ ok hs
      → IsFrom (contract.next w) hs
  unfolding prepare
  prepare-IsFrom [] u w hs e =
      let same : [] ≡ hs = ok_same e in subst (λ l. IsFrom (contract.next w) l) same tt
  prepare-IsFrom (c ∷ cs) u w hs e =
      elim (Option-cases (get_handler P.handlers (P.xpath_split c.xpath))) [
        | inl none_there ↦ elim (Bool-cases (is_deleted c.type)) [
          | inl del ↦ prepare-IsFrom cs u w hs (rw (none_there, prepare, del) at e)
          | inr other ↦ absurd (err_not_ok (rw (none_there, prepare, other) at e))
        ]
        | inr (k, there) ↦
            let e0 = rw (there, prepare) at e in
            let (h, e1, p1) = bind-ok (make P k c) _ w hs e0 in
            let w1 = (make P k c w).1 in
            let f1 = sym (ap (λ r. r.0) p1) ∙ e0 in
            let (_, e2, p2) = bind-ok (init_handler P h u) _ w1 hs f1 in
            let w2 = (init_handler P h u w1).1 in
            let f2 = sym (ap (λ r. r.0) p2) ∙ f1 in
            let (_, e3, p3) = bind-ok (validate P h u) _ w2 hs f2 in
            let w3 = (validate P h u w2).1 in
            let f3 = sym (ap (λ r. r.0) p3) ∙ f2 in
            let (rest, e4, p4) = bind-ok (prepare P cs u) _ w3 hs f3 in
            let last = sym (ap (λ r. r.0) p4) ∙ f3 in
            let same : h ∷ rest ≡ hs = ok_same last in
            subst (λ l. IsFrom (contract.next w) l) same
              (make-IsFrom k c w h (contract.next w3) rest e1
                (omega (arith, init_next h u w1, validate_next h u w2))
                (prepare-IsFrom cs u w3 rest e4))
      ]
