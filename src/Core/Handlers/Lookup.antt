-- ===== src/Core/Handlers/Lookup.antt =====
-- What `get_handler` of src/lib/goldstone/lib/core.py depends on.
use goldstone_mgmt.Base.{
  Option, none, some, List, [], ◌∷◌, ◌++◌, ◌≡◌, refl, ◌∙◌, ap, inl, inr, Option-cases,
}
use goldstone_mgmt.Base.Text.{Text}
use goldstone_mgmt.Core.Handlers.{
  XpathStep, Class, no_op, sub, leaf, node, Branches, child, get_handler,
}

abbrev pub names : List XpathStep → List Text
names [] = []
names (x ∷ xs) = x.name ∷ names xs

-- A step further down decides nothing once a class or a missing entry was met.
abbrev pub IsFinal : {C : Type 0} → Option (Class C) → Type 0
IsFinal none = Unit {0}
IsFinal (some no_op) = ⊥
IsFinal (some (sub c)) = Unit {0}

module _ {C : Type 0} where
  -- Two paths with the same names have the same handler, whatever their prefixes and list keys.
  pub get_handler-names :
      (b : Branches C) (xs ys : List XpathStep)
      → names xs ≡ names ys
      → get_handler b xs ≡ get_handler b ys
  unfolding get_handler
  get_handler-names b [] [] h = refl
  get_handler-names b [] (y ∷ ys) h = cc
  get_handler-names b (x ∷ xs) [] h = cc
  get_handler-names b (x ∷ xs) (y ∷ ys) h =
      let same : x.name ≡ y.name = cc in
      let rest : names xs ≡ names ys = cc in
      elim (Option-cases (child b y.name)) [
        | inl e ↦ rw (e, ap (child b) same ∙ e, get_handler)
        | inr (leaf c, e) ↦ rw (e, ap (child b) same ∙ e, get_handler)
        | inr (node b', e) ↦
            rw (e, ap (child b) same ∙ e, get_handler) (get_handler-names b' xs ys rest)
      ]

  -- A handler class that a path meets, and a missing entry, are also the result for every longer
  -- path.
  pub get_handler-append :
      (b : Branches C) (xs ys : List XpathStep)
      → IsFinal (get_handler b xs)
      → get_handler b (xs ++ ys) ≡ get_handler b xs
  unfolding get_handler
  get_handler-append b [] ys h = absurd h
  get_handler-append b (x ∷ xs) ys h = elim (Option-cases (child b x.name)) [
    | inl e ↦ rw (e, get_handler)
    | inr (leaf c, e) ↦ rw (e, get_handler)
    | inr (node b', e) ↦
        rw (e, get_handler) (get_handler-append b' xs ys (rw (e, get_handler) at h))
  ]
