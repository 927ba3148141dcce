-- ===== src/Telemetry/Path/Leaves.antt =====
-- `_get_leaves` of src/system/telemetry/goldstone/system/telemetry/path.py against the leaves that
-- the data has.
use goldstone_mgmt.Base.{
  ◌≡◌, ◌⊎◌, inl, inr, true, false, some, ◌∷◌, ◌++◌, ok, Result-cases, Bool-cases, ◌==◌, text_eq,
  arith, ==_iff,
}
use goldstone_mgmt.Base.Dict
use goldstone_mgmt.Base.Dict.{get-put}
use mathlib.Core.Path.{subst₂}
use goldstone_mgmt.Base.Exec.{Exec, ◌>>=◌}
use goldstone_mgmt.Base.Text.{Text}
use goldstone_mgmt.Telemetry.Path.{
  Schema, Leaves, path_with_keys, assign, get_leaves, get_leaves_items, get_leaves_fields,
}
use goldstone_mgmt.Telemetry.Path.Values.{
  Value, Items, Fields, scalar, arr, obj, nil, cons, end, field, has_dict,
}

module _ {S : Type 0} (P : Schema S) where
  -- The value at `path` has the leaf `l` at `q`: a scalar, or a list without a dict in it.
  mutual
    pub data LeafAt : Value S → Text → Text → Value S → Type 0 where
      here_scalar : {v : S} {path : Text} → LeafAt (scalar v) path path (scalar v)
      here_list :
          {xs : Items S} {path : Text} → has_dict xs ≡ false → LeafAt (arr xs) path path (arr xs)
      in_dict :
          {fs : Fields S} {path q : Text} {l : Value S}
          → FieldAt fs path q l
          → LeafAt (obj fs) path q l
      in_list :
          {xs : Items S} {path q : Text} {l : Value S}
          → has_dict xs ≡ true
          → ItemAt xs path q l
          → LeafAt (arr xs) path q l

    pub data FieldAt : Fields S → Text → Text → Value S → Type 0 where
      this_field :
          {k : Text} {v l : Value S} {fs : Fields S} {path q : Text}
          → LeafAt v (path ++ b'/' ∷ k) q l
          → FieldAt (field k v fs) path q l
      later_field :
          {k : Text} {v l : Value S} {fs : Fields S} {path q : Text}
          → FieldAt fs path q l
          → FieldAt (field k v fs) path q l

    pub data ItemAt : Items S → Text → Text → Value S → Type 0 where
      this_item :
          {x l : Value S} {xs : Items S} {path next q : Text}
          → path_with_keys P x path ≡ ok next
          → LeafAt x next q l
          → ItemAt (cons x xs) path q l
      later_item :
          {x l : Value S} {xs : Items S} {path q : Text}
          → ItemAt xs path q l
          → ItemAt (cons x xs) path q l

  -- Every entry of the leaves was there before or is a leaf of the value.
  abbrev pub IsSound : (Text → Value S → Type 0) → Leaves S → Leaves S → Type 0
  IsSound at before after =
      (q : Text) (l : Value S) → Dict.get after q ≡ some l → (Dict.get before q ≡ some l) ⊎ at q l

  assign-IsSound :
      (path : Text) (v : Value S) (at : Text → Value S → Type 0) (before : Leaves S)
      → at path v
      → IsSound at before (assign path v before).1
  unfolding assign
  assign-IsSound path v at before h q l e = elim (Bool-cases (path == q)) [
    | inl same ↦
        inr (subst₂ at ((==_iff path q).0 same) (ground (arith, get-put before path q v)) h)
    | inr other ↦ inl (ground (arith, get-put before path q v))
  ]

  IsSound-bind :
      (A B : Text → Value S → Type 0) {C : Type 0} (m : Exec (Leaves S) C)
      (n : C → Exec (Leaves S) (Unit {0})) (before : Leaves S)
      → IsSound A before (m before).1
      → ((c : C) → (m before).0 ≡ ok c → IsSound B (m before).1 (n c (m before).1).1)
      → IsSound (λ q l. A q l ⊎ B q l) before ((m >>= n) before).1
  IsSound-bind A B m n before f g q l = elim (Result-cases (m before).0) [
    | inl (c, e) ↦ rw e λ h. elim (g c e q l h) [
      | inl old ↦ elim (f q l old) [ inl o ↦ inl o | inr a ↦ inr (inl a) ]
      | inr b ↦ inr (inr b)
    ]
    | inr (x, e) ↦ rw e λ h. elim (f q l h) [ inl o ↦ inl o | inr a ↦ inr (inl a) ]
  ]

  IsSound-map :
      (A B : Text → Value S → Type 0) (before after : Leaves S)
      → ((q : Text) (l : Value S) → A q l → B q l)
      → IsSound A before after
      → IsSound B before after
  IsSound-map A B before after f h q l e = elim (h q l e) [ inl o ↦ inl o | inr a ↦ inr (f q l a) ]

  mutual
    unfolding get_leaves

    pub leaves-IsSound :
        (v : Value S) (path : Text) (before : Leaves S)
        → IsSound (LeafAt v path) before (get_leaves P v path before).1
    leaves-IsSound (scalar v) path before = assign-IsSound path (scalar v) _ before here_scalar
    leaves-IsSound (obj fs) path before =
        IsSound-map _ _ before _ (λ q l. in_dict) (fields-IsSound fs path before)
    leaves-IsSound (arr xs) path before =
        let inner = items-IsSound xs path before in
        elim (Bool-cases (has_dict xs)) [
          | inl e ↦ rw e (IsSound-map _ _ before _ (λ q l. in_list e) inner)
          | inr e ↦ rw e (assign-IsSound path (arr xs) _ before (here_list e))
        ]

    items-IsSound :
        (xs : Items S) (path : Text) (before : Leaves S)
        → IsSound (ItemAt xs path) before (get_leaves_items P xs path before).1
    items-IsSound nil path before = λ q l e. inl e
    items-IsSound (cons x xs) path before = elim (Result-cases (path_with_keys P x path)) [
      | inl (next, e) ↦ rw e (
          IsSound-map _ _ before _
            (λ q l a. elim a [ inl h ↦ this_item e h | inr h ↦ later_item h ])
            (IsSound-bind (LeafAt x next) (ItemAt xs path) (get_leaves P x next)
              (λ _. get_leaves_items P xs path) before (leaves-IsSound x next before)
              (λ c ok'. items-IsSound xs path (get_leaves P x next before).1)))
      | inr (c, e) ↦ rw e (λ q l h. inl h)
    ]

    fields-IsSound :
        (fs : Fields S) (path : Text) (before : Leaves S)
        → IsSound (FieldAt fs path) before (get_leaves_fields P fs path before).1
    fields-IsSound end path before = λ q l e. inl e
    fields-IsSound (field k v fs) path before =
        IsSound-map _ _ before _ (λ q l a. elim a [ inl h ↦ this_field h | inr h ↦ later_field h ])
          (IsSound-bind (LeafAt v (path ++ b'/' ∷ k)) (FieldAt fs path)
            (get_leaves P v (path ++ b'/' ∷ k)) (λ _. get_leaves_fields P fs path) before
            (leaves-IsSound v (path ++ b'/' ∷ k) before)
            (λ c ok'. fields-IsSound fs path (get_leaves P v (path ++ b'/' ∷ k) before).1))
