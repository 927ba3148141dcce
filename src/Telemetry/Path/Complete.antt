-- ===== src/Telemetry/Path/Complete.antt =====
-- `_get_leaves` of src/system/telemetry/goldstone/system/telemetry/path.py misses no leaf.
use goldstone_mgmt.Base.{
  ◌≡◌, refl, ◌≢◌, ◌⊎◌, inl, inr, false, none, ◌∷◌, ◌++◌, Result, ok, Result-cases, returns-cases,
  Bool-cases, text_eq, arith, ==_iff,
}
use goldstone_mgmt.Base.Dict
use goldstone_mgmt.Base.Dict.{get-put}
use mathlib.Core.Path.{subst}
use goldstone_mgmt.Base.Exec.{Exec, ◌>>=◌, ◌>>◌}
use goldstone_mgmt.Base.Text.{Text}
use goldstone_mgmt.Telemetry.Path.{
  Schema, Leaves, path_with_keys, assign, get_leaves, get_leaves_items, get_leaves_fields,
}
use goldstone_mgmt.Telemetry.Path.Values.{
  Value, Items, Fields, scalar, arr, obj, nil, cons, end, field, has_dict,
}
use goldstone_mgmt.Telemetry.Path.Leaves.{
  LeafAt, FieldAt, ItemAt, here_scalar, here_list, in_dict, in_list, this_field, later_field,
  this_item, later_item,
}

module _ {S : Type 0} (P : Schema S) where
  -- No path is lost.
  abbrev Grows : Leaves S → Leaves S → Type 0
  Grows before after = (q : Text) → Dict.get before q ≢ none → Dict.get after q ≢ none

  assign-Grows :
      (path : Text) (v : Value S) (before : Leaves S) → Grows before (assign path v before).1
  unfolding assign
  assign-Grows path v before q h = ground (arith, get-put before path q v)

  assign-has :
      (path : Text) (v : Value S) (before : Leaves S)
      → Dict.get (assign path v before).1 path ≢ none
  unfolding assign
  assign-has path v before = ground (arith, get-put before path path v, ==_iff path path)

  scalar-has :
      (v : S) (path : Text) (before : Leaves S) {q : Text} {l : Value S}
      → LeafAt P (scalar v) path q l
      → Dict.get (assign path (scalar v) before).1 q ≢ none
  scalar-has v path before here_scalar = assign-has path (scalar v) before

  list-has :
      {xs : Items S} {path q : Text} {l : Value S}
      → has_dict xs ≡ false
      → (before : Leaves S) → LeafAt P (arr xs) path q l
      → Dict.get (assign path (arr xs) before).1 q ≢ none
  list-has {xs} {path} e before (here_list e') = assign-has path (arr xs) before
  list-has e before (in_list e' i) = absurd (cc)

  split_dict :
      {fs : Fields S} {path q : Text} {l : Value S}
      → LeafAt P (obj fs) path q l
      → FieldAt P fs path q l
  split_dict (in_dict f) = f

  Grows-bind :
      {C : Type 0} (m : Exec (Leaves S) C) (n : C → Exec (Leaves S) (Unit {0})) (before : Leaves S)
      → Grows before (m before).1
      → ((c : C) → Grows (m before).1 (n c (m before).1).1)
      → Grows before ((m >>= n) before).1
  Grows-bind m n before f g = elim (Result-cases (m before).0) [
    | inl (c, e) ↦ rw e (λ q h. g c q (f q h))
    | inr (x, e) ↦ rw e f
  ]

  mutual
    unfolding get_leaves

    leaves-Grows :
        (v : Value S) (path : Text) (before : Leaves S)
        → Grows before (get_leaves P v path before).1
    leaves-Grows (scalar v) path before = assign-Grows path (scalar v) before
    leaves-Grows (obj fs) path before = fields-Grows fs path before
    leaves-Grows (arr xs) path before =
        let inner = items-Grows xs path before in
        elim (Bool-cases (has_dict xs)) [
          | inl e ↦ rw e inner
          | inr e ↦ rw e (assign-Grows path (arr xs) before)
        ]

    items-Grows :
        (xs : Items S) (path : Text) (before : Leaves S)
        → Grows before (get_leaves_items P xs path before).1
    items-Grows nil path before = λ q h. h
    items-Grows (cons x xs) path before = elim (Result-cases (path_with_keys P x path)) [
      | inl (next, e) ↦ rw e (
          Grows-bind (get_leaves P x next) (λ _. get_leaves_items P xs path) before
            (leaves-Grows x next before) (λ c. items-Grows xs path (get_leaves P x next before).1))
      | inr (c, e) ↦ rw e (λ q h. h)
    ]

    fields-Grows :
        (fs : Fields S) (path : Text) (before : Leaves S)
        → Grows before (get_leaves_fields P fs path before).1
    fields-Grows end path before = λ q h. h
    fields-Grows (field k v fs) path before =
        Grows-bind (get_leaves P v (path ++ b'/' ∷ k)) (λ _. get_leaves_fields P fs path) before
          (leaves-Grows v (path ++ b'/' ∷ k) before)
          (λ c. fields-Grows fs path (get_leaves P v (path ++ b'/' ∷ k) before).1)

  -- A call that returned has a leaf at every place of `at`.
  abbrev IsComplete : (Text → Value S → Type 0) → Result (Unit {0}) → Leaves S → Type 0
  IsComplete at r after = r ≡ ok tt → (q : Text) (l : Value S) → at q l → Dict.get after q ≢ none

  IsComplete-bind :
      (A B : Text → Value S → Type 0) (m n : Exec (Leaves S) (Unit {0})) (before : Leaves S)
      → IsComplete A (m before).0 (m before).1
      → Grows (m before).1 (n (m before).1).1
      → IsComplete B (n (m before).1).0 (n (m before).1).1
      → IsComplete (λ q l. A q l ⊎ B q l) ((m >> n) before).0 ((m >> n) before).1
  IsComplete-bind A B m n before f up g = elim (returns-cases (m before).0) [
    | inl e ↦ rw e λ r q l at. elim at [ inl a ↦ up q (f e q l a) | inr b ↦ g r q l b ]
    | inr (x, e) ↦ rw e λ r. absurd (cc)
  ]

  split_list :
      {xs : Items S} {path q : Text} {l : Value S}
      → LeafAt P (arr xs) path q l
      → ((has_dict xs ≡ false) × (path ≡ q)) ⊎ ItemAt P xs path q l
  split_list (here_list e) = inl (e, refl)
  split_list (in_list e i) = inr i

  split_item :
      {x : Value S} {xs : Items S} {path q : Text} {l : Value S} {next : Text}
      → path_with_keys P x path ≡ ok next
      → ItemAt P (cons x xs) path q l
      → LeafAt P x next q l ⊎ ItemAt P xs path q l
  split_item {x} {q} {l} {next} e (this_item {next = other} e' h) =
      let same : other ≡ next = cc in inl (subst (λ n. LeafAt P x n q l) same h)
  split_item e (later_item i) = inr i

  split_field :
      {k : Text} {v : Value S} {fs : Fields S} {path q : Text} {l : Value S}
      → FieldAt P (field k v fs) path q l
      → LeafAt P v (path ++ b'/' ∷ k) q l ⊎ FieldAt P fs path q l
  split_field (this_field h) = inl h
  split_field (later_field f) = inr f

  mutual
    unfolding get_leaves

    pub leaves-IsComplete :
        (v : Value S) (path : Text) (before : Leaves S)
        → IsComplete (LeafAt P v path) (get_leaves P v path before).0 (get_leaves P v path before).1
    leaves-IsComplete (scalar v) path before = λ r q l at. scalar-has v path before at
    leaves-IsComplete (obj fs) path before =
        λ r q l at. fields-IsComplete fs path before r q l (split_dict at)
    leaves-IsComplete (arr xs) path before =
        let inner = items-IsComplete xs path before in
        elim (Bool-cases (has_dict xs)) [
          | inl e ↦
              rw e λ r q l at. elim (split_list at) [ inl h ↦ absurd (cc) | inr i ↦ inner r q l i ]
          | inr e ↦ rw e λ r q l at. list-has e before at
        ]

    items-IsComplete :
        (xs : Items S) (path : Text) (before : Leaves S)
        → IsComplete
            (ItemAt P xs path)
            (get_leaves_items P xs path before).0
            (get_leaves_items P xs path before).1
    items-IsComplete nil path before = λ r q l i. elim i [ ]
    items-IsComplete (cons x xs) path before = elim (Result-cases (path_with_keys P x path)) [
      | inl (next, e) ↦
          let both =
            IsComplete-bind (LeafAt P x next) (ItemAt P xs path) (get_leaves P x next)
              (get_leaves_items P xs path) before (leaves-IsComplete x next before)
              (items-Grows xs path (get_leaves P x next before).1)
              (items-IsComplete xs path (get_leaves P x next before).1) in
          rw e λ r q l i. both r q l (split_item e i)
      | inr (c, e) ↦ rw e λ r. absurd (cc)
    ]

    fields-IsComplete :
        (fs : Fields S) (path : Text) (before : Leaves S)
        → IsComplete
            (FieldAt P fs path)
            (get_leaves_fields P fs path before).0
            (get_leaves_fields P fs path before).1
    fields-IsComplete end path before = λ r q l f. elim f [ ]
    fields-IsComplete (field k v fs) path before =
        let p = path ++ b'/' ∷ k in
        let both =
          IsComplete-bind (LeafAt P v p) (FieldAt P fs path) (get_leaves P v p)
            (get_leaves_fields P fs path) before (leaves-IsComplete v p before)
            (fields-Grows fs path (get_leaves P v p before).1)
            (fields-IsComplete fs path (get_leaves P v p before).1) in
        λ r q l f. both r q l (split_field f)
