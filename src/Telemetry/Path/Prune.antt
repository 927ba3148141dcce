-- ===== src/Telemetry/Path/Prune.antt =====
-- `_prune_leaves` of src/system/telemetry/goldstone/system/telemetry/path.py keeps the leaves at and
-- below the path.
use goldstone_mgmt.Base.{
  ◌≡◌, refl, ◌↔◌, false, ◌&&◌, none, some, List, [], ◌∷◌, ◌++◌, if◌then◌else◌, text_eq, arith,
  ==_iff, Bool-cases, inl, inr,
}
use goldstone_mgmt.Base.Dict
use goldstone_mgmt.Base.Dict.{Dict, keys, member, get-remove, member-keys}
use goldstone_mgmt.Base.Text.{Text}
use goldstone_mgmt.Telemetry.Path.Values.{Value}
use goldstone_mgmt.Telemetry.Path.{
  Leaves, get_path_elems, differs, to_delete, sub_paths_to_delete, remove_each, prune_leaves,
}

-- The elements `ys` begin with the elements `xs`.
abbrev pub Extends : List Text → List Text → Type 0
Extends xs ys = (rest : List Text) × (ys ≡ xs ++ rest)

to_delete-Extends : (xs ys : List Text) → to_delete xs ys ≡ false → Extends xs ys
unfolding to_delete differs
to_delete-Extends [] ys h = (ys, refl)
to_delete-Extends (x ∷ xs) [] h = absurd (ground arith)
to_delete-Extends (x ∷ xs) (y ∷ ys) h =
    let (rest, e) = to_delete-Extends xs ys (ground (arith, ==_iff x y)) in
    (rest, ground (arith, ==_iff x y))

of_extends : (xs rest : List Text) → to_delete xs (xs ++ rest) ≡ false
unfolding to_delete differs
of_extends [] rest = ground arith
of_extends (x ∷ xs) rest = ground (arith, of_extends xs rest, ==_iff x x)

member-to_delete :
    (elems qs : List Text) (q : Text)
    → member (sub_paths_to_delete elems qs) q ≡ (member qs q && to_delete elems (get_path_elems q))
unfolding sub_paths_to_delete member
member-to_delete elems [] q = refl
member-to_delete elems (p ∷ qs) q = ground (arith, member-to_delete elems qs q, ==_iff p q)

module _ {S : Type 0} where
  get-remove_each :
      (leaves : Leaves S) (qs : List Text) (q : Text)
      → Dict.get (remove_each leaves qs) q ≡ (if member qs q then none else Dict.get leaves q)
  unfolding remove_each member
  get-remove_each leaves [] q = refl
  get-remove_each leaves (p ∷ qs) q =
      ground (arith, get-remove_each (Dict.remove leaves p) qs q, get-remove leaves p q)

  pub get-prune_leaves :
      (leaves : Leaves S) (path q : Text)
      → Dict.get (prune_leaves leaves path) q
        ≡ (if to_delete (get_path_elems path) (get_path_elems q) then none else Dict.get leaves q)
  unfolding prune_leaves
  get-prune_leaves leaves path q = ground (
    arith,
    get-remove_each leaves (sub_paths_to_delete (get_path_elems path) (keys leaves)) q,
    member-to_delete (get_path_elems path) (keys leaves) q,
    member-keys leaves q,
  )

  -- A leaf is in the pruned leaves exactly when it was among the leaves and the elements of its path
  -- begin with the elements of the requested path, list keys left aside.
  pub prune_leaves_iff :
      (leaves : Leaves S) (path q : Text) (v : Value S)
      → (Dict.get (prune_leaves leaves path) q ≡ some v)
        ↔ ((Dict.get leaves q ≡ some v) × Extends (get_path_elems path) (get_path_elems q))
  prune_leaves_iff leaves path q v = (
    λ h. elim (Bool-cases (to_delete (get_path_elems path) (get_path_elems q))) [
      | inl gone ↦ absurd (ground (arith, get-prune_leaves leaves path q))
      | inr kept ↦ (
        ground (arith, get-prune_leaves leaves path q),
        to_delete-Extends (get_path_elems path) (get_path_elems q) kept,
      )
    ],
    λ h.
        let kept : to_delete (get_path_elems path) (get_path_elems q) ≡ false =
          rw h.1.1 (of_extends (get_path_elems path) h.1.0) in
        rw (get-prune_leaves leaves path q, kept) h.0,
  )
