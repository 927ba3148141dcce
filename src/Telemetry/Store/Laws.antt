-- ===== src/Telemetry/Store/Laws.antt =====
-- src/system/telemetry/goldstone/system/telemetry/store.py: InMemoryTelemetryStore is a map from
-- ids and path to an entry.
use goldstone_mgmt.Base.{
  Bool, false, ℕ, ◌≡◌, ◌≢◌, refl, ◌↔◌, ◌&&◌, true, Option, none, some, List, [], ◌∷◌, if◌then◌else◌,
  ◌==◌, nat_eq, text_eq, arith, ok, err, ==_iff, ==_refl, ◌∙◌, telemetry_not_exist, Option-cases,
  inl, inr,
}
use goldstone_mgmt.Base.Dict
use goldstone_mgmt.Base.Dict.{Dict, keys, member, get-put, get-remove, member-keys}
use goldstone_mgmt.Base.Text.{Text}
use goldstone_mgmt.Telemetry.Store.Sub.{sub, sub-put, sub-remove}
use goldstone_mgmt.Telemetry.Store.{
  Ids, Entry, Store, ensure, set, find, delete, delete_path, delete_steps, prune_inner, prune_outer,
  not_exist, list, same_key,
}

abbrev pub is_some : {A : Type 0} → Option A → Bool
is_some none = false
is_some (some a) = true

module _ {W : Type 0} where
  sub-ensure : (d : Dict ℕ (List W)) (k j : ℕ) → sub (ensure d k) j ≡ sub d j
  unfolding ensure sub
  sub-ensure d k j = ground (arith, get-put d k j [], member-keys d k, ==_iff k j)

  sub-known : (d : Dict ℕ (List W)) (k : ℕ) (x : List W) → Dict.get d k ≡ some x → sub d k ≡ x
  unfolding sub
  sub-known d k x e = rw (e, sub) refl

module _ {V : Type 0} where
  find-sub :
      (d : Store V) (ids : Ids) (p : Text) → find d ids p ≡ Dict.get (sub (sub d ids.0) ids.1) p
  unfolding find sub Dict.get
  find-sub d ids p = ground arith

  -- The inner dictionary that `set` writes.
  written : Store V → ℕ → ℕ → Text → V → ℕ → Dict Text (Entry V)
  written d o i p v now =
      Dict.put (sub (ensure (sub (ensure d o) o) i) i) p (record { value = v; update_time = now })

  sub-set :
      (d : Store V) (o i o' i' : ℕ) (p : Text) (v : V) (now : ℕ)
      → sub (sub (set d (o, i) p v now) o') i'
        ≡ (if o == o' && i == i' then written d o i p v now else sub (sub d o') i')
  unfolding set written
  sub-set d o i o' i' p v now =
      let outer = ensure (sub (ensure d o) o) i in
      let inner = written d o i p v now in
      ground (
        arith,
        sub-put (ensure d o) o o' (Dict.put outer i inner),
        sub-put outer i i' inner,
        sub-ensure (sub (ensure d o) o) i i',
        sub-ensure d o o',
        ==_iff o o',
        ==_iff i i',
      )

  get-written :
      (d : Store V) (o i : ℕ) (p q : Text) (v : V) (now : ℕ)
      → Dict.get (written d o i p v now) q ≡ (
          if p == q
          then some (record { value = v; update_time = now })
          else Dict.get (sub (sub d o) i) q)
  unfolding written
  get-written d o i p q v now =
      rw (sub-ensure (sub (ensure d o) o) i i, sub-ensure d o o) (get-put (sub (sub d o) i) p q _)

  -- After `set`, a lookup finds the new entry at the path that was set, and what it found before at
  -- every other request, subscription or path.
  pub find-set :
      (d : Store V) (ids jds : Ids) (p q : Text) (v : V) (now : ℕ)
      → find (set d ids p v now) jds q ≡ (
          if same_key ids p jds q
          then some (record { value = v; update_time = now })
          else find d jds q)
  find-set d (o, i) (o', i') p q v now = ground (
    arith,
    find-sub (set d (o, i) p v now) (o', i') q,
    find-sub d (o', i') q,
    sub-set d o i o' i' p v now,
    get-written d o i p q v now,
    ==_iff o o',
    ==_iff i i',
  )

  -- Removing an empty dictionary changes no lookup.
  prune_inner-sub :
      (d : Store V) (o i o' i' : ℕ) → sub (sub (prune_inner (o, i) d).1 o') i' ≡ sub (sub d o') i'
  unfolding prune_inner
  prune_inner-sub d o i o' i' = elim (Option-cases (Dict.get d o)) [
    | inl e ↦ rw (e, prune_inner) refl
    | inr (outer, e) ↦ elim (Option-cases (Dict.get outer i)) [
      | inl f ↦ rw (e, prune_inner, f) refl
      | inr ([], f) ↦
          rw (e, prune_inner, f)
            (ground (
              arith,
              sub-put d o o' (Dict.remove outer i),
              sub-remove outer i i',
              sub-known d o outer e,
              sub-known outer i [] f,
              ==_iff o o',
              ==_iff i i',
            ))
      | inr (y ∷ inner, f) ↦ rw (e, prune_inner, f) (ground arith)
    ]
  ]

  prune_outer-sub :
      (d : Store V) (o o' i' : ℕ) → sub (sub (prune_outer o d).1 o') i' ≡ sub (sub d o') i'
  unfolding prune_outer
  prune_outer-sub d o o' i' = elim (Option-cases (Dict.get d o)) [
    | inl e ↦ rw (e, prune_outer) refl
    | inr ([], e) ↦
        rw (e, prune_outer) (ground (arith, sub-remove d o o', sub-known d o [] e, ==_iff o o'))
    | inr (y ∷ outer, e) ↦ rw (e, prune_outer) (ground arith)
  ]

  -- A dictionary that holds the entry's dictionary holds one after `prune_inner`, too.
  prune_inner-there :
      (d : Store V) (o i : ℕ) (outer : Dict ℕ (Dict Text (Entry V))) (inner : Dict Text (Entry V))
      → Dict.get d o ≡ some outer
      → Dict.get outer i ≡ some inner
      → ((prune_inner (o, i) d).0 ≡ ok tt)
        × ((x : Dict ℕ (Dict Text (Entry V))) × (Dict.get (prune_inner (o, i) d).1 o ≡ some x))
  unfolding prune_inner
  prune_inner-there d o i outer [] e f =
      rw (e, prune_inner, f)
        (refl, (Dict.remove outer i, get-put d o o (Dict.remove outer i) ∙ rw (==_refl o) refl))
  prune_inner-there d o i outer (y ∷ inner) e f =
      rw (e, prune_inner, f) (refl, (outer, ground (arith, e)))

  -- What `delete` leaves where it finds an entry.
  deleted :
      (d : Store V) (o i : ℕ) (p : Text) (e : Entry V)
      → find d (o, i) p ≡ some e
      → ((delete (o, i) p d).0 ≡ ok tt)
        × ((o' i' : ℕ)
            → sub (sub (delete (o, i) p d).1 o') i'
              ≡ (if o == o' && i == i' then Dict.remove (sub (sub d o) i) p else sub (sub d o') i'))
  unfolding find delete delete_steps delete_path not_exist
  deleted d o i p e h = elim (Option-cases (Dict.get d o)) [
    | inl a ↦ absurd (ground (arith, rw (a, find) at h))
    | inr (outer, a) ↦ elim (Option-cases (Dict.get outer i)) [
      | inl b ↦ absurd (ground (arith, rw (a, find, b) at h))
      | inr (inner, b) ↦
          let c : Dict.get inner p ≡ some e = rw (a, find, b) at h in
          let inner' = Dict.remove inner p in
          let outer' = Dict.put outer i inner' in
          let d1 = Dict.put d o outer' in
          let first : delete_path (o, i) p d ≡ (ok tt, d1) = rw (a, delete_path, b, c) refl in
          let (ran, kept) =
            prune_inner-there d1 o i outer' inner' (get-put d o o outer' ∙ rw (==_refl o) refl)
              (get-put outer i i inner' ∙ rw (==_refl i) refl) in
          let d2 = (prune_inner (o, i) d1).1 in
          let last : (prune_outer o d2).0 ≡ ok tt =
            unfold prune_outer in rw (kept.1, prune_outer) refl in
          rw (first, ran, last)
            (
              refl,
              λ o' i'.
                  prune_outer-sub d2 o o' i'
                  ∙ prune_inner-sub d1 o i o' i'
                  ∙ ground (
                    arith,
                    sub-put d o o' outer',
                    sub-put outer i i' inner',
                    sub-known d o outer a,
                    sub-known outer i inner b,
                    ==_iff o o',
                    ==_iff i i',
                  ),
            )
    ]
  ]

  -- Where there is nothing to delete, the first `del` raises.
  missed :
      (d : Store V) (o i : ℕ) (p : Text)
      → find d (o, i) p ≡ none
      → delete (o, i) p d ≡ (err telemetry_not_exist, d)
  unfolding find delete delete_steps delete_path not_exist
  missed d o i p h = elim (Option-cases (Dict.get d o)) [
    | inl a ↦ rw (a, delete_path) refl
    | inr (outer, a) ↦ elim (Option-cases (Dict.get outer i)) [
      | inl b ↦ rw (a, delete_path, b) refl
      | inr (inner, b) ↦
          let c : Dict.get inner p ≡ none = rw (a, find, b) at h in rw (a, delete_path, b, c) refl
    ]
  ]

  -- After `delete`, a lookup finds nothing at the deleted path, also where the emptied dictionaries
  -- were pruned, and what it found before at every other request, subscription or path.
  pub find-delete :
      (d : Store V) (ids jds : Ids) (p q : Text)
      → find (delete ids p d).1 jds q ≡ (if same_key ids p jds q then none else find d jds q)
  find-delete d (o, i) (o', i') p q = elim (Option-cases (find d (o, i) p)) [
    | inl e ↦ rw (missed d o i p e) (ground (arith, e, ==_iff o o', ==_iff i i', ==_iff p q))
    | inr (x, e) ↦ ground (
      arith,
      find-sub (delete (o, i) p d).1 (o', i') q,
      find-sub d (o', i') q,
      (deleted d o i p x e).1 o' i',
      get-remove (sub (sub d o) i) p q,
      ==_iff o o',
      ==_iff i i',
      ==_iff p q,
    )
  ]

  -- `delete` raises exactly where there is nothing to delete.
  pub delete-raises :
      (d : Store V) (ids : Ids) (p : Text)
      → (delete ids p d).0 ≡ (if is_some (find d ids p) then ok tt else err telemetry_not_exist)
  delete-raises d (o, i) p = elim (Option-cases (find d (o, i) p)) [
    | inl e ↦ rw (missed d o i p e, e) refl
    | inr (x, e) ↦ rw ((deleted d o i p x e).0, e) refl
  ]

  list-sub : (d : Store V) (ids : Ids) → list d ids ≡ keys (sub (sub d ids.0) ids.1)
  unfolding list sub Dict.get
  list-sub d ids = ground arith

  -- `list` has the paths that `get` finds.
  pub member-list :
      (d : Store V) (ids : Ids) (p : Text) → (member (list d ids) p ≡ true) ↔ (find d ids p ≢ none)
  member-list d ids p =
      rw (list-sub d ids, find-sub d ids p) (member-keys (sub (sub d ids.0) ids.1) p)
