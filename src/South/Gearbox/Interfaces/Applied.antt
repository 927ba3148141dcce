-- ===== src/South/Gearbox/Interfaces/Applied.antt =====
-- What `apply` of src/south/gearbox/goldstone/south/gearbox/interfaces.py leaves on the device.
use goldstone_mgmt.Base.{
  ℕ, ◌≡◌, refl, ◌∙◌, inl, inr, false, Option, none, some, List, [], ◌∷◌, ok, Result-cases,
  Bool-cases, text_eq, nat_eq, arith, ◌==◌, ==_iff, if◌then◌else◌, map,
}
use goldstone_mgmt.Base.Dict
use goldstone_mgmt.Base.Dict.{Dict}
use goldstone_mgmt.Base.Text.{Text}
use goldstone_mgmt.South.Gearbox.{Platform, Value, Object, str}
use goldstone_mgmt.South.Gearbox.Counters.Labels.{ok_inj}
use goldstone_mgmt.South.Gearbox.Handlers.{
  Attributes, World, differences, apply_attributes, object_of, on_tai, save,
}
use goldstone_mgmt.South.Gearbox.Devices.{on_platform}
use goldstone_mgmt.South.Gearbox.Handlers.{on_devices}

-- The value for a name, of a list of names and one of values.
unfoldable pub value_for : List Text → List Value → Text → Option Value
value_for (n ∷ ns) (v ∷ vs) m = if n == m then some v else value_for ns vs m
value_for _ _ m = none

-- What an attribute shows after values were written over those of `before`.
abbrev pub written : Option Value → Text → Text
written (some v) before = str v
written none before = before

-- No name stands twice in the list.
abbrev pub AreDistinct : List Text → Type 0
AreDistinct [] = Unit {0}
AreDistinct (n ∷ ns) = (Dict.member ns n ≡ false) × AreDistinct ns

differences-path :
    (n f : Text) (ns fs : List Text) (v : Value) (vs : List Value) (d : List (Text × Value))
    → differences (n ∷ ns) (f ∷ fs) (v ∷ vs) ≡ ok d
    → (d' : List (Text × Value)) × (differences ns fs vs ≡ ok d')
      × ((if f == str v then d' else (n, v) ∷ d') ≡ d)
unfolding differences
differences-path n f ns fs v vs d h = elim (Result-cases (differences ns fs vs)) [
  | inl (d', e) ↦ (d', e, ok_inj (rw (e, differences) at h))
  | inr (x, e) ↦ absurd (ground (arith, rw (e, differences) at h))
]

-- A name that is not among the names has no difference.
differences-none :
    (before : Text → Text) (ns : List Text) (vs : List Value) (d : List (Text × Value)) (m : Text)
    → Dict.member ns m ≡ false
    → differences ns (map before ns) vs ≡ ok d
    → Dict.get d m ≡ none
unfolding differences Dict.get Dict.member
differences-none before [] vs d m k h = ground (arith, h)
differences-none before (n ∷ ns) [] d m k h = absurd (ground (arith, h))
differences-none before (n ∷ ns) (v ∷ vs) d m k h =
    let (d', e, last) = differences-path n (before n) ns (map before ns) v vs d h in
    ground (arith, last, differences-none before ns vs d' m)

differences-written :
    (before : Text → Text) (ns : List Text) (vs : List Value) (d : List (Text × Value)) (m : Text)
    → AreDistinct ns
    → differences ns (map before ns) vs ≡ ok d
    → written (Dict.get d m) (before m) ≡ written (value_for ns vs m) (before m)
unfolding differences value_for Dict.get Dict.member
differences-written before [] vs d m k h = ground (arith, h)
differences-written before (n ∷ ns) [] d m k h = absurd (ground (arith, h))
differences-written before (n ∷ ns) (v ∷ vs) d m k h =
    let (d', e, last) = differences-path n (before n) ns (map before ns) v vs d h in
    let rest = differences-written before ns vs d' m k.1 e in
    elim (Bool-cases (before n == str v)) [
      | inl same ↦
          let last' : d' ≡ d = rw same at last in
          elim (Bool-cases (n == m)) [
            | inl here ↦
                let nm = (==_iff n m).0 here in
                let no = differences-none before ns vs d' n k.0 e in
                rw (here, ← last', ← nm, no) ((==_iff (before n) (str v)).0 same)
            | inr other ↦ rw (other, ← last') rest
          ]
      | inr new ↦
          let last' : (n, v) ∷ d' ≡ d = rw new at last in
          elim (Bool-cases (n == m)) [
            | inl here ↦ rw (here, ← last', here, Dict.get) refl
            | inr other ↦ rw (other, ← last', other, Dict.get) rest
          ]
    ]

module _ (P : Platform) (C : Type 0) where
  -- what taish says of an object's attributes: reads return them, a write that returns has set them
  pub record TaiLaws : Type 0 where
    pub attribute : P.State → Object → Text → Text
    pub get_reads :
        (o : Object) (ns vs : List Text) (s : P.State)
        → (P.get_multiple o ns s).0 ≡ ok vs
        → vs ≡ map (attribute s o) ns
    pub get_keeps :
        (o : Object) (n : Text) (ns : List Text) (s : P.State)
        → attribute (P.get_multiple o ns s).1 o n ≡ attribute s o n
    pub set_writes :
        (o : Object) (n : Text) (kvs : List (Text × Value)) (s : P.State)
        → (P.set_multiple o kvs s).0 ≡ ok tt
        → attribute (P.set_multiple o kvs s).1 o n ≡ written (Dict.get kvs n) (attribute s o n)

  -- When `apply` of a handler with attributes returns, each of its attributes shows the handler's
  -- value for it on the device, and every other attribute of the object is as it was.
  pub apply_attributes_lem :
      (L : TaiLaws) (o : ℕ) (a : Attributes P C) (w : World P C) (obj : Object) (n m : Text)
      (ns : List Text)
      → a.names ≡ n ∷ ns
      → a.obj ≡ some obj
      → AreDistinct (n ∷ ns)
      → (apply_attributes P C o a w).0 ≡ ok tt
      → L.attribute (apply_attributes P C o a w).1.devices.platform obj m
        ≡ written (value_for (n ∷ ns) a.value m) (L.attribute w.devices.platform obj m)
  unfolding apply_attributes object_of on_tai on_devices on_platform save
  apply_attributes_lem L o a w obj n m ns named known distinct h =
      let s = w.devices.platform in
      let read = P.get_multiple obj (n ∷ ns) s in
      elim (Result-cases read.0) [
        | inl (vs, e) ↦
            let same = L.get_reads obj (n ∷ ns) vs s e in
            elim (Result-cases (differences (n ∷ ns) vs a.value)) [
              | inl (d, f) ↦
                  let set = L.set_writes obj m d read.1 in
                  let value =
                    differences-written (L.attribute s obj) (n ∷ ns) a.value d m distinct
                      (rw same at f) in
                  rw (named, apply_attributes, known, e, f)
                    (set (rw (named, apply_attributes, known, e, f) at h)
                      ∙ rw (L.get_keeps obj m (n ∷ ns) s) value)
              | inr (x, f) ↦ absurd (ground (arith, rw (named, apply_attributes, known, e, f) at h))
            ]
        | inr (x, e) ↦ absurd (ground (arith, rw (named, apply_attributes, known, e) at h))
      ]
