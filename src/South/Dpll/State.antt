-- ===== src/South/Dpll/State.antt =====
-- The operational state of src/south/dpll/goldstone/south/dpll/dpll.py: `refinfo` and `oper_cb`.
use goldstone_mgmt.Base.{
  ◌≡◌, refl, map, ℕ, zero, suc, Bool, false, Option, none, some, List, [], ◌∷◌, ◌++◌, Result, ok,
  err, index_error, value_error, if◌then◌else◌, ◌==◌, nat_eq, text_eq,
}
use goldstone_mgmt.Base.Dict
use goldstone_mgmt.Base.Dict.{Dict, keys, member}
use goldstone_mgmt.Base.Exec.{Exec, pure, raise, lift, ◌>>=◌, ◌>>◌}
use goldstone_mgmt.Base.Text.{Text, codes, split, int, show}
use goldstone_mgmt.Core.Handlers.{XpathStep}
use goldstone_mgmt.South.Dpll.{Taish}

-- An item of the platform's description; `input_reference` is its DPLL's name and its own.
pub record PlatformItem : Type 0 where
  pub input_reference : Option (Text × Text)

abbrev pub RefInfo : Type 0
RefInfo = Dict Text (List ℕ)

abbrev pub references : RefInfo → Text → List ℕ
references info name = elim (Dict.get info name) [ none ↦ [] | some refs ↦ refs ]

-- self.refinfo[dpll][int(name)] = i, where the keys of the inner dict are kept
pub add_reference : RefInfo → Text → ℕ → RefInfo
add_reference info dpll n =
    let refs = references info dpll in
    Dict.put info dpll (if member refs n then refs else refs ++ n ∷ [])

-- the loop of DPLLServer.__init__
pub refinfo_of : RefInfo → List PlatformItem → Result RefInfo
unfolding add_reference
refinfo_of info [] = ok info
refinfo_of info (i ∷ is) = elim i.input_reference [
  | none ↦ refinfo_of info is
  | some (dpll, name) ↦ elim (int name) [
    | err e ↦ err e
    | ok n ↦ refinfo_of (add_reference info dpll n) is
  ]
]

-- `state` of an input reference; an empty list of alarms is not shown
pub record ReferenceState : Type 0 where
  pub priority : ℕ
  pub alarm : List Text

pub record Reference : Type 0 where
  pub name : Text
  pub state : Option ReferenceState

pub record DpllState : Type 0 where
  pub mode : Text
  pub phase_slope_limit : Text
  pub loop_bandwidth : Text
  pub state : Text
  pub selected_reference : Option Text

-- A DPLL of the answer; where only its name was asked for, the rest is `none`.
pub record Dpll : Type 0 where
  pub name : Text
  pub details : Option (DpllState × List Reference)

-- prios[ref]
unfoldable pub item : List Text → ℕ → Result Text
item [] i = err index_error
item (x ∷ xs) zero = ok x
item (x ∷ xs) (suc i) = item xs i

pub alarms_of : Text → List Text
alarms_of [] = []
alarms_of (c ∷ v) = split b'|' (c ∷ v)

pub slope_of : Text → Text
slope_of psl = if psl == codes "0" then codes "unlimitted" else psl

module _ (T : Taish) where
  -- the body of the try statement
  pub reference_state : Text → List Text → ℕ → Exec T.State ReferenceState
  unfolding item alarms_of
  reference_state name prios ref = do
    prio ← lift (item prios ref)
    priority ← lift (int prio)
    v ← T.get name (codes "ref-alarm-" ++ show ref)
    pure (record { priority = priority; alarm = alarms_of v })

  -- `except: pass`
  pub or_nothing : Result ReferenceState → Option ReferenceState
  or_nothing (ok s) = some s
  or_nothing (err e) = none

  pub reference_of : Text → List Text → ℕ → Exec T.State Reference
  unfolding reference_state or_nothing
  reference_of name prios ref s =
      let (r, s') = reference_state name prios ref s in
      (ok (record { name = show ref; state = or_nothing r }), s')

  pub references_of : Text → List Text → List ℕ → Exec T.State (List Reference)
  unfolding reference_of
  references_of name prios [] = pure []
  references_of name prios (ref ∷ refs) = do
    r ← reference_of name prios ref
    rs ← references_of name prios refs
    pure (r ∷ rs)

  abbrev attr_names : List Text
  attr_names =
      codes "dpll-mode"
      ∷ codes "phase-slope-limit"
      ∷ codes "loop-bandwidth"
      ∷ codes "dpll-state"
      ∷ codes "input-reference-priority"
      ∷ codes "selected-reference"
      ∷ []

  pub selected_of : List ℕ → Text → Result (Option Text)
  selected_of refs selected = elim (int selected) [
    | err e ↦ err e
    | ok n ↦ ok (if member refs n then some selected else none)
  ]

  -- the answer of one DPLL, once its attributes are read
  pub dpll_of : RefInfo → Text → List Text → Exec T.State Dpll
  unfolding slope_of references_of selected_of
  dpll_of info name (mode ∷ psl ∷ bw ∷ state ∷ prios ∷ selected ∷ []) = do
    let refs = references info name
    bandwidth ← lift (T.float bw)
    inputs ← references_of name (split b',' prios) refs
    chosen ← lift (selected_of refs selected)
    pure (record {
      name = name;
      details = some (
        record {
          mode = mode;
          phase_slope_limit = slope_of psl;
          loop_bandwidth = bandwidth;
          state = state;
          selected_reference = chosen;
        },
        inputs,
      );
    })
  dpll_of info name _ = raise value_error

  pub dplls_of : RefInfo → Bool → List Text → Exec T.State (List Dpll)
  unfolding dpll_of
  dplls_of info only_name [] = pure []
  dplls_of info only_name (name ∷ names) =
      let rest = dplls_of info only_name names in
      if only_name then (do ds ← rest; pure (record { name = name; details = none } ∷ ds)) else (do
        T.get_module name
        values ← T.get_multiple name attr_names
        d ← dpll_of info name values
        ds ← rest
        pure (d ∷ ds))

  -- `xpath[1][2]` where the path is long enough; the first key has to be the name
  pub requested : List XpathStep → Option (Option Text)
  requested (x ∷ y ∷ xs) = elim y.list_keys [
    | [] ↦ some none
    | (k, v) ∷ ks ↦ if k == codes "name" then some (some v) else none
  ]
  requested _ = some none

  abbrev asks_name : List XpathStep → Bool
  asks_name (x ∷ y ∷ z ∷ []) = z.name == codes "name"
  asks_name _ = false

  -- DPLLServer.oper_cb on the split path: `none` for a request that is not valid
  pub oper_cb : RefInfo → List XpathStep → Exec T.State (Option (List Dpll))
  unfolding dplls_of requested
  oper_cb info xpath = do
    modules ← T.list
    elim (requested xpath) [
      | none ↦ pure none
      | some (some name) ↦ (do ds ← dplls_of info (asks_name xpath) (name ∷ []); pure (some ds))
      | some none ↦ (do names ← T.list; ds ← dplls_of info (asks_name xpath) names; pure (some ds))
    ]

  -- Whatever taish and the text of the priorities are, each input reference that the platform has
  -- is listed once, in order, under its number.
  pub references_of-names :
      (name : Text) (prios : List Text) (refs : List ℕ) (s : T.State)
      → (rs : List Reference) × ((references_of name prios refs s).0 ≡ ok rs)
        × (map (λ r. r.name) rs ≡ map show refs)
  unfolding references_of reference_of
  references_of-names name prios [] s = ([], refl, refl)
  references_of-names name prios (ref ∷ refs) s =
      let (r, s') = reference_state name prios ref s in
      let (rs, e, names) = references_of-names name prios refs s' in
      (record { name = show ref; state = or_nothing r } ∷ rs, rw e refl, λ i. show ref ∷ names i)
