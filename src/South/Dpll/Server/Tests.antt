-- ===== src/South/Dpll/Server/Tests.antt =====
-- The theorems about src/south/dpll/goldstone/south/dpll/dpll.py at a small device.
use goldstone_mgmt.Base.{
  ℕ, ◌≡◌, refl, Bool, false, Option, none, some, List, [], ◌∷◌, Result, ok, err, ltb, map, arith,
  text_eq, nat_eq, internal_error, attribute_error, inl,
}
use goldstone_mgmt.Base.Dict
use goldstone_mgmt.Base.Dict.{Dict, get-put}
use goldstone_mgmt.Base.Text.{Text, codes, int, digits_from}
use goldstone_mgmt.Core.{
  modified, object, Server, Current, sleeping, run, revert_task_runs, change_cb, change, done,
  abort,
}
use goldstone_mgmt.Core.Handlers.{XpathStep}
use goldstone_mgmt.South.Dpll.{
  Taish, Capability, World, Attributes, loop_bandwidth, to_tai_value, tai_attr_names, values_for,
  new_values, capability, cache_capability, no_capability, value_for, check_value, fail_if_less,
}
use goldstone_mgmt.South.Dpll.Range.{IsAllowed}
use goldstone_mgmt.South.Dpll.Server.{validate, load, save, dpll_server}
use goldstone_mgmt.South.Dpll.Server.Applied.{TaishLaws, validate-IsAllowed}
use goldstone_mgmt.South.Dpll.Server.Stuck.{HasChanged, timeout_sticks}

abbrev Device : Type 0
Device = Dict Text Text

abbrev attribute : Device → Text → Text
attribute s n = elim (Dict.get s n) [ some v ↦ v | none ↦ [] ]

abbrev write : Device → List (Text × Text) → Device
write s [] = s
write s ((n, v) ∷ kvs) = Dict.put (write s kvs) n v

abbrev below : Result ℕ → Result ℕ → Result Bool
below (ok a) (ok b) = ok (ltb a b)
below (err e) _ = err e
below _ (err e) = err e

abbrev bounds : Capability
bounds = record { default_value = []; min = codes "1"; max = codes "9"; supportedvalues = [] }

abbrev taish : Taish
taish = record {
  State = Device;
  list = λ s. (ok (codes "0" ∷ []), s);
  get_module = λ m s. (ok tt, s);
  get_attribute_capability = λ m n s. (ok bounds, s);
  get = λ m n s. (ok (attribute s n), s);
  get_multiple = λ m ns s. (ok (map (attribute s) ns), s);
  set_multiple = λ m kvs s. (ok tt, write s kvs);
  less = λ a b. below (int a) (int b);
  float = λ a. ok a;
}

write-attribute :
    (n : Text) (kvs : List (Text × Text)) (s : Device)
    → attribute (write s kvs) n ≡ elim (Dict.get kvs n) [ some v ↦ v | none ↦ attribute s n ]
unfolding Dict.get
write-attribute n [] s = refl
write-attribute n ((k, v) ∷ kvs) s =
    ground (arith, get-put (write s kvs) k n v, write-attribute n kvs s)

laws : TaishLaws taish
laws = record {
  attribute = λ s m n. attribute s n;
  get_reads = λ m ns vs s h. ground (arith, h);
  get_keeps = λ m n ns s. refl;
  set_writes = λ m n kvs s h. write-attribute n kvs s;
}

-- A change of the bandwidth from 3 to 5.
abbrev attributes : List Text → Option (List Text) → Attributes
attributes value original = record {
  handler_class = loop_bandwidth;
  change = record { type = modified; xpath = []; value = codes "5" };
  xpath = [];
  module_name = codes "0";
  ref_name = 0;
  value = value;
  original_value = original;
}

abbrev world : Attributes → World taish
world a = record {
  objects = (7, a) ∷ [];
  next = 8;
  cap_cache = [];
  current_priorities = none;
  tai = (codes "loop-bandwidth", codes "3") ∷ [];
}

validate-IsAllowed_example :
    (n : Text) × (c : Capability) × (tai_attr_names loop_bandwidth ≡ n ∷ [])
    × (Dict.get (validate taish 7 (world (attributes [] none))).1.cap_cache n ≡ some c)
    × IsAllowed taish c (to_tai_value loop_bandwidth (codes "5"))
    × (Dict.get (validate taish 7 (world (attributes [] none))).1.objects 7
        ≡ some (attributes (to_tai_value loop_bandwidth (codes "5") ∷ []) none))
unfolding validate load save new_values values_for capability cache_capability no_capability
    value_for check_value fail_if_less to_tai_value int digits_from Dict.get Dict.put
validate-IsAllowed_example =
    validate-IsAllowed taish 7 (world (attributes [] none)) (attributes [] none) refl tt refl refl

abbrev applied : World taish
applied = world (attributes (codes "5" ∷ []) (some (codes "3" ∷ [])))

abbrev split_nothing : Text → List XpathStep
split_nothing x = []

abbrev held : Current (dpll_server taish split_nothing)
held = record { id = 1; handlers = object 7 ∷ []; user = tt; revert_task = sleeping }

abbrev waiting : Server (dpll_server taish split_nothing)
waiting = record { current = some held; stopped = false; world = applied }

changed : HasChanged taish 7 applied
unfolding Dict.get
changed = record {
  attributes = attributes (codes "5" ∷ []) (some (codes "3" ∷ []));
  stored = refl;
  original = codes "3" ∷ [];
  known = refl;
  differs = inl refl;
}

timeout_sticks_example :
    let t =
      run (dpll_server taish split_nothing) waiting (revert_task_runs ∷ revert_task_runs ∷ []) in
    (t.world ≡ applied)
    × (run (dpll_server taish split_nothing) t (revert_task_runs ∷ []) ≡ t)
    × (change_cb (dpll_server taish split_nothing) change 2 [] t ≡ (err internal_error, t))
    × (change_cb (dpll_server taish split_nothing) done 2 [] t ≡ (err attribute_error, t))
    × (change_cb (dpll_server taish split_nothing) abort 2 [] t ≡ (err attribute_error, t))
timeout_sticks_example =
    timeout_sticks taish split_nothing waiting held 7 [] (revert_task_runs ∷ []) 2 [] refl refl refl
      changed
