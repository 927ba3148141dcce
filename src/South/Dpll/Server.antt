-- ===== src/South/Dpll/Server.antt =====
-- DPLLServer of src/south/dpll/goldstone/south/dpll/dpll.py as a subclass of ServerBase.
pub mod Stuck
pub mod Applied
mod Tests
use goldstone_mgmt.Base.{
  ℕ, suc, Bool, true, false, Option, none, some, List, [], ◌∷◌, Result, ok, err, Exn,
  inval_arg_error, key_error, attribute_error, if◌then◌else◌, ◌==◌, nat_eq, text_eq,
}
use goldstone_mgmt.Base.Dict
use goldstone_mgmt.Base.Dict.{Dict, member}
use goldstone_mgmt.Base.Exec.{Exec, pure, raise, lift, ◌>>=◌, ◌>>◌}
use goldstone_mgmt.Base.Text.{Text, codes}
use goldstone_mgmt.Core.{Change, Subclass}
use goldstone_mgmt.Core.Handlers.{
  XpathStep, Class, no_op, sub, Tree, leaf, node, Branches, stop, branch,
}
use goldstone_mgmt.South.Dpll.{
  Taish, World, DpllClass, mode, phase_slope_limit, loop_bandwidth, priority, Attributes,
  tai_attr_names, module_name_of, ref_name_of, on_tai, new_values, differences, revert_values,
}

-- DPLLServer.handlers
pub handlers : Branches DpllClass
handlers =
    branch (codes "dplls")
      (node (
        branch (codes "dpll")
          (node (
            branch (codes "name") (leaf no_op) (
              branch (codes "config")
                (node (
                  branch (codes "name") (leaf no_op) (
                    branch (codes "mode") (leaf (sub mode)) (
                      branch (codes "phase-slope-limit") (leaf (sub phase_slope_limit))
                        (branch (codes "loop-bandwidth") (leaf (sub loop_bandwidth)) stop)))))
                (branch (codes "input-references")
                  (node (
                    branch (codes "input-reference")
                      (node (
                        branch (codes "name") (leaf no_op) (
                          branch (codes "config")
                            (node (
                              branch (codes "name") (leaf no_op)
                                (branch (codes "priority") (leaf (sub priority)) stop)))
                            stop)))
                      stop))
                  stop))))
          stop))
      stop

module _ (T : Taish) where
  -- ChangeHandler.__init__
  pub create : DpllClass → Change Text → Exec (World T) ℕ
  create c ch w =
      let a : Attributes = record {
        handler_class = c;
        change = ch;
        xpath = [];
        module_name = [];
        ref_name = 0;
        value = [];
        original_value = none;
      } in
      (ok w.next, record w { objects = Dict.put w.objects w.next a; next = suc w.next })

  -- the handler at an address
  pub load : ℕ → Exec (World T) Attributes
  load o w = elim (Dict.get w.objects o) [ none ↦ (err key_error, w) | some a ↦ (ok a, w) ]

  pub save : ℕ → Attributes → Exec (World T) (Unit {0})
  save o a w = (ok tt, record w { objects = Dict.put w.objects o a })

  -- what PriorityChangeHandler._init adds
  pub init_ref : DpllClass → ℕ → Attributes → Exec (World T) (Unit {0})
  unfolding save
  init_ref priority o a = do ref ← lift (ref_name_of a.xpath); save o (record a { ref_name = ref })
  init_ref _ o a = pure tt

  pub known_module : List Text → Text → Exec (World T) (Unit {0})
  known_module modules name = if member modules name then pure tt else raise inval_arg_error

  -- `_init`
  pub init : (Text → List XpathStep) → ℕ → Exec (World T) (Unit {0})
  unfolding load init_ref on_tai known_module
  init xpath_split o = do
    a ← load o
    let steps = xpath_split a.change.xpath
    module_name ← lift (module_name_of steps)
    modules ← on_tai T T.list
    known_module modules module_name
    on_tai T (T.get_module module_name)
    save o (record a { xpath = steps; module_name = module_name })
    init_ref a.handler_class o (record a { xpath = steps; module_name = module_name })

  pub validate : ℕ → Exec (World T) (Unit {0})
  unfolding load save new_values
  validate o = do
    a ← load o
    values ← new_values T a.handler_class a
    save o (record a { value = values })

  -- DPLLChangeHandler.apply on its attributes
  pub apply_attributes : ℕ → Attributes → Exec (World T) (Unit {0})
  unfolding save on_tai differences
  apply_attributes o a = do
    let names = tai_attr_names a.handler_class
    original ← on_tai T (T.get_multiple a.module_name names)
    save o (record a { original_value = some original })
    changes ← lift (differences T names original a.value)
    on_tai T (T.set_multiple a.module_name changes)

  pub apply : ℕ → Exec (World T) (Unit {0})
  unfolding load apply_attributes
  apply o = do a ← load o; apply_attributes o a

  -- DPLLChangeHandler.revert on its attributes
  pub revert_attributes : Attributes → Option (List Text) → Exec (World T) (Unit {0})
  unfolding on_tai revert_values
  revert_attributes a none = raise attribute_error
  revert_attributes a (some original) = do
    changes ← lift (revert_values T (tai_attr_names a.handler_class) original a.value)
    on_tai T (T.set_multiple a.module_name changes)

  pub revert : ℕ → Exec (World T) (Unit {0})
  unfolding load revert_attributes
  revert o = do a ← load o; revert_attributes a a.original_value

  -- The caches of `user` are new for each request.
  pub new_user : List (Change Text) → World T → (Unit {0}) × World T
  new_user cs w = (tt, record w { cap_cache = []; current_priorities = none })

  abbrev pub dpll_server : (Text → List XpathStep) → Subclass
  dpll_server xpath_split = record {
    HandlerClass = DpllClass;
    Value = Text;
    World = World T;
    User = Unit {0};
    Object = ℕ;
    handlers = handlers;
    xpath_split = xpath_split;
    new_user = new_user;
    pre = λ u w. (ok tt, w);
    post = λ u w. (ok tt, w);
    create = create;
    init = λ o u. init xpath_split o;
    validate_object = λ o u. validate o;
    apply_object = λ o u. apply o;
    revert_object = λ o u. revert o;
  }
