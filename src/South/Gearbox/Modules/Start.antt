-- ===== src/South/Gearbox/Modules/Start.antt =====
-- The start of GearboxServer in src/south/gearbox/goldstone/south/gearbox/gearbox.py: `reconcile`.
-- The tasks of the modules run one after the other; a poll of a module is one step of the fuel.
use goldstone_mgmt.Base.{
  ℕ, zero, suc, Bool, true, false, Option, none, some, List, [], ◌∷◌, ◌++◌, ok, if◌then◌else◌, ◌==◌,
  text_eq,
}
use goldstone_mgmt.Base.Dict.{keys}
use goldstone_mgmt.Base.Exec.{Exec, pure, lift, ◌>>=◌, ◌>>◌}
use goldstone_mgmt.Base.Text.{Text, codes}
use goldstone_mgmt.South.Gearbox.{Platform, Value, text, is_text, lower_value, tai_module}
use goldstone_mgmt.South.Gearbox.Devices.{Devices, on_platform, list_modules}
use goldstone_mgmt.South.Gearbox.Modules.{set_tributary_mapping, learn_oids}

abbrev pub gearbox_xpath : Text
gearbox_xpath = codes "/goldstone-gearbox:gearboxes/gearbox"

-- What a poll says: the module is ready, it is broken, or it is to be asked again.
pub data Poll : Type 0 where
  ready broken again : Poll

unfoldable pub poll_of : Text → Poll
poll_of v = if v == codes "ready" then ready else if v == codes "unknown" then broken else again

abbrev pub value_or : Value → Option Value → Value
value_or d none = d
value_or d (some v) = v

module _ (P : Platform) where
  unfoldable pub ignore : Text → Exec (Devices P) (Unit {0})
  ignore loc d = (ok tt, record d { ignored = d.ignored ++ loc ∷ [] })

  unfoldable pub sleep : Exec (Devices P) (Unit {0})
  sleep d = (ok tt, record d { platform = P.sleep d.platform })

  unfoldable pub after_poll : Poll → Text → Exec (Devices P) Bool → Exec (Devices P) Bool
  unfolding ignore sleep
  after_poll ready loc next = pure true
  after_poll broken loc next = do ignore loc; pure true
  after_poll again loc next = do sleep; next

  -- `while True` in init(loc); false where the fuel ran out
  unfoldable pub wait_ready : ℕ → ℕ → Text → Exec (Devices P) Bool
  unfolding on_platform after_poll
  wait_ready zero m loc = pure false
  wait_ready (suc fuel) m loc = do
    v ← on_platform P (P.get (tai_module m) (codes "oper-status"))
    after_poll (poll_of v) loc (wait_ready fuel m loc)

  -- init(loc)
  unfoldable pub init_module : ℕ → P.Config → Text → Exec (Devices P) Bool
  unfolding on_platform set_tributary_mapping lower_value wait_ready
  init_module fuel config loc = do
    m ← on_platform P (P.get_module loc)
    set_tributary_mapping P m config
    v ← on_platform P (
        P.running_leaf
          (gearbox_xpath ++ (codes "[name='" ++ (loc ++ codes "']/config/admin-status"))))
    let admin_status = value_or (text (codes "UP")) v
    t ← lift (lower_value admin_status)
    on_platform P (P.set (tai_module m) (codes "admin-status") t)
    if is_text admin_status (codes "UP") then wait_ready fuel m loc else pure true

  unfoldable pub init_all : ℕ → P.Config → List Text → Exec (Devices P) Bool
  unfolding init_module
  init_all fuel config [] = pure true
  init_all fuel config (loc ∷ l) = do
    done ← init_module fuel config loc
    rest ← init_all fuel config l
    pure (if done then rest else false)

  abbrev pub config_or_empty : Option P.Config → P.Config
  config_or_empty none = P.empty
  config_or_empty (some c) = c

  -- GearboxServer.reconcile
  unfoldable pub reconcile : ℕ → Exec (Devices P) Bool
  unfolding on_platform list_modules learn_oids init_all
  reconcile fuel = do
    modules ← list_modules P
    learn_oids P (keys modules)
    config ← on_platform P (P.running_config gearbox_xpath)
    init_all fuel (config_or_empty config) (keys modules)
