-- ===== src/South/Gearbox/Interfaces/Modes.antt =====
-- How an interface is provisioned, in src/south/gearbox/goldstone/south/gearbox/interfaces.py: by the
-- handler of its admin status, by that of its type, and by the reconciliation.
use goldstone_mgmt.Base.{◌≡◌, refl, false, Option, some, List, ◌++◌, Result, ok, text_eq, arith}
use goldstone_mgmt.Base.Dict
use goldstone_mgmt.Base.Text.{Text, codes}
use goldstone_mgmt.South.Gearbox.{Platform, Value, text, is_text, lower_value}
use goldstone_mgmt.South.Gearbox.Info.{get_default}
use goldstone_mgmt.South.Gearbox.Devices.{default_of, if_xpath, provisioning, mode_of}
use goldstone_mgmt.South.Gearbox.Handlers.{World, on_devices, setup_cache}
use goldstone_mgmt.South.Gearbox.Interfaces.{
  IfClass, mode_for, signal_rate, cached, admin_value, type_value,
}

-- The words of the two enumerations.
pub data Kind : Type 0 where
  otn ethernet : Kind

pub data Admin : Type 0 where
  up down : Admin

unfoldable pub kind_text : Kind → Text
kind_text otn = codes "IF_OTN"
kind_text ethernet = codes "IF_ETHERNET"

unfoldable pub admin_text : Admin → Text
admin_text up = codes "UP"
admin_text down = codes "DOWN"

-- The mode and the rate that an interface of a kind is to have.
unfoldable pub mode : Kind → Admin → Text
mode k down = codes "none"
mode otn up = codes "serdes-only"
mode ethernet up = codes "normal"

unfoldable pub rate : Kind → Text
rate otn = codes "otu4"
rate ethernet = codes "100-gbe"

module _ (P : Platform) where
  -- The request's configuration has the kind and the admin status of an interface.
  pub record IsConfigured (w : World P IfClass) (ifname : Text) (k : Kind) (a : Admin)
      : Type 0 where
    pub config : P.Config
    pub held : w.cache ≡ some config
    pub full : P.is_empty config ≡ false
    pub has_kind :
        P.leaf_of config (if_xpath ifname ++ codes "/config/interface-type")
        ≡ some (text (kind_text k))
    pub has_admin :
        P.leaf_of config (if_xpath ifname ++ codes "/config/admin-status")
        ≡ some (text (admin_text a))

  setup_cache-held :
      (w : World P IfClass) (c : P.Config)
      → w.cache ≡ some c
      → P.is_empty c ≡ false
      → setup_cache P IfClass w ≡ (ok c, w)
  unfolding setup_cache
  setup_cache-held w c held full = ground (arith, held, full)

  cached-leaf :
      (w : World P IfClass) (c : P.Config) (ifname leaf : Text) (v : Value) (d : Option Value)
      → w.cache ≡ some c
      → P.is_empty c ≡ false
      → get_default P w.devices.info leaf ifname ≡ ok d
      → P.leaf_of c (if_xpath ifname ++ (codes "/config/" ++ leaf)) ≡ some v
      → cached P ifname leaf w ≡ (ok v, w)
  unfolding cached default_of on_devices
  cached-leaf w c ifname leaf v d held full known found =
      rw (setup_cache-held w c held full, cached, known, found) refl

  module _ (w : World P IfClass) (ifname : Text) (k : Kind) (a : Admin)
      (h : IsConfigured w ifname k a) where
    cached-kind : cached P ifname (codes "interface-type") w ≡ (ok (text (kind_text k)), w)
    unfolding get_default
    cached-kind =
        cached-leaf w h.config ifname (codes "interface-type") _ _ h.held h.full refl h.has_kind

    cached-admin : cached P ifname (codes "admin-status") w ≡ (ok (text (admin_text a)), w)
    unfolding get_default
    cached-admin =
        cached-leaf w h.config ifname (codes "admin-status") _ _ h.held h.full refl h.has_admin

  admin-mode :
      (w : World P IfClass) (ifname : Text) (k : Kind) (a : Admin)
      → IsConfigured w ifname k a
      → admin_value P ifname (text (admin_text a)) w ≡ (ok (text (mode k a)), w)
  unfolding admin_value admin_text mode is_text mode_for kind_text
  admin-mode w ifname otn up h = rw (cached-kind w ifname otn up h, admin_value) refl
  admin-mode w ifname ethernet up h = rw (cached-kind w ifname ethernet up h, admin_value) refl
  admin-mode w ifname otn down h = refl
  admin-mode w ifname ethernet down h = refl

  type-mode :
      (w : World P IfClass) (ifname : Text) (k : Kind) (a : Admin)
      → IsConfigured w ifname k a
      → type_value P ifname (text (kind_text k)) (codes "provision-mode") w
        ≡ (ok (text (mode k a)), w)
  unfolding type_value admin_text mode is_text mode_for kind_text
  type-mode w ifname otn up h = rw (cached-admin w ifname otn up h, type_value) refl
  type-mode w ifname ethernet up h = rw (cached-admin w ifname ethernet up h, type_value) refl
  type-mode w ifname otn down h = rw (cached-admin w ifname otn down h, type_value) refl
  type-mode w ifname ethernet down h = rw (cached-admin w ifname ethernet down h, type_value) refl

  type-rate :
      (w : World P IfClass) (ifname : Text) (k : Kind)
      → type_value P ifname (text (kind_text k)) (codes "signal-rate") w ≡ (ok (text (rate k)), w)
  unfolding type_value kind_text rate signal_rate is_text
  type-rate w ifname otn = refl
  type-rate w ifname ethernet = refl

  -- The value of an attribute in a list for set_multiple.
  abbrev pub Sets : Result (Option (List (Text × Value))) → Text → Text → Type 0
  Sets (ok (some attrs)) name v = Dict.get attrs name ≡ some (text v)
  Sets _ name v = ⊥

  reconciled :
      (k : Kind) (a : Admin) (mfi : Text)
      → Sets
          (provisioning (text (kind_text k)) (text (admin_text a)) (text mfi))
          (codes "provision-mode")
          (mode k a)
        × Sets
            (provisioning (text (kind_text k)) (text (admin_text a)) (text mfi))
            (codes "signal-rate")
            (rate k)
  unfolding provisioning mode_of is_text lower_value kind_text admin_text mode rate Dict.get
  reconciled otn up mfi = (refl, refl)
  reconciled otn down mfi = (refl, refl)
  reconciled ethernet up mfi = (refl, refl)
  reconciled ethernet down mfi = (refl, refl)

  -- The handler of the admin status, the handler of the interface's type and the reconciliation
  -- give an interface the same provision mode, and the last two the same signal rate, for each kind
  -- and each admin status that the request's configuration has.
  pub modes_agree :
      (w : World P IfClass) (ifname mfi : Text) (k : Kind) (a : Admin)
      → IsConfigured w ifname k a
      → (admin_value P ifname (text (admin_text a)) w ≡ (ok (text (mode k a)), w))
        × (type_value P ifname (text (kind_text k)) (codes "provision-mode") w
            ≡ (ok (text (mode k a)), w))
        × (type_value P ifname (text (kind_text k)) (codes "signal-rate") w
            ≡ (ok (text (rate k)), w))
        × Sets
            (provisioning (text (kind_text k)) (text (admin_text a)) (text mfi))
            (codes "provision-mode")
            (mode k a)
        × Sets
            (provisioning (text (kind_text k)) (text (admin_text a)) (text mfi))
            (codes "signal-rate")
            (rate k)
  modes_agree w ifname mfi k a h =
      let r = reconciled k a mfi in
      (admin-mode w ifname k a h, type-mode w ifname k a h, type-rate w ifname k, r.0, r.1)
