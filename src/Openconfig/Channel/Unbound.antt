-- ===== src/Openconfig/Channel/Unbound.antt =====
-- Where the handler of the operational mode in
-- src/xlate/openconfig/goldstone/xlate/openconfig/platform.py reads variables that are not bound.
use goldstone_mgmt.Base.{ℕ, ◌≡◌, refl, false, Option, none, ok, err, name_error}
use goldstone_mgmt.Base.Text.{Text, codes}
use goldstone_mgmt.Connector.Session.{Sysrepo, Session}
use goldstone_mgmt.Openconfig.Channel.{
  OperationalModes, Channel, operational_mode, setup, Attributes, read_leaf, mode_values, get_item,
  get_original, original_of, validate, netif_xpath,
}

module _ (S : Sysrepo) (number : ℕ → S.Data) (str : Text → S.Data)
    (field : S.Data → Text → Option S.Data) (sess : Session S) where
  -- A change of the mode of an interface that is there but has no config ends in a NameError.
  pub validate-unbound :
      (modes : OperationalModes) (a : Attributes S number str field sess) (c : Channel) (d : S.Data)
      (s s' : S.State)
      → a.kind ≡ operational_mode
      → setup a.name ≡ ok c
      → read_leaf S number str field sess (netif_xpath c) s ≡ (ok d, s')
      → S.is_none d ≡ false
      → field d (codes "config") ≡ none
      → validate S number str field sess modes a s ≡ (err name_error, s')
  unfolding validate get_original get_item original_of mode_values
  validate-unbound modes a c d s s' kind name found there empty =
      rw (validate, name, get_original, kind, found, there, empty) refl
