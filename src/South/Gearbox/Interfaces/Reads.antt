-- ===== src/South/Gearbox/Interfaces/Reads.antt =====
-- What `oper_cb_intf` of
-- src/south/gearbox/goldstone/south/gearbox/interfaces.py reads of an interface.
use goldstone_mgmt.Base.{
  ℕ, Bool, true, false, Option, none, some, List, [], ◌∷◌, Result, ok, err, tai_exception,
  value_error, if◌then◌else◌, ◌==◌, text_eq, ◌++◌,
}
use goldstone_mgmt.Base.Dict.{Dict}
use goldstone_mgmt.Base.Exec.{Exec, pure, lift, ◌>>=◌}
use goldstone_mgmt.Base.Text.{Text, codes}
use goldstone_mgmt.South.Gearbox.{Platform, Value, truthy, Object, netif, hostif, item}
use goldstone_mgmt.South.Gearbox.Counters.{Common, Pcs, parse_counters}
use goldstone_mgmt.South.Gearbox.Counters.Macsec.{Direction, parse_macsec_counters}
use goldstone_mgmt.South.Gearbox.Devices.{if_xpath}

-- the ten attributes that are read together
pub record Read : Type 0 where
  pub prov_mode : Text
  pub signal_rate : Text
  pub connected : Text
  pub mfi_type : Text
  pub fec_type : Text
  pub mtu : Text
  pub tx_timing_mode : Text
  pub current_tx_timing_mode : Text
  pub oper_status : Text
  pub pin_mode : Text

-- the assignment to ten names
unfoldable pub read_of : List Text → Result Read
read_of (a ∷ b ∷ c ∷ d ∷ e ∷ f ∷ g ∷ h ∷ i ∷ j ∷ []) = ok (record {
  prov_mode = a;
  signal_rate = b;
  connected = c;
  mfi_type = d;
  fec_type = e;
  mtu = f;
  tx_timing_mode = g;
  current_tx_timing_mode = h;
  oper_status = i;
  pin_mode = j;
})
read_of _ = err value_error

-- the counters that `parse_counters` returned, if it was reached
abbrev pub Counted : Type 0
Counted = Option (Common × Pcs × Dict Text ℕ)

-- `if mac_counters`
unfoldable pub mac_of : Counted → Option (Dict Text ℕ)
mac_of (some (common, pcs, x ∷ mac)) = some (x ∷ mac)
mac_of _ = none

unfoldable pub pcs_counters : Counted → Option Pcs
pcs_counters none = none
pcs_counters (some (common, pcs, mac)) = some pcs

abbrev pub common_counters : Counted → Option Common
common_counters none = none
common_counters (some (common, pcs, mac)) = some common

module _ (P : Platform) where
  -- a try statement whose `except taish.TAIException` only logs
  unfoldable pub attempt : {A : Type 0} → Exec P.State A → Exec P.State (Option A)
  attempt m s =
      let (r, s') = m s in
      (elim r [ ok a ↦ ok (some a) | err tai_exception ↦ ok none | err e ↦ err e ], s')

  -- the counters of the interface
  unfoldable pub count : Object → Exec P.State Counted
  unfolding attempt parse_counters
  count obj = attempt do
    attrs ←
        P.get_multiple obj
          (codes "pmon-enet-mac-rx" ∷ codes "pmon-enet-mac-tx" ∷ codes "pmon-enet-phy-rx" ∷ [])
    lift (parse_counters attrs)

  unfoldable pub read : Object → Exec P.State Read
  unfolding read_of
  read obj = do
    l ← P.get_multiple obj (
        codes "provision-mode"
        ∷ codes "signal-rate"
        ∷ codes "connected-interface"
        ∷ codes "otn-mfi-type"
        ∷ codes "fec-type"
        ∷ codes "mtu"
        ∷ codes "tx-timing-mode"
        ∷ codes "current-tx-timing-mode"
        ∷ codes "oper-status"
        ∷ codes "pin-mode"
        ∷ [])
    lift (read_of l)

  unfoldable pub loads_all : List Text → Result (List P.Json)
  loads_all [] = ok []
  loads_all (t ∷ ts) =
      let rest = loads_all ts in
      elim (P.loads_any t) [
        | err e ↦ err e
        | ok j ↦ elim rest [ err e ↦ err e | ok js ↦ ok (j ∷ js) ]
      ]

  unfoldable pub pcs_of : Object → Option Pcs → Exec P.State (Option (P.Json × P.Json × Option Pcs))
  unfolding attempt loads_all item
  pcs_of obj counters = attempt do
    l ← P.get_multiple_json obj (codes "pcs-status" ∷ codes "serdes-status" ∷ [])
    js ← lift (loads_all l)
    pcs ← lift (item js 0)
    serdes ← lift (item js 1)
    pure (pcs, serdes, counters)

  unfoldable pub macsec_counters : Object → Exec P.State (Option (Direction × Direction))
  unfolding attempt parse_macsec_counters
  macsec_counters obj = attempt do
    l ← P.get_multiple obj (
        codes "macsec-ingress-sa-stats"
        ∷ codes "macsec-egress-sa-stats"
        ∷ codes "macsec-ingress-secy-stats"
        ∷ codes "macsec-egress-secy-stats"
        ∷ codes "macsec-ingress-channel-stats"
        ∷ codes "macsec-egress-channel-stats"
        ∷ [])
    lift (parse_macsec_counters l)

  unfoldable pub macsec_of :
      Text → Object → Exec P.State (Option (Value × Option (Direction × Direction)))
  unfolding macsec_counters if_xpath
  macsec_of ifname (netif n) = do
    key ←
        P.running_leaf
          (if_xpath ifname ++ codes "/ethernet/goldstone-static-macsec:static-macsec/config/key")
    elim key [
      | none ↦ pure none
      | some k ↦
          if truthy k
          then (do counters ← macsec_counters (netif n); pure (some (k, counters)))
          else pure none
    ]
  macsec_of ifname _ = pure none

  unfoldable pub nego_of : Object → Exec P.State (Option (Bool × Option P.Json))
  unfolding attempt
  nego_of (hostif n) = do
    enabled ← P.get (hostif n) (codes "auto-negotiation")
    if enabled == codes "true"
        then (do
          status ←
              attempt (do t ← P.get_json (hostif n) (codes "anlt-defect"); lift (P.loads_any t))
          pure (some (true, status)))
        else pure (some (false, none))
  nego_of _ = pure none

  unfoldable pub ber_of : Object → Exec P.State (Option Text)
  unfolding attempt
  ber_of obj = attempt do t ← P.get obj (codes "current-prbs-ber"); lift (P.encode_float t)
