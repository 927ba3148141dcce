-- ===== src/South/Gearbox/Interfaces/State.antt =====
-- The operational state of one interface, in
-- src/south/gearbox/goldstone/south/gearbox/interfaces.py: `oper_cb_intf`.
use goldstone_mgmt.Base.{
  ℕ, Bool, false, not, Option, none, some, List, [], ◌∷◌, ok, attribute_error, if◌then◌else◌, ◌==◌,
  text_eq,
}
use goldstone_mgmt.Base.Dict.{Dict}
use goldstone_mgmt.Base.Exec.{Exec, pure, raise, lift, ◌>>=◌}
use goldstone_mgmt.Base.Text.{Text, codes, int}
use goldstone_mgmt.Core.Handlers.{XpathStep}
use goldstone_mgmt.South.Gearbox.{Platform, Value, upper, Object, tai_module}
use goldstone_mgmt.South.Gearbox.Info.{Interface, info_for}
use goldstone_mgmt.South.Gearbox.Counters.{Common, Pcs}
use goldstone_mgmt.South.Gearbox.Counters.Macsec.{Direction}
use goldstone_mgmt.South.Gearbox.Devices.{Devices, on_platform, ifname2taiobj}
use goldstone_mgmt.South.Gearbox.Interfaces.Reads.{
  Read, Counted, mac_of, pcs_counters, common_counters, count, read, pcs_of, macsec_of, nego_of,
  ber_of,
}

-- `component-connection`: the component, and the module with the host interface
pub record ComponentConnection : Type 0 where
  pub component : Option Text
  pub transponder : Option (Text × Text)

-- `state` of the interface; none where a key is missing
pub record State : Type 0 where
  pub associated_gearbox : Text
  pub admin_status : Option Text
  pub oper_status : Option Text
  pub counters : Option Common
  pub is_connected : Option Bool
  pub pin_mode : Option Text
  pub prbs_ber : Option Text

-- `state` after the ten attributes
unfoldable pub with_read : Read → State → State
unfolding upper
with_read r s = record s {
  admin_status = some (if r.prov_mode == codes "none" then codes "DOWN" else codes "UP");
  oper_status =
      if r.oper_status == codes "unknown" then s.oper_status else some (upper r.oper_status);
  is_connected = some (not (r.connected == codes "oid:0x0"));
  pin_mode = some (upper r.pin_mode);
}

-- v in i["component-connection"]
abbrev pub connection_of : Option Interface → Option ComponentConnection
connection_of none = none
connection_of (some i) = some (record { component = i.component; transponder = i.tai })

-- len(xpath) == 3 and xpath[2][1] == leaf
unfoldable pub asks_for : Text → List XpathStep → Bool
asks_for leaf (x ∷ y ∷ z ∷ []) = z.name == leaf
asks_for leaf _ = false

module _ (P : Platform) where
  -- `ethernet` of the interface, its `synce`, `static-macsec`, `auto-negotiate` and `pcs` in it
  pub record Ethernet : Type 0 where
    pub fec : Text
    pub mtu : ℕ
    pub speed : Text
    pub tx_timing_mode : Text
    pub current_tx_timing_mode : Text
    pub counters : Option (Dict Text ℕ)
    pub macsec : Option (Value × Option (Direction × Direction))
    pub auto_negotiate : Option (Bool × Option P.Json)
    pub pcs : Option (P.Json × P.Json × Option Pcs)

  pub record Intf : Type 0 where
    pub name : Text
    pub state : State
    pub connection : Option ComponentConnection
    pub otn : Option Text
    pub ethernet : Option Ethernet

  -- `i` from the test of the signal rate on
  unfoldable pub complete : Object → Counted → Read → Intf → Exec P.State Intf
  unfolding upper pcs_of macsec_of nego_of ber_of mac_of pcs_counters
  complete obj counted r i =
      if r.signal_rate == codes "otu4"
      then pure (record i { otn = some (upper r.mfi_type) })
      else do
        mtu ← lift (int r.mtu)
        macsec ← macsec_of P i.name obj
        nego ← nego_of P obj
        pcs ← pcs_of P obj (pcs_counters counted)
        ber ← ber_of P obj
        pure (record i {
          ethernet = some (record {
            fec = upper r.fec_type;
            mtu = mtu;
            speed =
                if r.signal_rate == codes "100-gbe"
                then codes "SPEED_100G"
                else codes "SPEED_UNKNOWN";
            tx_timing_mode = r.tx_timing_mode;
            current_tx_timing_mode = r.current_tx_timing_mode;
            counters = mac_of counted;
            macsec = macsec;
            auto_negotiate = nego;
            pcs = pcs;
          });
          state = record i.state {
            oper_status = elim pcs [ none ↦ some (codes "DOWN") | some p ↦ i.state.oper_status ];
            prbs_ber = ber;
          };
        })

  -- `i` from the counters on
  unfoldable pub counted_intf : Bool → Object → Intf → Exec P.State Intf
  unfolding count read with_read complete
  counted_intf counter_only obj i = do
    counted ← count P obj
    let i1 = record i { state = record i.state { counters = common_counters counted } }
    if counter_only then pure i1 else (do
      r ← read P obj
      complete obj counted r (record i1 { state = with_read r i1.state }))

  -- `i` from the test of the module's admin status on
  unfoldable pub running_intf : Bool → ℕ → Object → Intf → Exec P.State Intf
  unfolding counted_intf
  running_intf counter_only m obj i = do
    admin ← P.get (tai_module m) (codes "admin-status")
    if admin == codes "up"
        then counted_intf counter_only obj i
        else pure (record i {
          state = record i.state {
            admin_status = some (codes "DOWN");
            oper_status = some (codes "DOWN");
          };
        })

  -- `obj.get`, for None too
  unfoldable pub pin_mode_of : Option Object → Exec P.State (Object × Text)
  pin_mode_of none = raise attribute_error
  pin_mode_of (some obj) = do p ← P.get obj (codes "pin-mode"); pure (obj, p)

  -- `i` at its start
  unfoldable pub named_intf : Text → Text → Intf
  named_intf ifname loc = record {
    name = ifname;
    state = record {
      associated_gearbox = loc;
      admin_status = none;
      oper_status = none;
      counters = none;
      is_connected = none;
      pin_mode = none;
      prbs_ber = none;
    };
    connection = none;
    otn = none;
    ethernet = none;
  }

  unfoldable pub oper_cb_intf : List XpathStep → Bool → Text → ℕ → Exec (Devices P) Intf
  unfolding asks_for ifname2taiobj on_platform pin_mode_of info_for running_intf named_intf
  oper_cb_intf xpath counter_only ifname m d =
      let i = named_intf ifname (P.location m d.platform) in
      if asks_for (codes "name") xpath
      then (ok i, d)
      else (do
        found ← ifname2taiobj P ifname
        at ← on_platform P (pin_mode_of found.0)
        let i1 = record i { connection = connection_of (info_for d.info ifname at.1) }
        if asks_for (codes "component-connection") xpath
            then pure i1
            else on_platform P (running_intf counter_only m at.0 i1))
          d
