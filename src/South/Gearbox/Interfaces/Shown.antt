-- ===== src/South/Gearbox/Interfaces/Shown.antt =====
-- What `oper_cb_intf` of src/south/gearbox/goldstone/south/gearbox/interfaces.py shows of an interface
-- that the change handlers have provisioned.
use mathlib.Core.Path.{subst}
use goldstone_mgmt.Base.{
  ◌≡◌, refl, sym, ap, ◌∙◌, false, Option, none, some, [], Result, ok, text_eq,
}
use goldstone_mgmt.Base.Exec.{bind-ok, lift}
use goldstone_mgmt.Base.Triple.{Returns, Returns-pure, Returns-bind}
use goldstone_mgmt.Base.Text.{Text, codes, int}
use goldstone_mgmt.South.Gearbox.{Platform, Value, text, Object, upper}
use goldstone_mgmt.South.Gearbox.Counters.Labels.{ok_inj}
use goldstone_mgmt.South.Gearbox.Handlers.{World}
use goldstone_mgmt.South.Gearbox.Interfaces.{IfClass, admin_value, type_value}
use goldstone_mgmt.South.Gearbox.Interfaces.Modes.{
  Kind, otn, ethernet, Admin, up, down, kind_text, admin_text, mode, rate, IsConfigured,
  modes_agree,
}
use goldstone_mgmt.South.Gearbox.Interfaces.Reads.{
  Read, Counted, count, read, common_counters, pcs_counters, pcs_of, macsec_of, nego_of, ber_of,
}
use goldstone_mgmt.South.Gearbox.Interfaces.State.{with_read, Intf, complete, counted_intf}

text_inj : {s t : Text} → ◌≡◌ {A = Result Value} (ok (text s)) (ok (text t)) → s ≡ t
text_inj h = cc

module _ (P : Platform) where
  abbrev pub speed_of : Intf P → Option Text
  speed_of i = elim i.ethernet [ none ↦ none | some e ↦ some e.speed ]

  -- An interface shows an admin status, and `otn` or the speed in `ethernet` for its kind and not
  -- the other.
  abbrev pub Shows : Kind → Admin → Read → Intf P → Type 0
  Shows otn a r i =
      (i.state.admin_status ≡ some (admin_text a))
      × (i.otn ≡ some (upper r.mfi_type))
      × (speed_of i ≡ none)
  Shows ethernet a r i =
      (i.state.admin_status ≡ some (admin_text a))
      × (i.otn ≡ none)
      × (speed_of i ≡ some (codes "SPEED_100G"))

  complete-Shows :
      (obj : Object) (counted : Counted) (r : Read) (i : Intf P) (k : Kind) (a : Admin)
      → i.state.admin_status ≡ some (admin_text a)
      → i.otn ≡ none
      → i.ethernet ≡ none
      → r.signal_rate ≡ rate k
      → Returns (Shows k a r) (complete P obj counted r i)
  unfolding complete rate
  complete-Shows obj counted r i otn a admin no_otn no_ethernet e =
      rw (e, complete) (Returns-pure _ (admin, refl, rw no_ethernet refl))
  complete-Shows obj counted r i ethernet a admin no_otn no_ethernet e =
      rw (e, complete)
        (Returns-bind (lift (int r.mtu)) λ mtu. Returns-bind (macsec_of P i.name obj) λ macsec.
          Returns-bind (nego_of P obj) λ nego.
            Returns-bind (pcs_of P obj (pcs_counters counted))
              λ pcs. Returns-bind (ber_of P obj) λ ber. Returns-pure _ (admin, no_otn, refl))

  shown_admin :
      (k : Kind) (a : Admin) (r : Read) (i : Intf P)
      → r.prov_mode ≡ mode k a
      → (with_read r i.state).admin_status ≡ some (admin_text a)
  unfolding with_read mode admin_text
  shown_admin k down r i e = rw (e, with_read) refl
  shown_admin otn up r i e = rw (e, with_read) refl
  shown_admin ethernet up r i e = rw (e, with_read) refl

  -- Let the ten attributes show the provision mode that the handler of the admin status gives an
  -- interface, and the signal rate that the handler of its type gives it. Then the interface that
  -- `oper_cb_intf` returns shows the configured admin status, and it shows an OTN interface's MFI
  -- type and no speed, or an Ethernet interface's speed and no MFI type, as it is configured.
  pub configured-shown :
      (w : World P IfClass) (ifname : Text) (k : Kind) (a : Admin)
      → IsConfigured P w ifname k a
      → (obj : Object) (s : P.State) (r : Read) (i j : Intf P) → i.otn ≡ none
      → i.ethernet ≡ none
      → (admin_value P ifname (text (admin_text a)) w).0 ≡ ok (text r.prov_mode)
      → (type_value P ifname (text (kind_text k)) (codes "signal-rate") w).0
        ≡ ok (text r.signal_rate)
      → (read P obj (count P obj s).1).0 ≡ ok r
      → (counted_intf P false obj i s).0 ≡ ok j
      → Shows k a r j
  unfolding counted_intf
  configured-shown w ifname k a known obj s r i j no_otn no_ethernet admin type_ e h =
      let (m, _, t, _, _) = modes_agree P w ifname [] k a known in
      let prov : r.prov_mode ≡ mode k a = text_inj (sym admin ∙ ap (λ x. x.0) m) in
      let sig : r.signal_rate ≡ rate k = text_inj (sym type_ ∙ ap (λ x. x.0) t) in
      let (counted, _, p) = bind-ok (count P obj) _ s j h in
      let h1 = sym (ap (λ x. x.0) p) ∙ h in
      let (r', e', q) = bind-ok (read P obj) _ (count P obj s).1 j h1 in
      let same : r ≡ r' = ok_inj (sym e ∙ e') in
      let i1 : Intf P = record i {
        state = record i.state { counters = common_counters counted };
      } in
      subst (λ x. Shows k a x j) (sym same)
        ((complete-Shows obj counted r' (record i1 { state = with_read r' i1.state }) k a
            (shown_admin k a r' i1 (rw same at prov)) no_otn no_ethernet (rw same at sig)).at
          (read P obj (count P obj s).1).1 j (sym (ap (λ x. x.0) q) ∙ h1))
