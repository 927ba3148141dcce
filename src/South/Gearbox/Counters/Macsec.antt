-- ===== src/South/Gearbox/Counters/Macsec.antt =====
-- `parse_macsec_counters` of src/south/gearbox/goldstone/south/gearbox/interfaces.py.
use goldstone_mgmt.Base.{ℕ, List, [], ◌∷◌, Result, ok}
use goldstone_mgmt.Base.Dict.{Dict}
use goldstone_mgmt.Base.Text.{Text, codes}
use goldstone_mgmt.South.Gearbox.Counters.{◌>>=◌, counters_at, labelled}

-- `counters["ingress"]` or `counters["egress"]`
pub record Direction : Type 0 where
  pub sa : Dict Text ℕ
  pub secy : Dict Text ℕ
  pub channel : Dict Text ℕ

unfoldable pub ingress_sa_names : List Text
ingress_sa_names =
    codes "packets-unchecked"
    ∷ codes "packets-delayed"
    ∷ codes "packets-late"
    ∷ codes "packets-ok"
    ∷ codes "packets-invalid"
    ∷ codes "packets-not-valid"
    ∷ codes "packets-not-using-sa"
    ∷ codes "packets-unused-sa"
    ∷ codes "octets-decrypted"
    ∷ codes "octets-validated"
    ∷ []

unfoldable pub egress_sa_names : List Text
egress_sa_names =
    codes "packets-entrypted-protected"
    ∷ codes "packets-too-long"
    ∷ codes "packets-sa-not-in-use"
    ∷ codes "octets-encrypted-protected"
    ∷ []

unfoldable pub ingress_secy_names : List Text
ingress_secy_names =
    codes "unicast-packets-uncontrolled"
    ∷ codes "multicast-packets-uncontrolled"
    ∷ codes "broadcast-packets-uncontrolled"
    ∷ codes "rx-drop-packets-uncontrolled"
    ∷ codes "rx-error-packets-uncontrolled"
    ∷ codes "unicast-packets-controlled"
    ∷ codes "multicast-packets-controlled"
    ∷ codes "broadcast-packets-controlled"
    ∷ codes "rx-drop-packets-controlled"
    ∷ codes "rx-error-packets-controlled"
    ∷ codes "total-bytes-uncontrolled"
    ∷ codes "total-bytes-controlled"
    ∷ codes "packets-transform-error"
    ∷ codes "control-packets"
    ∷ codes "untagged-packets"
    ∷ codes "no-tag-packets"
    ∷ codes "bad-tag-packets"
    ∷ codes "no-sci-match-packets"
    ∷ codes "unknown-sci-match-packets"
    ∷ codes "tagged-control-packets"
    ∷ []

unfoldable pub egress_secy_names : List Text
egress_secy_names =
    codes "unicast-packets-uncontrolled"
    ∷ codes "multicast-packets-uncontrolled"
    ∷ codes "broadcast-packets-uncontrolled"
    ∷ codes "rx-drop-packets-uncontrolled"
    ∷ codes "rx-error-packets-uncontrolled"
    ∷ codes "unicast-packets-controlled"
    ∷ codes "multicast-packets-controlled"
    ∷ codes "broadcast-packets-controlled"
    ∷ codes "rx-drop-packets-controlled"
    ∷ codes "rx-error-packets-controlled"
    ∷ codes "total-bytes-uncontrolled"
    ∷ codes "total-bytes-controlled"
    ∷ codes "packets-transform-error"
    ∷ codes "control-packets"
    ∷ codes "untagged-packets"
    ∷ []

unfoldable pub channel_names : List Text
channel_names =
    codes "multiple-rule-match"
    ∷ codes "header-parser-drop"
    ∷ codes "rule-mismatch"
    ∷ codes "control-packet-match"
    ∷ codes "data-packet-match"
    ∷ codes "dropped-packets"
    ∷ codes "in-error-packets"
    ∷ []

unfoldable pub parse_macsec_counters : List Text → Result (Direction × Direction)
unfolding counters_at labelled ingress_sa_names egress_sa_names ingress_secy_names egress_secy_names
    channel_names
parse_macsec_counters attrs = do
  ingress_sa ← counters_at attrs 0
  isa ← labelled ingress_sa_names ingress_sa
  egress_sa ← counters_at attrs 1
  esa ← labelled egress_sa_names egress_sa
  ingress_secy ← counters_at attrs 2
  isecy ← labelled ingress_secy_names ingress_secy
  egress_secy ← counters_at attrs 3
  esecy ← labelled egress_secy_names egress_secy
  ingress_channel ← counters_at attrs 4
  ichannel ← labelled channel_names ingress_channel
  egress_channel ← counters_at attrs 5
  echannel ← labelled channel_names egress_channel
  ok (
    record { sa = isa; secy = isecy; channel = ichannel },
    record { sa = esa; secy = esecy; channel = echannel },
  )
