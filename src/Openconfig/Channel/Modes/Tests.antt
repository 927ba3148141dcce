-- ===== src/Openconfig/Channel/Modes/Tests.antt =====
-- The operational modes of src/xlate/openconfig/goldstone/xlate/openconfig/platform.py at a table of
-- two modes.
use goldstone_mgmt.Base.{ℕ, ◌≡◌, refl, some, [], ◌∷◌, ok, nat_eq, text_eq}
use goldstone_mgmt.Base.Dict
use goldstone_mgmt.Base.Dict.{Dict}
use goldstone_mgmt.Base.Text.{Text, codes}
use goldstone_mgmt.Openconfig.Channel.{Mode, OperationalModes, mode_of, transmission_mode}
use goldstone_mgmt.Openconfig.Channel.Modes.{
  operational_mode_of, operational_mode_of-transmission_mode,
}

abbrev mode : Text → Mode Text
mode rate = record {
  line_rate = rate;
  modulation_format = codes "dp-qpsk";
  fec_type = codes "ofec";
  client_signal_mapping_type = codes "zr";
}

abbrev entry : Text → Dict Text Text
entry rate =
    (codes "line-rate", rate)
    ∷ (codes "modulation-format", codes "dp-qpsk")
    ∷ (codes "fec-type", codes "ofec")
    ∷ (codes "client-signal-mapping-type", codes "zr")
    ∷ []

abbrev table : OperationalModes
table = (1, entry (codes "100g")) ∷ (2, entry (codes "400g")) ∷ []

operational_mode_of-transmission_mode_example :
    (k : ℕ) × (operational_mode_of table (mode (codes "400g")) ≡ ok (some k))
    × (transmission_mode table k ≡ some (mode (codes "400g")))
unfolding transmission_mode mode_of Dict.get
operational_mode_of-transmission_mode_example =
    operational_mode_of-transmission_mode table 2 (mode (codes "400g"))
      ((mode (codes "100g"), refl), refl, ((mode (codes "400g"), refl), refl, tt)) refl
