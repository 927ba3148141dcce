-- ===== src/South/Gearbox/Tests/Counters.antt =====
-- The counters and the keys of the gearbox servers at concrete texts.
use goldstone_mgmt.Base.{ℕ, zero, suc, ◌≡◌, refl, List, [], ◌∷◌, ◌++◌, ok, nat_eq, text_eq, map}
use goldstone_mgmt.Base.Dict.{Dict}
use goldstone_mgmt.Base.Text.{Text, codes, split, int}
use goldstone_mgmt.South.Gearbox.{sum, take}
use goldstone_mgmt.South.Gearbox.Names.{ints}
use goldstone_mgmt.South.Gearbox.Counters.{
  parse_counters, counters_at, labelled, common_of, pcs_of, rx_names, tx_names, Common, Pcs,
}
use goldstone_mgmt.South.Gearbox.Counters.Labels.{Agrees}
use goldstone_mgmt.South.Gearbox.Counters.Totals.{parse_counters_lem, total}

-- n counters of the value 7
abbrev sevens : ℕ → Text
sevens zero = codes "7"
sevens (suc n) = codes "7," ++ sevens n

abbrev seven_attrs : List Text
seven_attrs = sevens 39 ∷ sevens 32 ∷ sevens 72 ∷ []

abbrev seven_common : Common
seven_common = record {
  in_octets = 7;
  in_unicast_pkts = 7;
  in_broadcast_pkts = 7;
  in_multicast_pkts = 7;
  in_errors = 7;
  out_octets = 7;
  out_unicast_pkts = 7;
  out_broadcast_pkts = 7;
  out_multicast_pkts = 7;
  out_discards = 7;
  out_errors = 7;
}

abbrev seven_pcs : Pcs
seven_pcs = record {
  bip_error = 140;
  virtual_lane_loss = 140;
  serdes_lane_fec_symbol_error = 112;
  corrected_fec_error = 7;
  uncorrected_fec_error = 7;
  fec_symbol_error = 7;
  fc_fec_corrected_error = 28;
  fc_fec_uncorrected_error = 28;
  sync_header_error = 7;
  hiber = 7;
  test_pattern_error = 7;
  loss_of_block_lock = 7;
  ber_elapsed_sec = 7;
  ber_elapsed_usec = 7;
}

abbrev seven_mac : Dict Text ℕ
unfolding rx_names tx_names
seven_mac = map (λ k. (k, 7)) (rx_names ++ tx_names)

parse_counters_lem_example :
    Agrees seven_mac seven_common
    × ((l : List ℕ) × (counters_at seven_attrs 2 ≡ ok l) × (total seven_pcs ≡ sum (take 73 l)))
unfolding parse_counters rx_names tx_names counters_at common_of pcs_of labelled split ints int
parse_counters_lem_example = parse_counters_lem seven_attrs seven_common seven_pcs seven_mac refl
