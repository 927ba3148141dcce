-- ===== src/South/Gearbox/Counters.antt =====
-- `parse_counters` of
-- src/south/gearbox/goldstone/south/gearbox/interfaces.py.
pub mod Totals
pub mod Labels
pub mod Macsec
use goldstone_mgmt.Base.{ℕ, List, [], ◌∷◌, ◌++◌, Result, ok, err, index_error}
use goldstone_mgmt.Base.Dict.{Dict}
use goldstone_mgmt.Base.Text.{Text, codes, split}
use goldstone_mgmt.South.Gearbox.{item, sum, slice}
use goldstone_mgmt.South.Gearbox.Names.{ints}

infixl 5 ◌>>=◌
abbrev pub ◌>>=◌ : {A B : Type 0} → Result A → (A → Result B) → Result B
ok a >>= f = f a
err e >>= f = err e

-- [int(v) for v in attrs[i].split(",")]
unfoldable pub counters_at : List Text → ℕ → Result (List ℕ)
unfolding item ints
counters_at attrs i = do t ← item attrs i; ints (split b',' t)

-- {k: l[i] for i, k in enumerate(names)}, for names that are all different
unfoldable pub labelled : List Text → List ℕ → Result (Dict Text ℕ)
labelled [] l = ok []
labelled (k ∷ ks) [] = err index_error
labelled (k ∷ ks) (n ∷ l) = do d ← labelled ks l; ok ((k, n) ∷ d)

pub record Common : Type 0 where
  pub in_octets : ℕ
  pub in_unicast_pkts : ℕ
  pub in_broadcast_pkts : ℕ
  pub in_multicast_pkts : ℕ
  pub in_errors : ℕ
  pub out_octets : ℕ
  pub out_unicast_pkts : ℕ
  pub out_broadcast_pkts : ℕ
  pub out_multicast_pkts : ℕ
  pub out_discards : ℕ
  pub out_errors : ℕ

unfoldable pub common_of : List ℕ → List ℕ → Result Common
unfolding item
common_of mac_rx mac_tx = do
  in_octets ← item mac_rx 0
  in_unicast ← item mac_rx 14
  in_broadcast ← item mac_rx 12
  in_multicast ← item mac_rx 13
  in_errors ← item mac_rx 4
  out_octets ← item mac_tx 0
  out_unicast ← item mac_tx 5
  out_broadcast ← item mac_tx 7
  out_multicast ← item mac_tx 6
  out_discards ← item mac_tx 29
  out_errors ← item mac_tx 4
  ok (record {
    in_octets = in_octets;
    in_unicast_pkts = in_unicast;
    in_broadcast_pkts = in_broadcast;
    in_multicast_pkts = in_multicast;
    in_errors = in_errors;
    out_octets = out_octets;
    out_unicast_pkts = out_unicast;
    out_broadcast_pkts = out_broadcast;
    out_multicast_pkts = out_multicast;
    out_discards = out_discards;
    out_errors = out_errors;
  })

pub record Pcs : Type 0 where
  pub bip_error : ℕ
  pub virtual_lane_loss : ℕ
  pub serdes_lane_fec_symbol_error : ℕ
  pub corrected_fec_error : ℕ
  pub uncorrected_fec_error : ℕ
  pub fec_symbol_error : ℕ
  pub fc_fec_corrected_error : ℕ
  pub fc_fec_uncorrected_error : ℕ
  pub sync_header_error : ℕ
  pub hiber : ℕ
  pub test_pattern_error : ℕ
  pub loss_of_block_lock : ℕ
  pub ber_elapsed_sec : ℕ
  pub ber_elapsed_usec : ℕ

unfoldable pub pcs_of : List ℕ → Result Pcs
unfolding item sum slice
pcs_of phy_rx = do
  corrected ← item phy_rx 56
  uncorrected ← item phy_rx 57
  symbol ← item phy_rx 58
  sync ← item phy_rx 67
  hiber ← item phy_rx 68
  pattern_error ← item phy_rx 69
  block_lock ← item phy_rx 70
  seconds ← item phy_rx 71
  microseconds ← item phy_rx 72
  ok (record {
    bip_error = sum (slice 0 20 phy_rx);
    virtual_lane_loss = sum (slice 20 40 phy_rx);
    serdes_lane_fec_symbol_error = sum (slice 40 56 phy_rx);
    corrected_fec_error = corrected;
    uncorrected_fec_error = uncorrected;
    fec_symbol_error = symbol;
    fc_fec_corrected_error = sum (slice 59 63 phy_rx);
    fc_fec_uncorrected_error = sum (slice 63 67 phy_rx);
    sync_header_error = sync;
    hiber = hiber;
    test_pattern_error = pattern_error;
    loss_of_block_lock = block_lock;
    ber_elapsed_sec = seconds;
    ber_elapsed_usec = microseconds;
  })

unfoldable pub rx_names : List Text
rx_names =
    codes "rx-octets-all"
    ∷ codes "rx-octets-good"
    ∷ codes "rx-pkts-all"
    ∷ codes "rx-pkts-good"
    ∷ codes "rx-pkts-err"
    ∷ codes "rx-pkts-long"
    ∷ codes "rx-pkts-crc-err"
    ∷ codes "rx-pkts-all-crc-err"
    ∷ codes "rx-pkts-jabber"
    ∷ codes "rx-pkts-stomped"
    ∷ codes "rx-pkts-vlan"
    ∷ codes "rx-pkts-mac-ctrl"
    ∷ codes "rx-pkts-broadcast"
    ∷ codes "rx-pkts-multicast"
    ∷ codes "rx-pkts-unicast"
    ∷ codes "rx-pkts-0-63-b"
    ∷ codes "rx-pkts-64-b"
    ∷ codes "rx-pkts-65-127-b"
    ∷ codes "rx-pkts-128-255-b"
    ∷ codes "rx-pkts-256-511-b"
    ∷ codes "rx-pkts-512-1023-b"
    ∷ codes "rx-pkts-1024-1518-b"
    ∷ codes "rx-pkts-1519-2047-b"
    ∷ codes "rx-pkts-2048-4095-b"
    ∷ codes "rx-pkts-4096-8191-b"
    ∷ codes "rx-pkts-8192-max-b"
    ∷ codes "rx-err-blk"
    ∷ codes "rx-valid-err-blk"
    ∷ codes "rx-unknown-err-blk"
    ∷ codes "rx-inv-err-blk"
    ∷ codes "rx-pkts-pause"
    ∷ codes "rx-pkts-pause-pfc0"
    ∷ codes "rx-pkts-pfc1"
    ∷ codes "rx-pkts-pfc2"
    ∷ codes "rx-pkts-pfc3"
    ∷ codes "rx-pkts-pfc4"
    ∷ codes "rx-pkts-pfc5"
    ∷ codes "rx-pkts-pfc6"
    ∷ codes "rx-pkts-pfc7"
    ∷ codes "rx-pkts-link-pause"
    ∷ []

unfoldable pub tx_names : List Text
tx_names =
    codes "tx-octets-all"
    ∷ codes "tx-octets-good"
    ∷ codes "tx-pkts-all"
    ∷ codes "tx-pkts-good"
    ∷ codes "tx-pkts-err"
    ∷ codes "tx-pkts-unicast"
    ∷ codes "tx-pkts-multicast"
    ∷ codes "tx-pkts-broadcast"
    ∷ codes "tx-pkts-pause"
    ∷ codes "tx-pkts-pause-pfc0"
    ∷ codes "tx-pkts-pfc1"
    ∷ codes "tx-pkts-pfc2"
    ∷ codes "tx-pkts-pfc3"
    ∷ codes "tx-pkts-pfc4"
    ∷ codes "tx-pkts-pfc5"
    ∷ codes "tx-pkts-pfc6"
    ∷ codes "tx-pkts-pfc7"
    ∷ codes "tx-pkts-vlan"
    ∷ codes "tx-pkts-0-63-b"
    ∷ codes "tx-pkts-64-b"
    ∷ codes "tx-pkts-65-127-b"
    ∷ codes "tx-pkts-128-255-b"
    ∷ codes "tx-pkts-256-511-b"
    ∷ codes "tx-pkts-512-1023-b"
    ∷ codes "tx-pkts-1024-1518-b"
    ∷ codes "tx-pkts-1519-2047-b"
    ∷ codes "tx-pkts-2048-4095-b"
    ∷ codes "tx-pkts-4096-8191-b"
    ∷ codes "tx-pkts-8192-max-b"
    ∷ codes "tx-pkts-drained"
    ∷ codes "tx-pkts-jabbered"
    ∷ codes "tx-pkts-padded"
    ∷ codes "tx-pkts-trunc"
    ∷ []

unfoldable pub parse_counters : List Text → Result (Common × Pcs × Dict Text ℕ)
unfolding counters_at labelled common_of pcs_of rx_names tx_names
parse_counters attrs = do
  mac_rx ← counters_at attrs 0
  mac_tx ← counters_at attrs 1
  phy_rx ← counters_at attrs 2
  common ← common_of mac_rx mac_tx
  pcs ← pcs_of phy_rx
  rx ← labelled rx_names mac_rx
  tx ← labelled tx_names mac_tx
  ok (common, pcs, rx ++ tx)
