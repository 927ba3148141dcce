-- ===== src/South/Gearbox/Counters/Totals.antt =====
-- What `parse_counters` of src/south/gearbox/goldstone/south/gearbox/interfaces.py returns.
use goldstone_mgmt.Base.{ℕ, zero, suc, ◌+◌, ◌≡◌, refl, ap, ◌∙◌, List, [], ◌∷◌, ◌++◌, ok, arith}
use goldstone_mgmt.Base.Dict.{Dict}
use goldstone_mgmt.Base.Text.{Text}
use goldstone_mgmt.South.Gearbox.{item, sum, drop, take, slice}
use goldstone_mgmt.South.Gearbox.Counters.{
  labelled, Common, Pcs, common_of, pcs_of, parse_counters, counters_at, rx_names, tx_names,
}
use goldstone_mgmt.South.Gearbox.Counters.Labels.{>>=-ok, ok_inj, Agrees, common_of-Agrees}

-- The parts of a successful call.
record Parsed (attrs : List Text) (c : Common) (p : Pcs) (m : Dict Text ℕ) : Type 0 where
  mac_rx : List ℕ
  mac_tx : List ℕ
  phy_rx : List ℕ
  rx : Dict Text ℕ
  tx : Dict Text ℕ
  phy_read : counters_at attrs 2 ≡ ok phy_rx
  common : common_of mac_rx mac_tx ≡ ok c
  pcs : pcs_of phy_rx ≡ ok p
  in_rx : labelled rx_names mac_rx ≡ ok rx
  in_tx : labelled tx_names mac_tx ≡ ok tx
  joined : rx ++ tx ≡ m

parts_of :
    (attrs : List Text) (c : Common) (p : Pcs) (m : Dict Text ℕ)
    → parse_counters attrs ≡ ok (c, p, m)
    → Parsed attrs c p m
unfolding parse_counters
parts_of attrs c p m h =
    let r : Common × Pcs × Dict Text ℕ = (c, p, m) in
    let (mac_rx, e0, h0) = >>=-ok (counters_at attrs 0) _ r h in
    let (mac_tx, e1, h1) = >>=-ok (counters_at attrs 1) _ r h0 in
    let (phy_rx, e2, h2) = >>=-ok (counters_at attrs 2) _ r h1 in
    let (common, e3, h3) = >>=-ok (common_of mac_rx mac_tx) _ r h2 in
    let (pcs, e4, h4) = >>=-ok (pcs_of phy_rx) _ r h3 in
    let (rx, e5, h5) = >>=-ok (labelled rx_names mac_rx) _ r h4 in
    let (tx, e6, h6) = >>=-ok (labelled tx_names mac_tx) _ r h5 in
    let same = ok_inj h6 in
    record {
      mac_rx = mac_rx;
      mac_tx = mac_tx;
      phy_rx = phy_rx;
      rx = rx;
      tx = tx;
      phy_read = e2;
      common = e3 ∙ ap (λ r. ok r.0) same;
      pcs = e4 ∙ ap (λ r. ok r.1) same;
      in_rx = e5;
      in_tx = e6;
      joined = ap (λ r. r.2) same;
    }

take-zero : (l : List ℕ) → sum (take 0 l) ≡ 0
unfolding take sum
take-zero l = refl

take-nil : (n : ℕ) → take n [] ≡ []
unfolding take
take-nil zero = refl
take-nil (suc n) = refl

take-add : (a b : ℕ) (l : List ℕ) → sum (take (a + b) l) ≡ sum (take a l) + sum (take b (drop a l))
unfolding take drop sum
take-add zero b l = ground arith
take-add (suc a) b [] = ground (arith, take-nil (suc a + b), take-nil b)
take-add (suc a) b (x ∷ l) =
    let e : suc a + b ≡ suc (a + b) = omega arith in rw e (ground (arith, take-add a b l))

take-item : (i n : ℕ) (l : List ℕ) → item l i ≡ ok n → sum (take (i + 1) l) ≡ sum (take i l) + n
unfolding take sum item
take-item i n [] h = absurd (ground (arith, h))
take-item zero n (x ∷ l) h = ground (arith, h)
take-item (suc i) n (x ∷ l) h = ground (arith, take-item i n l h)

abbrev pub total : Pcs → ℕ
total p =
    p.bip_error + p.virtual_lane_loss + p.serdes_lane_fec_symbol_error + p.corrected_fec_error
    + p.uncorrected_fec_error + p.fec_symbol_error + p.fc_fec_corrected_error
    + p.fc_fec_uncorrected_error + p.sync_header_error + p.hiber + p.test_pattern_error
    + p.loss_of_block_lock + p.ber_elapsed_sec + p.ber_elapsed_usec

slices :
    (a b c d : ℕ) (l : List ℕ)
    → sum (take (a + b + c + d) l)
      ≡ sum (take a l)
        + sum (take b (drop a l))
        + sum (take c (drop (a + b) l))
        + sum (take d (drop (a + b + c) l))
slices a b c d l =
    take-add (a + b + c) d l
    ∙ ap (λ (t : ℕ). t + sum (take d (drop (a + b + c) l)))
        (take-add (a + b) c l ∙ ap (λ (t : ℕ). t + sum (take c (drop (a + b) l))) (take-add a b l))

items :
    (i a b c : ℕ) (l : List ℕ)
    → item l i ≡ ok a
    → item l (i + 1) ≡ ok b
    → item l (i + 2) ≡ ok c
    → sum (take (i + 3) l) ≡ sum (take i l) + a + b + c
items i a b c l e f g =
    ground (arith, take-item i a l e, take-item (i + 1) b l f, take-item (i + 2) c l g)

-- The sums of the parts that lie one after the other.
joined_parts :
    (l : List ℕ) (a b c d e f g h i : ℕ)
    → sum (take 59 l) ≡ sum (take 56 l) + a + b + c
    → sum (take 70 l) ≡ sum (take 67 l) + d + e + f
    → sum (take 73 l) ≡ sum (take 70 l) + g + h + i
    → sum (slice 0 20 l)
        + sum (slice 20 40 l)
        + sum (slice 40 56 l)
        + a
        + b
        + c
        + sum (slice 59 63 l)
        + sum (slice 63 67 l)
        + d
        + e
        + f
        + g
        + h
        + i
      ≡ sum (take 73 l)
unfolding slice
joined_parts l a b c d e f g h i p q r =
    ground (arith, slices 0 20 20 16 l, take-zero l, take-add 59 4 l, take-add 63 4 l)

pcs_of-total : (l : List ℕ) (p : Pcs) → pcs_of l ≡ ok p → total p ≡ sum (take 73 l)
unfolding pcs_of
pcs_of-total l p h =
    let (a0, e0, h0) = >>=-ok (item l 56) _ p h in
    let (a1, e1, h1) = >>=-ok (item l 57) _ p h0 in
    let (a2, e2, h2) = >>=-ok (item l 58) _ p h1 in
    let (a3, e3, h3) = >>=-ok (item l 67) _ p h2 in
    let (a4, e4, h4) = >>=-ok (item l 68) _ p h3 in
    let (a5, e5, h5) = >>=-ok (item l 69) _ p h4 in
    let (a6, e6, h6) = >>=-ok (item l 70) _ p h5 in
    let (a7, e7, h7) = >>=-ok (item l 71) _ p h6 in
    let (a8, e8, last) = >>=-ok (item l 72) _ p h7 in
    rw (← (ok_inj last)) (
      joined_parts l a0 a1 a2 a3 a4 a5 a6 a7 a8 (items 56 a0 a1 a2 l e0 e1 e2)
        (items 67 a3 a4 a5 l e3 e4 e5) (items 70 a6 a7 a8 l e6 e7 e8))

-- When a call succeeds, each common counter is the one that the dict of the MAC's counters holds
-- under the name of the same meaning, and the PCS counters together count what the first 73
-- counters of the third attribute do: each of those is in exactly one of them.
pub parse_counters_lem :
    (attrs : List Text) (c : Common) (p : Pcs) (m : Dict Text ℕ)
    → parse_counters attrs ≡ ok (c, p, m)
    → Agrees m c × ((l : List ℕ) × (counters_at attrs 2 ≡ ok l) × (total p ≡ sum (take 73 l)))
parse_counters_lem attrs c p m h =
    let r = parts_of attrs c p m h in
    (
      rw (← r.joined) (common_of-Agrees r.mac_rx r.mac_tx r.rx r.tx r.in_rx r.in_tx c r.common),
      (r.phy_rx, r.phy_read, pcs_of-total r.phy_rx p r.pcs),
    )
