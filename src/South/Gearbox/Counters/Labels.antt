-- ===== src/South/Gearbox/Counters/Labels.antt =====
-- The counters by name and the common counters, of `parse_counters` of
-- src/south/gearbox/goldstone/south/gearbox/interfaces.py.
use goldstone_mgmt.Base.{
  ℕ, zero, suc, ◌≡◌, refl, ◌∙◌, false, Option, none, some, List, [], ◌∷◌, ◌++◌, Result, ok,
  if◌then◌else◌, ◌==◌, text_eq, arith, Result-cases, inl, inr,
}
use goldstone_mgmt.Base.Dict
use goldstone_mgmt.Base.Dict.{Dict, member}
use goldstone_mgmt.Base.Text.{Text, codes}
use goldstone_mgmt.South.Gearbox.{item}
use goldstone_mgmt.South.Gearbox.Counters.{◌>>=◌, labelled, Common, common_of, rx_names, tx_names}

-- Where a chain returns, its first part has returned.
pub >>=-ok :
    {A B : Type 0} (m : Result A) (f : A → Result B) (b : B)
    → (m >>= f) ≡ ok b
    → (a : A) × (m ≡ ok a) × (f a ≡ ok b)
>>=-ok m f b h = elim (Result-cases m) [
  | inl (a, e) ↦ (a, e, rw e at h)
  | inr (x, e) ↦ absurd (ground (arith, rw e at h))
]

pub ok_inj : {A : Type 0} {a b : A} → ◌≡◌ {A = Result A} (ok a) (ok b) → a ≡ b
ok_inj h = cc

-- the place of a name among the names
position : List Text → Text → Option ℕ
position [] k = none
position (j ∷ js) k =
    if j == k then some 0 else elim (position js k) [ none ↦ none | some i ↦ some (suc i) ]

labelled-get :
    (ks : List Text) (l : List ℕ) (d : Dict Text ℕ) (k : Text) (i n : ℕ)
    → labelled ks l ≡ ok d
    → position ks k ≡ some i
    → item l i ≡ ok n
    → Dict.get d k ≡ some n
unfolding labelled position item Dict.get
labelled-get [] l d k i n h p e = absurd (ground (arith, p))
labelled-get (j ∷ ks) [] d k i n h p e = absurd (ground (arith, h))
labelled-get (j ∷ ks) (m ∷ l) d k zero n h p e =
    let (d', made, last) = >>=-ok (labelled ks l) (λ d. ok ((j, m) ∷ d)) d h in
    ground (arith, last, p, e)
labelled-get (j ∷ ks) (m ∷ l) d k (suc i) n h p e =
    let (d', made, last) = >>=-ok (labelled ks l) (λ d. ok ((j, m) ∷ d)) d h in
    ground (arith, last, p, e, labelled-get ks l d' k i n made)

labelled-none :
    (ks : List Text) (l : List ℕ) (d : Dict Text ℕ) (k : Text)
    → labelled ks l ≡ ok d
    → member ks k ≡ false
    → Dict.get d k ≡ none
unfolding labelled member Dict.get
labelled-none [] l d k h p = ground (arith, h)
labelled-none (j ∷ ks) [] d k h p = absurd (ground (arith, h))
labelled-none (j ∷ ks) (m ∷ l) d k h p =
    let (d', made, last) = >>=-ok (labelled ks l) (λ d. ok ((j, m) ∷ d)) d h in
    ground (arith, last, p, labelled-none ks l d' k made)

get-append :
    (d e : Dict Text ℕ) (k : Text)
    → Dict.get (d ++ e) k ≡ elim (Dict.get d k) [ some v ↦ some v | none ↦ Dict.get e k ]
unfolding Dict.get
get-append [] e k = refl
get-append ((j, n) ∷ d) e k = ground (arith, get-append d e k)

-- The common counters are those that the dict has under the names of the same meaning.
abbrev pub Agrees : Dict Text ℕ → Common → Type 0
Agrees m c =
    (Dict.get m (codes "rx-octets-all") ≡ some c.in_octets)
    × (Dict.get m (codes "rx-pkts-unicast") ≡ some c.in_unicast_pkts)
    × (Dict.get m (codes "rx-pkts-broadcast") ≡ some c.in_broadcast_pkts)
    × (Dict.get m (codes "rx-pkts-multicast") ≡ some c.in_multicast_pkts)
    × (Dict.get m (codes "rx-pkts-err") ≡ some c.in_errors)
    × (Dict.get m (codes "tx-octets-all") ≡ some c.out_octets)
    × (Dict.get m (codes "tx-pkts-unicast") ≡ some c.out_unicast_pkts)
    × (Dict.get m (codes "tx-pkts-broadcast") ≡ some c.out_broadcast_pkts)
    × (Dict.get m (codes "tx-pkts-multicast") ≡ some c.out_multicast_pkts)
    × (Dict.get m (codes "tx-pkts-drained") ≡ some c.out_discards)
    × (Dict.get m (codes "tx-pkts-err") ≡ some c.out_errors)

-- What a successful call says of its counters: the names of the MAC's counters, in both directions.
module _ (mac_rx mac_tx : List ℕ) (rx tx : Dict Text ℕ) (in_rx : labelled rx_names mac_rx ≡ ok rx)
    (in_tx : labelled tx_names mac_tx ≡ ok tx) where
  received :
      (k : Text) (i n : ℕ)
      → position rx_names k ≡ some i
      → item mac_rx i ≡ ok n
      → Dict.get (rx ++ tx) k ≡ some n
  received k i n p e =
      get-append rx tx k ∙ rw (labelled-get rx_names mac_rx rx k i n in_rx p e) refl

  sent :
      (k : Text) (i n : ℕ)
      → member rx_names k ≡ false
      → position tx_names k ≡ some i
      → item mac_tx i ≡ ok n
      → Dict.get (rx ++ tx) k ≡ some n
  sent k i n f p e =
      get-append rx tx k
      ∙ rw (labelled-none rx_names mac_rx rx k in_rx f)
          (labelled-get tx_names mac_tx tx k i n in_tx p e)

  pub common_of-Agrees : (c : Common) → common_of mac_rx mac_tx ≡ ok c → Agrees (rx ++ tx) c
  unfolding common_of position rx_names tx_names member
  common_of-Agrees c h =
      let (a0, e0, h0) = >>=-ok (item mac_rx 0) _ c h in
      let (a1, e1, h1) = >>=-ok (item mac_rx 14) _ c h0 in
      let (a2, e2, h2) = >>=-ok (item mac_rx 12) _ c h1 in
      let (a3, e3, h3) = >>=-ok (item mac_rx 13) _ c h2 in
      let (a4, e4, h4) = >>=-ok (item mac_rx 4) _ c h3 in
      let (b0, f0, h5) = >>=-ok (item mac_tx 0) _ c h4 in
      let (b1, f1, h6) = >>=-ok (item mac_tx 5) _ c h5 in
      let (b2, f2, h7) = >>=-ok (item mac_tx 7) _ c h6 in
      let (b3, f3, h8) = >>=-ok (item mac_tx 6) _ c h7 in
      let (b4, f4, h9) = >>=-ok (item mac_tx 29) _ c h8 in
      let (b5, f5, last) = >>=-ok (item mac_tx 4) _ c h9 in
      rw (← (ok_inj last)) (
        received (codes "rx-octets-all") 0 a0 refl e0,
        received (codes "rx-pkts-unicast") 14 a1 refl e1,
        received (codes "rx-pkts-broadcast") 12 a2 refl e2,
        received (codes "rx-pkts-multicast") 13 a3 refl e3,
        received (codes "rx-pkts-err") 4 a4 refl e4,
        sent (codes "tx-octets-all") 0 b0 refl refl f0,
        sent (codes "tx-pkts-unicast") 5 b1 refl refl f1,
        sent (codes "tx-pkts-broadcast") 7 b2 refl refl f2,
        sent (codes "tx-pkts-multicast") 6 b3 refl refl f3,
        sent (codes "tx-pkts-drained") 29 b4 refl refl f4,
        sent (codes "tx-pkts-err") 4 b5 refl refl f5,
      )
