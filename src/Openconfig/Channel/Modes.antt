-- ===== src/Openconfig/Channel/Modes.antt =====
-- The operational modes of src/xlate/openconfig/goldstone/xlate/openconfig/platform.py in both
-- directions: OpticalChannelOperationalModeHandler and OpticalChannel.
mod Tests
use goldstone_mgmt.Base.{
  ℕ, ◌≡◌, refl, sym, ap, ◌∙◌, ◌⊎◌, inl, inr, Bool, true, false, ◌&&◌, Bool-cases, Option-cases,
  Option, none, some, List, [], ◌∷◌, Result, ok, err, key_error, if◌then◌else◌, ◌==◌, ==_iff,
  ==_refl, nat_eq, text_eq, arith,
}
use goldstone_mgmt.Base.Dict
use goldstone_mgmt.Base.Dict.{Dict}
use goldstone_mgmt.Base.Text.{Text, codes}
use goldstone_mgmt.Openconfig.Channel.{Mode, OperationalModes, mode_of, transmission_mode, four}

-- `a == mode[key]` and the rest of the condition
pub agrees : Text → Option Text → Result Bool → Result Bool
agrees a none rest = err key_error
agrees a (some b) rest = if a == b then rest else ok false

pub matches : Mode Text → Dict Text Text → Result Bool
unfolding agrees
matches m d = agrees m.line_rate (Dict.get d (codes "line-rate")) (
    agrees m.modulation_format (Dict.get d (codes "modulation-format")) (
      agrees m.fec_type (Dict.get d (codes "fec-type")) (
        agrees m.client_signal_mapping_type (Dict.get d (codes "client-signal-mapping-type"))
          (ok true))))

pub first_match : ℕ → Result Bool → Result (Option ℕ) → Result (Option ℕ)
first_match id_ (err e) rest = err e
first_match id_ (ok true) rest = ok (some id_)
first_match id_ (ok false) rest = rest

-- OpticalChannel._operational_mode
pub operational_mode_of : OperationalModes → Mode Text → Result (Option ℕ)
unfolding matches first_match
operational_mode_of [] m = ok none
operational_mode_of ((id_, d) ∷ modes) m =
    first_match id_ (matches m d) (operational_mode_of modes m)

-- Every mode has its four values, and no number is given twice.
abbrev pub IsTable : OperationalModes → Type 0
IsTable [] = Unit {0}
IsTable ((n, d) ∷ modes) =
    ((m : Mode Text) × (mode_of d ≡ some m)) × (Dict.get modes n ≡ none) × IsTable modes

abbrev same : Mode Text → Mode Text → Bool
same m n =
    (m.line_rate == n.line_rate)
    && ((m.modulation_format == n.modulation_format)
        && ((m.fec_type == n.fec_type)
            && (m.client_signal_mapping_type == n.client_signal_mapping_type)))

agrees-four :
    (m n : Mode Text) (l k f c : Option Text)
    → four l k f c ≡ some n
    → agrees m.line_rate l (
        agrees m.modulation_format k
          (agrees m.fec_type f (agrees m.client_signal_mapping_type c (ok true))))
      ≡ ok (same m n)
unfolding agrees
agrees-four m n (some l) (some k) (some f) (some c) e = ground (arith, e)
agrees-four m n none k f c e = absurd (ground (arith, e))
agrees-four m n (some l) none f c e = absurd (ground (arith, e))
agrees-four m n (some l) (some k) none c e = absurd (ground (arith, e))
agrees-four m n (some l) (some k) (some f) none e = absurd (ground (arith, e))

matches-same :
    (m n : Mode Text) (d : Dict Text Text) → mode_of d ≡ some n → matches m d ≡ ok (same m n)
unfolding matches mode_of
matches-same m n d e = agrees-four m n _ _ _ _ e

same_iff : (m n : Mode Text) → same m n ≡ true → m ≡ n
same_iff m n h =
    let a : m.line_rate ≡ n.line_rate = ground (arith, h, ==_iff m.line_rate n.line_rate) in
    let b : m.modulation_format ≡ n.modulation_format =
      ground (arith, h, ==_iff m.modulation_format n.modulation_format) in
    let c : m.fec_type ≡ n.fec_type = ground (arith, h, ==_iff m.fec_type n.fec_type) in
    let d : m.client_signal_mapping_type ≡ n.client_signal_mapping_type =
      ground (arith, h, ==_iff m.client_signal_mapping_type n.client_signal_mapping_type) in
    λ i. record {
      line_rate = a i;
      modulation_format = b i;
      fec_type = c i;
      client_signal_mapping_type = d i;
    }

same_refl : (m : Mode Text) → same m m ≡ true
same_refl m =
    rw (==_refl m.line_rate, ==_refl m.modulation_format, ==_refl m.fec_type)
      (==_refl m.client_signal_mapping_type)

transmission-here :
    (j : ℕ) (d : Dict Text Text) (modes : OperationalModes)
    → transmission_mode ((j, d) ∷ modes) j ≡ mode_of d
unfolding transmission_mode Dict.get
transmission-here j d modes = rw (==_refl j, transmission_mode) refl

transmission-there :
    (j n : ℕ) (d : Dict Text Text) (modes : OperationalModes)
    → (j == n) ≡ false
    → transmission_mode ((j, d) ∷ modes) n ≡ transmission_mode modes n
unfolding transmission_mode Dict.get
transmission-there j n d modes e = rw (e, transmission_mode) refl

transmission-absent :
    (j : ℕ) (modes : OperationalModes) → Dict.get modes j ≡ none → transmission_mode modes j ≡ none
unfolding transmission_mode
transmission-absent j modes e = rw (e, transmission_mode) refl

some-inj : {A : Type 0} {a b : A} → some a ≡ some b → a ≡ b
some-inj e = ground (arith, e)

-- The mode that a number stands for is shown as a number that stands for the same mode, when the
-- table has the four values of each mode and every number once.
pub operational_mode_of-transmission_mode :
    (modes : OperationalModes) (n : ℕ) (m : Mode Text)
    → IsTable modes
    → transmission_mode modes n ≡ some m
    → (k : ℕ) × (operational_mode_of modes m ≡ ok (some k)) × (transmission_mode modes k ≡ some m)
unfolding operational_mode_of first_match
operational_mode_of-transmission_mode [] n m t h =
    absurd (ground (arith, h, transmission-absent n [] (unfold Dict.get in refl)))
operational_mode_of-transmission_mode ((j, d) ∷ modes) n m ((m', e), new, t) h =
    elim (Bool-cases (same m m')) [
      | inl agree ↦ (
        j,
        rw (matches-same m m' d e, agree) refl,
        transmission-here j d modes ∙ e ∙ ap some (sym (same_iff m m' agree)),
      )
      | inr differ ↦ elim (Bool-cases (j == n)) [
        | inl at ↦
            let known : mode_of d ≡ some m =
              sym (transmission-here j d modes)
              ∙ ap (λ i. transmission_mode ((j, d) ∷ modes) i) ((==_iff j n).0 at)
              ∙ h in
            let equal : m ≡ m' = some-inj (sym known ∙ e) in
            absurd (ground (arith, differ, ap (λ x. same m x) equal, same_refl m))
        | inr away ↦
            let (k, found, stands) =
              operational_mode_of-transmission_mode modes n m t
                (sym (transmission-there j n d modes away) ∙ h) in
            elim (Bool-cases (j == k)) [
              | inl clash ↦
                  let gone = transmission-absent j modes new in
                  absurd (
                    ground (
                      arith,
                      gone,
                      stands,
                      ap (λ i. transmission_mode modes i) ((==_iff j k).0 clash),
                    ))
              | inr apart ↦ (
                k,
                rw (matches-same m m' d e, differ) found,
                transmission-there j k d modes apart ∙ stands,
              )
            ]
      ]
    ]
