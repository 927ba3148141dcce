-- ===== src/Openconfig/Names/Parse.antt =====
-- The names that ComponentNameResolver of src/xlate/openconfig/goldstone/xlate/openconfig/platform.py
-- makes, read back.
mod Tests
use goldstone_mgmt.Base.{
  ℕ, zero, suc, ◌-◌, ◌≡◌, refl, sym, ap, ◌∙◌, Bool, true, false, ◌||◌, Option, none, some, List, [],
  ◌∷◌, ◌++◌, Result, ok, err, ==_refl, nat_eq, length, arith,
}
use goldstone_mgmt.Base.Text.{Text, codes, split, join, cons_first, contains}
use goldstone_mgmt.Openconfig.Names.{
  starts_with, split_from, split_on, second, all_but_last, last, terminal_line_port,
  line_transceiver, terminal_client_port, client_transceiver, parse_oc_terminal_line_port,
  parse_oc_line_transceiver, parse_oc_terminal_client_port, parse_oc_client_transceiver,
}

-- `sep in s`
unfoldable pub occurs : Text → Text → Bool
unfolding starts_with
occurs sep [] = false
occurs sep (c ∷ s) = starts_with sep (c ∷ s) || occurs sep s

starts_with-append : (p s : Text) → starts_with p (p ++ s) ≡ true
unfolding starts_with
starts_with-append [] s = refl
starts_with-append (c ∷ p) s = ground (arith, starts_with-append p s, ==_refl c)

split_from-skip :
    (sep p s : Text) (k : ℕ) → k ≡ length p → split_from sep k (p ++ s) ≡ split_from sep zero s
unfolding split_from
split_from-skip sep [] s k e = ap (λ n. split_from sep n s) e
split_from-skip sep (c ∷ p) s zero e = absurd (omega (arith, e))
split_from-skip sep (c ∷ p) s (suc k) e = split_from-skip sep p s k (omega (arith, e))

split_from-whole : (sep s : Text) → occurs sep s ≡ false → split_from sep zero s ≡ s ∷ []
unfolding split_from occurs
split_from-whole sep [] h = refl
split_from-whole sep (c ∷ s) h = ground (arith, h, split_from-whole sep s)

split_from-match :
    (sep : Text) (c : ℕ) (s : Text)
    → starts_with sep (c ∷ s) ≡ true
    → split_from sep zero (c ∷ s) ≡ [] ∷ split_from sep (length sep - 1) s
unfolding split_from
split_from-match sep c s h = rw (h, split_from) refl

pub split_on-path :
    (c : ℕ) (p s : Text) → occurs (c ∷ p) s ≡ false → split_on (c ∷ p) ((c ∷ p) ++ s) ≡ [] ∷ s ∷ []
unfolding split_on
split_on-path c p s h =
    split_from-match (c ∷ p) c (p ++ s) (starts_with-append (c ∷ p) s)
    ∙ ap (λ l. [] ∷ l)
        (split_from-skip (c ∷ p) p s (length (c ∷ p) - 1) (omega arith)
          ∙ split_from-whole (c ∷ p) s h)

pub split-whole : (sep : ℕ) (s : Text) → contains sep s ≡ false → split sep s ≡ s ∷ []
unfolding split contains
split-whole sep [] h = refl
split-whole sep (c ∷ s) h = ground (arith, h, split-whole sep s)

Parts : ℕ → Text → List Text → Text → Type 0
Parts sep s l t = (join sep (all_but_last l) ≡ s) × (last l ≡ ok t)

line_port-path :
    (name s : Text)
    → split_on (codes "line-") name ≡ [] ∷ s ∷ []
    → parse_oc_terminal_line_port name ≡ ok s
unfolding parse_oc_terminal_line_port second
line_port-path name s e = rw (e, parse_oc_terminal_line_port) refl

line_transceiver-path :
    (name s m : Text)
    → split_on (codes "transceiver-") name ≡ [] ∷ s ∷ []
    → parse_oc_terminal_line_port s ≡ ok m
    → parse_oc_line_transceiver name ≡ ok m
unfolding parse_oc_line_transceiver second
line_transceiver-path name s m e k = rw (e, parse_oc_line_transceiver, k) refl

client_port-path :
    (name s : Text)
    → split_on (codes "client-") name ≡ [] ∷ s ∷ []
    → parse_oc_terminal_client_port name ≡ ok s
unfolding parse_oc_terminal_client_port second
client_port-path name s e = rw (e, parse_oc_terminal_client_port) refl

client_transceiver-path :
    (name s m : Text)
    → split_on (codes "transceiver-") name ≡ [] ∷ s ∷ []
    → parse_oc_terminal_client_port s ≡ ok m
    → parse_oc_client_transceiver name ≡ ok m
unfolding parse_oc_client_transceiver second
client_transceiver-path name s m e k = rw (e, parse_oc_client_transceiver, k) refl

-- A line port's and a line transceiver's name read back as the module's name, when that holds neither
-- of the prefixes.
pub parse_oc-line :
    (m : Text)
    → occurs (codes "line-") m ≡ false
    → occurs (codes "transceiver-") m ≡ false
    → (parse_oc_terminal_line_port (terminal_line_port m) ≡ ok m)
      × (parse_oc_line_transceiver (line_transceiver m) ≡ ok m)
unfolding terminal_line_port line_transceiver
parse_oc-line m a b =
    let port = line_port-path (codes "line-" ++ m) m (split_on-path b'l' (codes "ine-") m a) in
    (
      port,
      line_transceiver-path (codes "transceiver-" ++ (codes "line-" ++ m)) (codes "line-" ++ m) m
          (split_on-path b't' (codes "ransceiver-") (codes "line-" ++ m)
            (unfold occurs starts_with in b))
          port,
    )

-- A client port's and a client transceiver's name read back as the component's name, when that holds
-- neither of the prefixes.
pub parse_oc-client :
    (c : Text)
    → occurs (codes "client-") c ≡ false
    → occurs (codes "transceiver-") c ≡ false
    → (parse_oc_terminal_client_port (terminal_client_port c) ≡ ok c)
      × (parse_oc_client_transceiver (client_transceiver c) ≡ ok c)
unfolding terminal_client_port client_transceiver
parse_oc-client c a b =
    let port =
      client_port-path (codes "client-" ++ c) c (split_on-path b'c' (codes "lient-") c a) in
    (
      port,
      client_transceiver-path (codes "transceiver-" ++ (codes "client-" ++ c))
          (codes "client-" ++ c) c
          (split_on-path b't' (codes "ransceiver-") (codes "client-" ++ c)
            (unfold occurs starts_with in b))
          port,
    )
