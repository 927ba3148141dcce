-- ===== src/Openconfig/Names.antt =====
-- ComponentNameResolver of src/xlate/openconfig/goldstone/xlate/openconfig/platform.py. A module, a
-- network interface and a component stand for their "name".
pub mod Parse
use goldstone_mgmt.Base.{
  ℕ, zero, suc, ◌-◌, Bool, true, false, Option, none, some, List, [], ◌∷◌, ◌++◌, Result, ok, err,
  index_error, if◌then◌else◌, ◌==◌, nat_eq, text_eq, length,
}
use goldstone_mgmt.Base.Text.{Text, codes, split, join, cons_first}

-- s.startswith(p)
unfoldable pub starts_with : Text → Text → Bool
starts_with [] s = true
starts_with (c ∷ p) [] = false
starts_with (c ∷ p) (d ∷ s) = let rest = starts_with p s in if c == d then rest else false

-- s.split(sep) for a separator of more code points; the number is how many are still to be skipped
unfoldable pub split_from : Text → ℕ → Text → List Text
split_from sep k [] = [] ∷ []
split_from sep (suc k) (c ∷ s) = split_from sep k s
split_from sep zero (c ∷ s) = elim (starts_with sep (c ∷ s)) [
  | true ↦ [] ∷ split_from sep (length sep - 1) s
  | false ↦ cons_first c (split_from sep zero s)
]

unfoldable pub split_on : Text → Text → List Text
unfolding split_from
split_on sep s = split_from sep zero s

-- l[1]
unfoldable pub second : List Text → Result Text
second (a ∷ b ∷ l) = ok b
second _ = err index_error

-- l[:-1] and l[-1]
unfoldable pub all_but_last : List Text → List Text
all_but_last [] = []
all_but_last (a ∷ []) = []
all_but_last (a ∷ b ∷ l) = a ∷ all_but_last (b ∷ l)

unfoldable pub last : List Text → Result Text
last [] = err index_error
last (a ∷ []) = ok a
last (a ∷ b ∷ l) = last (b ∷ l)

pub chassis : Text
chassis = codes "CHASSIS"

pub terminal_line_port : Text → Text
terminal_line_port m = codes "line-" ++ m

pub line_transceiver : Text → Text
unfolding terminal_line_port
line_transceiver m = codes "transceiver-" ++ terminal_line_port m

pub optical_channel : Text → Text → Text
unfolding line_transceiver
optical_channel m n = codes "och-" ++ (line_transceiver m ++ (codes "-" ++ n))

pub terminal_client_port : Text → Text
terminal_client_port c = codes "client-" ++ c

pub client_transceiver : Text → Text
unfolding terminal_client_port
client_transceiver c = codes "transceiver-" ++ terminal_client_port c

-- get_fan and get_power_supply
pub fan : Text → Text
fan c = c

pub power_supply : Text → Text
power_supply c = c

pub parse_oc_terminal_line_port : Text → Result Text
unfolding split_on second
parse_oc_terminal_line_port name = second (split_on (codes "line-") name)

pub parse_oc_line_transceiver : Text → Result Text
unfolding split_on second parse_oc_terminal_line_port
parse_oc_line_transceiver name = elim (second (split_on (codes "transceiver-") name)) [
  | err e ↦ err e
  | ok suffix ↦ parse_oc_terminal_line_port suffix
]

-- the module's name and the network interface's
pub with_network_interface : Result Text → Result Text → Result (Text × Text)
with_network_interface (err e) _ = err e
with_network_interface (ok m) (err e) = err e
with_network_interface (ok m) (ok n) = ok (m, n)

pub parse_oc_optical_channel : Text → Result (Text × Text)
unfolding split_on second all_but_last last parse_oc_line_transceiver with_network_interface
parse_oc_optical_channel name = elim (second (split_on (codes "och-") name)) [
  | err e ↦ err e
  | ok suffix ↦
      let tokens = split b'-' suffix in
      let transceiver = join b'-' (all_but_last tokens) in
      with_network_interface (parse_oc_line_transceiver transceiver) (last tokens)
]

pub parse_oc_terminal_client_port : Text → Result Text
unfolding split_on second
parse_oc_terminal_client_port name = second (split_on (codes "client-") name)

pub parse_oc_client_transceiver : Text → Result Text
unfolding split_on second parse_oc_terminal_client_port
parse_oc_client_transceiver name = elim (second (split_on (codes "transceiver-") name)) [
  | err e ↦ err e
  | ok suffix ↦ parse_oc_terminal_client_port suffix
]

-- the first part of `split` and its type of port
pub port_type_of : List Text → Option Text
port_type_of [] = none
port_type_of (p ∷ ps) =
    if p == codes "line"
    then some (codes "TERMINAL_LINE")
    else if p == codes "client"
    then some (codes "TERMINAL_CLIENT")
    else none

pub get_optical_port_type : Text → Option Text
unfolding port_type_of
get_optical_port_type name = port_type_of (split b'-' name)
