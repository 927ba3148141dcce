-- ===== src/Openconfig/Names/Parse/Tests.antt =====
-- The theorems about the component names of
-- src/xlate/openconfig/goldstone/xlate/openconfig/platform.py at concrete names.
use goldstone_mgmt.Base.{◌≡◌, refl, ok, nat_eq}
use goldstone_mgmt.Base.Text.{codes}
use goldstone_mgmt.Openconfig.Names.{
  starts_with, split_on, split_from, second, terminal_line_port, parse_oc_terminal_line_port,
}

-- A module whose name holds the prefix is not read back: "online-1" comes back as "on".
parse_online : parse_oc_terminal_line_port (terminal_line_port (codes "online-1")) ≡ ok (codes "on")
unfolding parse_oc_terminal_line_port terminal_line_port split_on split_from starts_with second
parse_online = refl
