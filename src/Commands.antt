-- ===== src/Commands.antt =====
-- main/src/river2_commands.c: the two commands that the firmware sends.
pub mod Arrival
pub mod Refused
mod Tests
use embed_beetroot_hw_2_7_pr.Prelude.{ℕ, Bool, true, false, List, [], ◌∷◌, if◌then◌else◌}
use embed_beetroot_hw_2_7_pr.Packet.Words.{river2_addr_mppt}
use embed_beetroot_hw_2_7_pr.Session.{Session}
use embed_beetroot_hw_2_7_pr.Auth.{Platform, Action, river2_send_command}

-- The filler leaves X-Boost as it is.
abbrev pub ac_payload : Bool → List ℕ
ac_payload enable = (if enable then 1 else 0) ∷ 0xFF ∷ 0xFF ∷ 0xFF ∷ 0xFF ∷ 0xFF ∷ 0xFF ∷ []

abbrev pub dc_payload : Bool → List ℕ
dc_payload enable = (if enable then 1 else 0) ∷ []

unfoldable pub river2_set_ac_output : Platform → Session → Bool → Action (Unit {0})
river2_set_ac_output p session enable =
    river2_send_command p session river2_addr_mppt 0x20 0x42 (ac_payload enable)

unfoldable pub river2_set_dc_output : Platform → Session → Bool → Action (Unit {0})
river2_set_dc_output p session enable =
    river2_send_command p session river2_addr_mppt 0x20 0x51 (dc_payload enable)
