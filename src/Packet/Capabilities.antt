-- ===== src/Packet/Capabilities.antt =====
-- packet/capabilities.go: what a DDNet server says that it can do.
use twclient.Prelude.{ℕ, ◌/◌, ◌%◌, ◌==◌, Bool, false, not}
use twclient.Prelude.Int.{ℤ, pos, negsuc}

pub record ServerCapabilities : Type 0 where
  pub version : ℤ
  pub ddnet : Bool
  pub chat_timeout_code : Bool
  pub any_player_flag : Bool
  pub ping_ex : Bool
  pub allow_dummy : Bool
  pub sync_weapon_input : Bool

-- `flags&(1 << k) != 0`, on a two's complement integer; `d` is `1 << k`.
abbrev pub has_bit : ℤ → ℕ → Bool
has_bit (pos n) d = not (n / d % 2 == 0)
has_bit (negsuc n) d = n / d % 2 == 0

abbrev pub no_capabilities : ServerCapabilities
no_capabilities = record {
  version = pos 0;
  ddnet = false;
  chat_timeout_code = false;
  any_player_flag = false;
  ping_ex = false;
  allow_dummy = false;
  sync_weapon_input = false;
}

unfoldable pub parse_server_capabilities : ℤ → ℤ → ServerCapabilities
parse_server_capabilities version flags = record {
  version = version;
  ddnet = has_bit flags 1;
  chat_timeout_code = has_bit flags 2;
  any_player_flag = has_bit flags 4;
  ping_ex = has_bit flags 8;
  allow_dummy = has_bit flags 16;
  sync_weapon_input = has_bit flags 32;
}
