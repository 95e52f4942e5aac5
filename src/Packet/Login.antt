-- ===== src/Packet/Login.antt =====
-- packet/login.go: the optional parameters of a login, and their defaults.
use twclient.Prelude.{ℕ, List, [], ◌∷◌, Option, none, some}
use twclient.Prelude.Int.{ℤ, negsuc}

pub record LoginConfig : Type 0 where
  pub skin : List ℕ
  pub country : ℤ
  pub password : List ℕ

-- "default"
abbrev pub default_skin : List ℕ
default_skin = 100 ∷ 101 ∷ 102 ∷ 97 ∷ 117 ∷ 108 ∷ 116 ∷ []

-- -1
abbrev pub default_country : ℤ
default_country = negsuc 0

abbrev pub LoginOption : Type 0
LoginOption = LoginConfig → LoginConfig

unfoldable pub with_login_skin : List ℕ → LoginOption
with_login_skin skin c = record c { skin = skin }

unfoldable pub with_login_country : ℤ → LoginOption
with_login_country country c = record c { country = country }

unfoldable pub with_login_password : List ℕ → LoginOption
with_login_password password c = record c { password = password }

-- The loop of `ApplyLoginOptions`; a nil option is ignored.
unfoldable pub apply_each : List (Option LoginOption) → LoginConfig → LoginConfig
apply_each [] cfg = cfg
apply_each (none ∷ opts) cfg = apply_each opts cfg
apply_each (some opt ∷ opts) cfg = apply_each opts (opt cfg)

unfoldable pub apply_login_options : List (Option LoginOption) → LoginConfig
apply_login_options opts =
    apply_each opts (record { skin = default_skin; country = default_country; password = [] })
