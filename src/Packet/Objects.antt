-- ===== src/Packet/Objects.antt =====
-- packet/snapobj.go: the canonical objects that both snapshot decoders fill, and the transient events
-- of packet/events_server.go among them. The field `Type` of the source is `kind` here. A map keyed
-- by a client id is a function to Option.
use twclient.Prelude.{
  ℕ, zero, suc, ◌<◌, ◌≡◌, refl, arith, List, [], ◌∷◌, length, get_or, get_elem?, Bool, false,
  if◌then◌else◌, Option, none, some,
}
use twclient.Prelude.Int.{ℤ, pos, eq_ℤ}

pub record Character : Type 0 where
  pub tick : ℤ
  pub x : ℤ
  pub y : ℤ
  pub vel_x : ℤ
  pub vel_y : ℤ
  pub angle : ℤ
  pub direction : ℤ
  pub jumped : ℤ
  pub hooked_player : ℤ
  pub hook_state : ℤ
  pub hook_tick : ℤ
  pub hook_x : ℤ
  pub hook_y : ℤ
  pub hook_dx : ℤ
  pub hook_dy : ℤ
  pub player_flags : ℤ
  pub health : ℤ
  pub armor : ℤ
  pub ammo_count : ℤ
  pub weapon : ℤ
  pub emote : ℤ
  pub attack_tick : ℤ

pub record Player : Type 0 where
  pub client_id : ℤ
  pub local : Bool
  pub team : ℤ
  pub score : ℤ
  pub latency : ℤ
  pub player_flags : ℤ

pub record Pickup : Type 0 where
  pub x : ℤ
  pub y : ℤ
  pub kind : ℤ
  pub subtype : ℤ

pub record Flag : Type 0 where
  pub x : ℤ
  pub y : ℤ
  pub team : ℤ

pub record Laser : Type 0 where
  pub id : ℤ
  pub x : ℤ
  pub y : ℤ
  pub from_x : ℤ
  pub from_y : ℤ
  pub start_tick : ℤ

pub record Projectile : Type 0 where
  pub id : ℤ
  pub x : ℤ
  pub y : ℤ
  pub vel_x : ℤ
  pub vel_y : ℤ
  pub kind : ℤ
  pub start_tick : ℤ

pub record SpectatorInfo : Type 0 where
  pub spectator_id : ℤ
  pub x : ℤ
  pub y : ℤ

pub record GameInfo : Type 0 where
  pub game_flags : ℤ
  pub game_state_flags : ℤ
  pub round_start_tick : ℤ
  pub warmup_timer : ℤ
  pub score_limit : ℤ
  pub time_limit : ℤ
  pub round_num : ℤ
  pub round_current : ℤ
  pub game_state_end_tick : ℤ

pub record GameData : Type 0 where
  pub teamscore_red : ℤ
  pub teamscore_blue : ℤ
  pub flag_carrier_red : ℤ
  pub flag_carrier_blue : ℤ

pub data Event : Type 0 where
  explosion spawn hammer_hit : ℤ → ℤ → Event
  death sound_world damage_ind : ℤ → ℤ → ℤ → Event

pub record SnapObjects : Type 0 where
  pub tick : ℤ
  pub characters : ℤ → Option Character
  pub players : ℤ → Option Player
  pub projectiles : List Projectile
  pub lasers : List Laser
  pub pickups : List Pickup
  pub flags : List Flag
  pub game_info : GameInfo
  pub game_data : GameData
  pub has_game_info : Bool
  pub has_game_data : Bool
  pub has_spectator : Bool
  pub spectator : SpectatorInfo
  pub events : List Event

abbrev pub no_game_info : GameInfo
no_game_info = record {
  game_flags = pos 0;
  game_state_flags = pos 0;
  round_start_tick = pos 0;
  warmup_timer = pos 0;
  score_limit = pos 0;
  time_limit = pos 0;
  round_num = pos 0;
  round_current = pos 0;
  game_state_end_tick = pos 0;
}

-- The value that a decoder starts from.
abbrev pub no_objects : ℤ → SnapObjects
no_objects tick = record {
  tick = tick;
  characters = λ id. none;
  players = λ id. none;
  projectiles = [];
  lasers = [];
  pickups = [];
  flags = [];
  game_info = no_game_info;
  game_data = record {
    teamscore_red = pos 0;
    teamscore_blue = pos 0;
    flag_carrier_red = pos 0;
    flag_carrier_blue = pos 0;
  };
  has_game_info = false;
  has_game_data = false;
  has_spectator = false;
  spectator = record { spectator_id = pos 0; x = pos 0; y = pos 0 };
  events = [];
}

-- `m[k] = v`
abbrev pub put : {A : Type 0} → ℤ → A → (ℤ → Option A) → ℤ → Option A
put k v m j = if eq_ℤ k j then some v else m j

-- A computation that panics is none.
infixl 5 ◌>>=◌
abbrev pub ◌>>=◌ : {A B : Type 0} → Option A → (A → Option B) → Option B
none >>= f = none
some a >>= f = f a

-- `f[i]`, which panics out of range.
abbrev pub field : List ℤ → ℕ → Option ℤ
field f i = get_elem? f i

-- `f[0]`, …, `f[n-1]` of fields that are long enough.
abbrev pub at : List ℤ → ℕ → ℤ
at f i = get_or f i (pos 0)

pub field_in : (f : List ℤ) (i : ℕ) → i < length f → field f i ≡ some (at f i)
field_in [] i h = absurd (omega arith)
field_in (v ∷ f) zero h = refl
field_in (v ∷ f) (suc i) h = field_in f i (omega arith)
