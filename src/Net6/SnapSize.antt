-- ===== src/Net6/SnapSize.antt =====
-- net6/snap.go: the object types of protocol 0.6 and their field counts.
use twclient.Prelude.{if◌then◌else◌}
use twclient.Prelude.Int.{ℤ, pos, negsuc, eq_ℤ}

-- The `Obj*` constants of net6/constants.go.
pub data Kind : Type 0 where
  player_input projectile laser pickup flag game_info game_data character_core character player_info
        client_info spectator_info common explosion spawn hammer_hit death sound_global sound_world
        damage_indicator unknown :
      Kind

unfoldable pub kind_of : ℤ → Kind
kind_of v =
    if eq_ℤ v (pos 1)
    then player_input
    else if eq_ℤ v (pos 2)
    then projectile
    else if eq_ℤ v (pos 3)
    then laser
    else if eq_ℤ v (pos 4)
    then pickup
    else if eq_ℤ v (pos 5)
    then flag
    else if eq_ℤ v (pos 6)
    then game_info
    else if eq_ℤ v (pos 7)
    then game_data
    else if eq_ℤ v (pos 8)
    then character_core
    else if eq_ℤ v (pos 9)
    then character
    else if eq_ℤ v (pos 10)
    then player_info
    else if eq_ℤ v (pos 11)
    then client_info
    else if eq_ℤ v (pos 12)
    then spectator_info
    else if eq_ℤ v (pos 13)
    then common
    else if eq_ℤ v (pos 14)
    then explosion
    else if eq_ℤ v (pos 15)
    then spawn
    else if eq_ℤ v (pos 16)
    then hammer_hit
    else if eq_ℤ v (pos 17)
    then death
    else if eq_ℤ v (pos 18)
    then sound_global
    else if eq_ℤ v (pos 19)
    then sound_world
    else if eq_ℤ v (pos 20)
    then damage_indicator
    else unknown

-- The `Size*` constants; -1 where the source returns it.
unfoldable pub size_of : Kind → ℤ
size_of player_input = pos 10
size_of projectile = pos 6
size_of laser = pos 5
size_of pickup = pos 4
size_of flag = pos 3
size_of game_info = pos 8
size_of game_data = pos 4
size_of character_core = pos 15
size_of character = pos 22
size_of player_info = pos 5
size_of client_info = pos 17
size_of spectator_info = pos 3
size_of common = pos 2
size_of explosion = pos 2
size_of spawn = pos 2
size_of hammer_hit = pos 2
size_of death = pos 3
size_of sound_global = pos 3
size_of sound_world = pos 3
size_of damage_indicator = pos 3
size_of unknown = negsuc 0

unfoldable pub snap_item_size : ℤ → ℤ
unfolding kind_of size_of
snap_item_size type_id = size_of (kind_of type_id)
