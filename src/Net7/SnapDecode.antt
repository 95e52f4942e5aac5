-- ===== src/Net7/SnapDecode.antt =====
-- net7/snap_decode.go. The result is none where an index is out of range, which is a panic.
pub mod Cases
pub mod Total
use twclient.Prelude.{
  ℕ, ◌+◌, ◌<◌, ◌≤◌, ◌≡◌, refl, ap, sym, ◌∙◌, arith, List, [], ◌∷◌, ◌++◌, length, Bool, true, false,
  not, if◌then◌else◌, Option, none, some, ltb, leb, ◌==◌,
}
use twclient.Prelude.Int.{ℤ, pos, negsuc, eq_ℤ}
use twclient.Packet.Snap.{SnapItem, Snapshot}
use twclient.Packet.Objects.{Event, SnapObjects, no_objects, no_game_info, put, field, ◌>>=◌}
use twclient.Packet.Objects.{Event}
use twclient.Net7.SnapSize.{Kind, kind_of}
use twclient.Net7.SnapSize

-- `pickupType7ToCanonical`: the kind and the subtype.
unfoldable pub pickup_type7_to_canonical : ℤ → ℤ × ℤ
pickup_type7_to_canonical v =
    if eq_ℤ v (pos 0)
    then (pos 0, pos 0)
    else if eq_ℤ v (pos 1)
    then (pos 1, pos 0)
    else if eq_ℤ v (pos 2)
    then (pos 2, pos 3)
    else if eq_ℤ v (pos 3)
    then (pos 2, pos 2)
    else if eq_ℤ v (pos 4)
    then (pos 2, pos 4)
    else if eq_ℤ v (pos 6)
    then (pos 2, pos 1)
    else if eq_ℤ v (pos 7)
    then (pos 2, pos 0)
    else if eq_ℤ v (pos 5)
    then (pos 3, pos 5)
    else (pos 2, pos 0)

unfoldable pub put_character : SnapItem → SnapObjects → Option SnapObjects
put_character it out = if ltb (length it.fields) 22 then some out else do
  v0 ← field it.fields 0
  v1 ← field it.fields 1
  v2 ← field it.fields 2
  v3 ← field it.fields 3
  v4 ← field it.fields 4
  v5 ← field it.fields 5
  v6 ← field it.fields 6
  v7 ← field it.fields 7
  v8 ← field it.fields 8
  v9 ← field it.fields 9
  v10 ← field it.fields 10
  v11 ← field it.fields 11
  v12 ← field it.fields 12
  v13 ← field it.fields 13
  v14 ← field it.fields 14
  v15 ← field it.fields 15
  v16 ← field it.fields 16
  v17 ← field it.fields 17
  v18 ← field it.fields 18
  v19 ← field it.fields 19
  v20 ← field it.fields 20
  some (record out {
    characters =
        put it.id
          (record {
            tick = v0;
            x = v1;
            y = v2;
            vel_x = v3;
            vel_y = v4;
            angle = v5;
            direction = v6;
            jumped = v7;
            hooked_player = v8;
            hook_state = v9;
            hook_tick = v10;
            hook_x = v11;
            hook_y = v12;
            hook_dx = v13;
            hook_dy = v14;
            player_flags = pos 0;
            health = v15;
            armor = v16;
            ammo_count = v17;
            weapon = v18;
            emote = v19;
            attack_tick = v20;
          })
          out.characters;
  })

unfoldable pub put_player_info : SnapItem → SnapObjects → Option SnapObjects
put_player_info it out = if ltb (length it.fields) 3 then some out else do
  v0 ← field it.fields 0
  v1 ← field it.fields 1
  v2 ← field it.fields 2
  some (record out {
    players =
        put it.id
          (record {
            client_id = it.id;
            local = false;
            team = pos 0;
            score = v1;
            latency = v2;
            player_flags = v0;
          })
          out.players;
  })

unfoldable pub put_projectile : SnapItem → SnapObjects → Option SnapObjects
put_projectile it out = if ltb (length it.fields) 6 then some out else do
  v0 ← field it.fields 0
  v1 ← field it.fields 1
  v2 ← field it.fields 2
  v3 ← field it.fields 3
  v4 ← field it.fields 4
  v5 ← field it.fields 5
  some (record out {
    projectiles =
        out.projectiles
        ++ (record {
          id = it.id;
          x = v0;
          y = v1;
          vel_x = v2;
          vel_y = v3;
          kind = v4;
          start_tick = v5;
        })
          ∷ [];
  })

unfoldable pub put_laser : SnapItem → SnapObjects → Option SnapObjects
put_laser it out = if ltb (length it.fields) 5 then some out else do
  v0 ← field it.fields 0
  v1 ← field it.fields 1
  v2 ← field it.fields 2
  v3 ← field it.fields 3
  v4 ← field it.fields 4
  some (record out {
    lasers =
        out.lasers
        ++ (record { id = it.id; x = v0; y = v1; from_x = v2; from_y = v3; start_tick = v4 }) ∷ [];
  })

unfoldable pub put_pickup : SnapItem → SnapObjects → Option SnapObjects
put_pickup it out = if ltb (length it.fields) 3 then some out else do
  v0 ← field it.fields 0
  v1 ← field it.fields 1
  v2 ← field it.fields 2
  some (record out {
    pickups =
        out.pickups
        ++ (record {
          x = v0;
          y = v1;
          kind = (pickup_type7_to_canonical (v2)).0;
          subtype = (pickup_type7_to_canonical (v2)).1;
        })
          ∷ [];
  })

unfoldable pub put_flag : SnapItem → SnapObjects → Option SnapObjects
put_flag it out = if ltb (length it.fields) 3 then some out else do
  v0 ← field it.fields 0
  v1 ← field it.fields 1
  v2 ← field it.fields 2
  some (record out { flags = out.flags ++ (record { x = v0; y = v1; team = v2 }) ∷ [] })

unfoldable pub put_game_data : SnapItem → SnapObjects → Option SnapObjects
put_game_data it out = if ltb (length it.fields) 3 then some out else do
  v0 ← field it.fields 0
  v1 ← field it.fields 1
  v2 ← field it.fields 2
  some (record out {
    game_info = record no_game_info {
      round_start_tick = v0;
      game_state_flags = v1;
      game_state_end_tick = v2;
    };
    has_game_info = true;
  })

unfoldable pub put_game_data_team : SnapItem → SnapObjects → Option SnapObjects
put_game_data_team it out = if ltb (length it.fields) 2 then some out else do
  v0 ← field it.fields 0
  v1 ← field it.fields 1
  some (record out { game_data = record out.game_data { teamscore_red = v0; teamscore_blue = v1 } })

unfoldable pub put_game_data_flag : SnapItem → SnapObjects → Option SnapObjects
put_game_data_flag it out = if ltb (length it.fields) 4 then some out else do
  v0 ← field it.fields 0
  v1 ← field it.fields 1
  some (record out {
    game_data = record out.game_data { flag_carrier_red = v0; flag_carrier_blue = v1 };
    has_game_data = true;
  })

unfoldable pub put_spectator_info : SnapItem → SnapObjects → Option SnapObjects
put_spectator_info it out = if ltb (length it.fields) 4 then some out else do
  v0 ← field it.fields 0
  v1 ← field it.fields 1
  v2 ← field it.fields 2
  v3 ← field it.fields 3
  some (record out {
    spectator = record {
      spectator_id = if eq_ℤ (v0) (pos 0) then negsuc 0 else v1;
      x = v2;
      y = v3;
    };
    has_spectator = true;
  })

unfoldable pub put_explosion : SnapItem → SnapObjects → Option SnapObjects
put_explosion it out = if ltb (length it.fields) 2 then some out else do
  v0 ← field it.fields 0
  v1 ← field it.fields 1
  some (record out { events = out.events ++ Event.explosion (v0) (v1) ∷ [] })

unfoldable pub put_spawn : SnapItem → SnapObjects → Option SnapObjects
put_spawn it out = if ltb (length it.fields) 2 then some out else do
  v0 ← field it.fields 0
  v1 ← field it.fields 1
  some (record out { events = out.events ++ Event.spawn (v0) (v1) ∷ [] })

unfoldable pub put_hammer_hit : SnapItem → SnapObjects → Option SnapObjects
put_hammer_hit it out = if ltb (length it.fields) 2 then some out else do
  v0 ← field it.fields 0
  v1 ← field it.fields 1
  some (record out { events = out.events ++ Event.hammer_hit (v0) (v1) ∷ [] })

unfoldable pub put_death : SnapItem → SnapObjects → Option SnapObjects
put_death it out = if ltb (length it.fields) 3 then some out else do
  v0 ← field it.fields 0
  v1 ← field it.fields 1
  v2 ← field it.fields 2
  some (record out { events = out.events ++ Event.death (v0) (v1) (v2) ∷ [] })

unfoldable pub put_sound_world : SnapItem → SnapObjects → Option SnapObjects
put_sound_world it out = if ltb (length it.fields) 3 then some out else do
  v0 ← field it.fields 0
  v1 ← field it.fields 1
  v2 ← field it.fields 2
  some (record out { events = out.events ++ Event.sound_world (v0) (v1) (v2) ∷ [] })

unfoldable pub put_damage : SnapItem → SnapObjects → Option SnapObjects
put_damage it out = if ltb (length it.fields) 7 then some out else do
  v0 ← field it.fields 0
  v1 ← field it.fields 1
  v3 ← field it.fields 3
  some (record out { events = out.events ++ Event.damage_ind (v0) (v1) (v3) ∷ [] })

-- The `case` of a type.
unfoldable pub put_item : Kind → SnapItem → SnapObjects → Option SnapObjects
put_item SnapSize.character it out = put_character it out
put_item SnapSize.player_info it out = put_player_info it out
put_item SnapSize.projectile it out = put_projectile it out
put_item SnapSize.laser it out = put_laser it out
put_item SnapSize.pickup it out = put_pickup it out
put_item SnapSize.flag it out = put_flag it out
put_item SnapSize.game_data it out = put_game_data it out
put_item SnapSize.game_data_team it out = put_game_data_team it out
put_item SnapSize.game_data_flag it out = put_game_data_flag it out
put_item SnapSize.spectator_info it out = put_spectator_info it out
put_item SnapSize.explosion it out = put_explosion it out
put_item SnapSize.spawn it out = put_spawn it out
put_item SnapSize.hammer_hit it out = put_hammer_hit it out
put_item SnapSize.death it out = put_death it out
put_item SnapSize.sound_world it out = put_sound_world it out
put_item SnapSize.damage it out = put_damage it out
put_item _ it out = some out

unfoldable pub put_items : List SnapItem → SnapObjects → Option SnapObjects
put_items [] out = some out
put_items (it ∷ items) out = do out' ← put_item (kind_of it.type_id) it out; put_items items out'

unfoldable pub decode_snap : Snapshot → Option SnapObjects
decode_snap snap = put_items snap.items (no_objects snap.tick)
