-- ===== src/Net7/SnapDecode/Cases.antt =====
-- Each case of `DecodeSnap` reads within the fields of its item.
use twclient.Prelude.{
  ℕ, ◌≤◌, ◌≡◌, refl, arith, [], ◌∷◌, ◌++◌, length, true, false, if◌then◌else◌, Option, some, ltb,
  leb, Bool-cases, inl, inr,
}
use twclient.Prelude.Int.{pos, negsuc, eq_ℤ}
use twclient.Packet.Snap.{SnapItem}
use twclient.Packet.Objects.{Event, SnapObjects, Character, no_game_info, put, at, field_in}
use twclient.Packet.Objects.{Event}
use twclient.Net7.SnapDecode.{
  put_character, put_player_info, put_projectile, put_laser, put_pickup, put_flag, put_game_data,
  put_game_data_team, put_game_data_flag, put_spectator_info, put_explosion, put_spawn,
  put_hammer_hit, put_death, put_sound_world, put_damage, pickup_type7_to_canonical,
}

not_short : (m n : ℕ) → ltb m n ≡ false → n ≤ m
not_short m n h = ground (arith, h)

-- There is a result; its characters and its tick are those before.
abbrev pub Keeps : SnapObjects → Option SnapObjects → Type 0
Keeps out r =
    (after : SnapObjects) × (r ≡ some after)
    × (after.characters ≡ out.characters)
    × (after.tick ≡ out.tick)

-- The character that the fields say.
abbrev pub character_of : SnapItem → Character
character_of it = record {
  tick = at it.fields 0;
  x = at it.fields 1;
  y = at it.fields 2;
  vel_x = at it.fields 3;
  vel_y = at it.fields 4;
  angle = at it.fields 5;
  direction = at it.fields 6;
  jumped = at it.fields 7;
  hooked_player = at it.fields 8;
  hook_state = at it.fields 9;
  hook_tick = at it.fields 10;
  hook_x = at it.fields 11;
  hook_y = at it.fields 12;
  hook_dx = at it.fields 13;
  hook_dy = at it.fields 14;
  player_flags = pos 0;
  health = at it.fields 15;
  armor = at it.fields 16;
  ammo_count = at it.fields 17;
  weapon = at it.fields 18;
  emote = at it.fields 19;
  attack_tick = at it.fields 20;
}

module _ (it : SnapItem) (out : SnapObjects) where
  abbrev pub with_character : SnapObjects
  with_character = record out { characters = put it.id (character_of it) out.characters }

  pub put_character_lem :
      put_character it out ≡ some (if leb 22 (length it.fields) then with_character else out)
  unfolding put_character
  put_character_lem = elim (Bool-cases (ltb (length it.fields) 22)) [
    | inl short ↦ rw (short, short_lem short)
    | inr long ↦ rw (
      long,
      long_lem long,
      field_in it.fields 0 (omega (arith, not_short (length it.fields) 22 long)),
      field_in it.fields 1 (omega (arith, not_short (length it.fields) 22 long)),
      field_in it.fields 2 (omega (arith, not_short (length it.fields) 22 long)),
      field_in it.fields 3 (omega (arith, not_short (length it.fields) 22 long)),
      field_in it.fields 4 (omega (arith, not_short (length it.fields) 22 long)),
      field_in it.fields 5 (omega (arith, not_short (length it.fields) 22 long)),
      field_in it.fields 6 (omega (arith, not_short (length it.fields) 22 long)),
      field_in it.fields 7 (omega (arith, not_short (length it.fields) 22 long)),
      field_in it.fields 8 (omega (arith, not_short (length it.fields) 22 long)),
      field_in it.fields 9 (omega (arith, not_short (length it.fields) 22 long)),
      field_in it.fields 10 (omega (arith, not_short (length it.fields) 22 long)),
      field_in it.fields 11 (omega (arith, not_short (length it.fields) 22 long)),
      field_in it.fields 12 (omega (arith, not_short (length it.fields) 22 long)),
      field_in it.fields 13 (omega (arith, not_short (length it.fields) 22 long)),
      field_in it.fields 14 (omega (arith, not_short (length it.fields) 22 long)),
      field_in it.fields 15 (omega (arith, not_short (length it.fields) 22 long)),
      field_in it.fields 16 (omega (arith, not_short (length it.fields) 22 long)),
      field_in it.fields 17 (omega (arith, not_short (length it.fields) 22 long)),
      field_in it.fields 18 (omega (arith, not_short (length it.fields) 22 long)),
      field_in it.fields 19 (omega (arith, not_short (length it.fields) 22 long)),
      field_in it.fields 20 (omega (arith, not_short (length it.fields) 22 long)),
    )
  ]
    where
      short_lem : ltb (length it.fields) 22 ≡ true → leb 22 (length it.fields) ≡ false
      short_lem h = ground (arith, h)

      long_lem : ltb (length it.fields) 22 ≡ false → leb 22 (length it.fields) ≡ true
      long_lem h = ground (arith, h)

  pub put_player_info-Keeps : Keeps out (put_player_info it out)
  unfolding put_player_info
  put_player_info-Keeps = elim (Bool-cases (ltb (length it.fields) 3)) [
    | inl short ↦ (out, (rw short), refl, refl)
    | inr long ↦ (
      record out {
        players =
            put it.id
              (record {
                client_id = it.id;
                local = false;
                team = pos 0;
                score = at it.fields 1;
                latency = at it.fields 2;
                player_flags = at it.fields 0;
              })
              out.players;
      },
      (rw (
        long,
        field_in it.fields 0 (omega (arith, not_short (length it.fields) 3 long)),
        field_in it.fields 1 (omega (arith, not_short (length it.fields) 3 long)),
        field_in it.fields 2 (omega (arith, not_short (length it.fields) 3 long)),
      )),
      refl,
      refl,
    )
  ]

  pub put_projectile-Keeps : Keeps out (put_projectile it out)
  unfolding put_projectile
  put_projectile-Keeps = elim (Bool-cases (ltb (length it.fields) 6)) [
    | inl short ↦ (out, (rw short), refl, refl)
    | inr long ↦ (
      record out {
        projectiles =
            out.projectiles
            ++ (record {
              id = it.id;
              x = at it.fields 0;
              y = at it.fields 1;
              vel_x = at it.fields 2;
              vel_y = at it.fields 3;
              kind = at it.fields 4;
              start_tick = at it.fields 5;
            })
              ∷ [];
      },
      (rw (
        long,
        field_in it.fields 0 (omega (arith, not_short (length it.fields) 6 long)),
        field_in it.fields 1 (omega (arith, not_short (length it.fields) 6 long)),
        field_in it.fields 2 (omega (arith, not_short (length it.fields) 6 long)),
        field_in it.fields 3 (omega (arith, not_short (length it.fields) 6 long)),
        field_in it.fields 4 (omega (arith, not_short (length it.fields) 6 long)),
        field_in it.fields 5 (omega (arith, not_short (length it.fields) 6 long)),
      )),
      refl,
      refl,
    )
  ]

  pub put_laser-Keeps : Keeps out (put_laser it out)
  unfolding put_laser
  put_laser-Keeps = elim (Bool-cases (ltb (length it.fields) 5)) [
    | inl short ↦ (out, (rw short), refl, refl)
    | inr long ↦ (
      record out {
        lasers =
            out.lasers
            ++ (record {
              id = it.id;
              x = at it.fields 0;
              y = at it.fields 1;
              from_x = at it.fields 2;
              from_y = at it.fields 3;
              start_tick = at it.fields 4;
            })
              ∷ [];
      },
      (rw (
        long,
        field_in it.fields 0 (omega (arith, not_short (length it.fields) 5 long)),
        field_in it.fields 1 (omega (arith, not_short (length it.fields) 5 long)),
        field_in it.fields 2 (omega (arith, not_short (length it.fields) 5 long)),
        field_in it.fields 3 (omega (arith, not_short (length it.fields) 5 long)),
        field_in it.fields 4 (omega (arith, not_short (length it.fields) 5 long)),
      )),
      refl,
      refl,
    )
  ]

  pub put_pickup-Keeps : Keeps out (put_pickup it out)
  unfolding put_pickup
  put_pickup-Keeps = elim (Bool-cases (ltb (length it.fields) 3)) [
    | inl short ↦ (out, (rw short), refl, refl)
    | inr long ↦ (
      record out {
        pickups =
            out.pickups
            ++ (record {
              x = at it.fields 0;
              y = at it.fields 1;
              kind = (pickup_type7_to_canonical (at it.fields 2)).0;
              subtype = (pickup_type7_to_canonical (at it.fields 2)).1;
            })
              ∷ [];
      },
      (rw (
        long,
        field_in it.fields 0 (omega (arith, not_short (length it.fields) 3 long)),
        field_in it.fields 1 (omega (arith, not_short (length it.fields) 3 long)),
        field_in it.fields 2 (omega (arith, not_short (length it.fields) 3 long)),
      )),
      refl,
      refl,
    )
  ]

  pub put_flag-Keeps : Keeps out (put_flag it out)
  unfolding put_flag
  put_flag-Keeps = elim (Bool-cases (ltb (length it.fields) 3)) [
    | inl short ↦ (out, (rw short), refl, refl)
    | inr long ↦ (
      record out {
        flags =
            out.flags
            ++ (record { x = at it.fields 0; y = at it.fields 1; team = at it.fields 2 }) ∷ [];
      },
      (rw (
        long,
        field_in it.fields 0 (omega (arith, not_short (length it.fields) 3 long)),
        field_in it.fields 1 (omega (arith, not_short (length it.fields) 3 long)),
        field_in it.fields 2 (omega (arith, not_short (length it.fields) 3 long)),
      )),
      refl,
      refl,
    )
  ]

  pub put_game_data-Keeps : Keeps out (put_game_data it out)
  unfolding put_game_data
  put_game_data-Keeps = elim (Bool-cases (ltb (length it.fields) 3)) [
    | inl short ↦ (out, (rw short), refl, refl)
    | inr long ↦ (
      record out {
        game_info = record no_game_info {
          round_start_tick = at it.fields 0;
          game_state_flags = at it.fields 1;
          game_state_end_tick = at it.fields 2;
        };
        has_game_info = true;
      },
      (rw (
        long,
        field_in it.fields 0 (omega (arith, not_short (length it.fields) 3 long)),
        field_in it.fields 1 (omega (arith, not_short (length it.fields) 3 long)),
        field_in it.fields 2 (omega (arith, not_short (length it.fields) 3 long)),
      )),
      refl,
      refl,
    )
  ]

  pub put_game_data_team-Keeps : Keeps out (put_game_data_team it out)
  unfolding put_game_data_team
  put_game_data_team-Keeps = elim (Bool-cases (ltb (length it.fields) 2)) [
    | inl short ↦ (out, (rw short), refl, refl)
    | inr long ↦ (
      record out {
        game_data = record out.game_data {
          teamscore_red = at it.fields 0;
          teamscore_blue = at it.fields 1;
        };
      },
      (rw (
        long,
        field_in it.fields 0 (omega (arith, not_short (length it.fields) 2 long)),
        field_in it.fields 1 (omega (arith, not_short (length it.fields) 2 long)),
      )),
      refl,
      refl,
    )
  ]

  pub put_game_data_flag-Keeps : Keeps out (put_game_data_flag it out)
  unfolding put_game_data_flag
  put_game_data_flag-Keeps = elim (Bool-cases (ltb (length it.fields) 4)) [
    | inl short ↦ (out, (rw short), refl, refl)
    | inr long ↦ (
      record out {
        game_data = record out.game_data {
          flag_carrier_red = at it.fields 0;
          flag_carrier_blue = at it.fields 1;
        };
        has_game_data = true;
      },
      (rw (
        long,
        field_in it.fields 0 (omega (arith, not_short (length it.fields) 4 long)),
        field_in it.fields 1 (omega (arith, not_short (length it.fields) 4 long)),
      )),
      refl,
      refl,
    )
  ]

  pub put_spectator_info-Keeps : Keeps out (put_spectator_info it out)
  unfolding put_spectator_info
  put_spectator_info-Keeps = elim (Bool-cases (ltb (length it.fields) 4)) [
    | inl short ↦ (out, (rw short), refl, refl)
    | inr long ↦ (
      record out {
        spectator = record {
          spectator_id = if eq_ℤ (at it.fields 0) (pos 0) then negsuc 0 else at it.fields 1;
          x = at it.fields 2;
          y = at it.fields 3;
        };
        has_spectator = true;
      },
      (rw (
        long,
        field_in it.fields 0 (omega (arith, not_short (length it.fields) 4 long)),
        field_in it.fields 1 (omega (arith, not_short (length it.fields) 4 long)),
        field_in it.fields 2 (omega (arith, not_short (length it.fields) 4 long)),
        field_in it.fields 3 (omega (arith, not_short (length it.fields) 4 long)),
      )),
      refl,
      refl,
    )
  ]

  pub put_explosion-Keeps : Keeps out (put_explosion it out)
  unfolding put_explosion
  put_explosion-Keeps = elim (Bool-cases (ltb (length it.fields) 2)) [
    | inl short ↦ (out, (rw short), refl, refl)
    | inr long ↦ (
      record out { events = out.events ++ Event.explosion (at it.fields 0) (at it.fields 1) ∷ [] },
      (rw (
        long,
        field_in it.fields 0 (omega (arith, not_short (length it.fields) 2 long)),
        field_in it.fields 1 (omega (arith, not_short (length it.fields) 2 long)),
      )),
      refl,
      refl,
    )
  ]

  pub put_spawn-Keeps : Keeps out (put_spawn it out)
  unfolding put_spawn
  put_spawn-Keeps = elim (Bool-cases (ltb (length it.fields) 2)) [
    | inl short ↦ (out, (rw short), refl, refl)
    | inr long ↦ (
      record out { events = out.events ++ Event.spawn (at it.fields 0) (at it.fields 1) ∷ [] },
      (rw (
        long,
        field_in it.fields 0 (omega (arith, not_short (length it.fields) 2 long)),
        field_in it.fields 1 (omega (arith, not_short (length it.fields) 2 long)),
      )),
      refl,
      refl,
    )
  ]

  pub put_hammer_hit-Keeps : Keeps out (put_hammer_hit it out)
  unfolding put_hammer_hit
  put_hammer_hit-Keeps = elim (Bool-cases (ltb (length it.fields) 2)) [
    | inl short ↦ (out, (rw short), refl, refl)
    | inr long ↦ (
      record out { events = out.events ++ Event.hammer_hit (at it.fields 0) (at it.fields 1) ∷ [] },
      (rw (
        long,
        field_in it.fields 0 (omega (arith, not_short (length it.fields) 2 long)),
        field_in it.fields 1 (omega (arith, not_short (length it.fields) 2 long)),
      )),
      refl,
      refl,
    )
  ]

  pub put_death-Keeps : Keeps out (put_death it out)
  unfolding put_death
  put_death-Keeps = elim (Bool-cases (ltb (length it.fields) 3)) [
    | inl short ↦ (out, (rw short), refl, refl)
    | inr long ↦ (
      record out {
        events = out.events ++ Event.death (at it.fields 0) (at it.fields 1) (at it.fields 2) ∷ [];
      },
      (rw (
        long,
        field_in it.fields 0 (omega (arith, not_short (length it.fields) 3 long)),
        field_in it.fields 1 (omega (arith, not_short (length it.fields) 3 long)),
        field_in it.fields 2 (omega (arith, not_short (length it.fields) 3 long)),
      )),
      refl,
      refl,
    )
  ]

  pub put_sound_world-Keeps : Keeps out (put_sound_world it out)
  unfolding put_sound_world
  put_sound_world-Keeps = elim (Bool-cases (ltb (length it.fields) 3)) [
    | inl short ↦ (out, (rw short), refl, refl)
    | inr long ↦ (
      record out {
        events =
            out.events ++ Event.sound_world (at it.fields 0) (at it.fields 1) (at it.fields 2) ∷ [];
      },
      (rw (
        long,
        field_in it.fields 0 (omega (arith, not_short (length it.fields) 3 long)),
        field_in it.fields 1 (omega (arith, not_short (length it.fields) 3 long)),
        field_in it.fields 2 (omega (arith, not_short (length it.fields) 3 long)),
      )),
      refl,
      refl,
    )
  ]

  pub put_damage-Keeps : Keeps out (put_damage it out)
  unfolding put_damage
  put_damage-Keeps = elim (Bool-cases (ltb (length it.fields) 7)) [
    | inl short ↦ (out, (rw short), refl, refl)
    | inr long ↦ (
      record out {
        events =
            out.events ++ Event.damage_ind (at it.fields 0) (at it.fields 1) (at it.fields 3) ∷ [];
      },
      (rw (
        long,
        field_in it.fields 0 (omega (arith, not_short (length it.fields) 7 long)),
        field_in it.fields 1 (omega (arith, not_short (length it.fields) 7 long)),
        field_in it.fields 3 (omega (arith, not_short (length it.fields) 7 long)),
      )),
      refl,
      refl,
    )
  ]
