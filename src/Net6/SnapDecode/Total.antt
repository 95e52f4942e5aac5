-- ===== src/Net6/SnapDecode/Total.antt =====
-- A snapshot is decoded whatever its items.
use twclient.Prelude.{
  ◌≡◌, refl, ap, ◌∙◌, arith, List, [], ◌∷◌, length, Bool, true, false, if◌then◌else◌, Option, none,
  some, leb, ◌&&◌,
}
use twclient.Prelude.Int.{ℤ, pos, eq_ℤ}
use twclient.Packet.Snap.{SnapItem, Snapshot}
use twclient.Packet.Snap.Merge.{or_else}
use twclient.Packet.Objects.{SnapObjects, Character, no_objects, ◌>>=◌}
use twclient.Net6.SnapSize.{Kind, kind_of}
use twclient.Net6.SnapSize
use twclient.Net6.SnapDecode.{
  put_items, put_item, decode_snap, put_player_info, put_projectile, put_laser, put_pickup,
  put_flag, put_game_info, put_game_data, put_spectator_info, put_explosion, put_spawn,
  put_hammer_hit, put_death, put_sound_world, put_damage_indicator,
}
use twclient.Net6.SnapDecode.Cases.{
  Keeps, character_of, with_character, put_character_lem, put_player_info-Keeps,
  put_projectile-Keeps, put_laser-Keeps, put_pickup-Keeps, put_flag-Keeps, put_game_info-Keeps,
  put_game_data-Keeps, put_spectator_info-Keeps, put_explosion-Keeps, put_spawn-Keeps,
  put_hammer_hit-Keeps, put_death-Keeps, put_sound_world-Keeps, put_damage_indicator-Keeps,
}

-- The item is one of a character, with all of its fields.
abbrev pub is_character_item : SnapItem → Bool
is_character_item it = eq_ℤ it.type_id (pos 9) && leb 22 (length it.fields)

-- The character of the last such item with that id.
unfoldable pub last_character : ℤ → List SnapItem → Option Character
last_character id [] = none
last_character id (it ∷ items) =
    or_else (last_character id items)
      (if is_character_item it && eq_ℤ it.id id then some (character_of it) else none)

abbrev is_character : Kind → Bool
is_character SnapSize.character = true
is_character _ = false

is_character-kind_of : (v : ℤ) → is_character (kind_of v) ≡ eq_ℤ v (pos 9)
unfolding kind_of
is_character-kind_of v = ground arith

-- What one item makes of the characters.
abbrev Adds : Bool → SnapItem → SnapObjects → Option SnapObjects → Type 0
Adds here it out r =
    (after : SnapObjects) × (r ≡ some after)
    × ((id : ℤ)
        → after.characters id ≡ (
            if here && leb 22 (length it.fields) && eq_ℤ it.id id
            then some (character_of it)
            else out.characters id))
    × (after.tick ≡ out.tick)

Keeps-Adds :
    (it : SnapItem) (out : SnapObjects) (r : Option SnapObjects) → Keeps out r → Adds false it out r
Keeps-Adds it out r (after, e, h, t) =
    (after, e, (λ id. ap (λ (m : ℤ → Option Character). m id) h), t)

put_item-Adds :
    (k : Kind) (it : SnapItem) (out : SnapObjects)
    → Adds (is_character k) it out (put_item k it out)
unfolding put_item
put_item-Adds SnapSize.character it out = (
  (if leb 22 (length it.fields) then with_character it out else out),
  put_character_lem it out,
  (λ id. chars (leb 22 (length it.fields)) id),
  tick_same (leb 22 (length it.fields)),
)
  where
    chars :
        (long : Bool) (id : ℤ)
        → (if long then with_character it out else out).characters id
          ≡ (if true && long && eq_ℤ it.id id then some (character_of it) else out.characters id)
    chars true id = refl
    chars false id = refl

    tick_same : (long : Bool) → (if long then with_character it out else out).tick ≡ out.tick
    tick_same true = refl
    tick_same false = refl
put_item-Adds SnapSize.player_input it out = Keeps-Adds it out (some out) (out, refl, refl, refl)
put_item-Adds SnapSize.projectile it out =
    Keeps-Adds it out (put_projectile it out) (put_projectile-Keeps it out)
put_item-Adds SnapSize.laser it out = Keeps-Adds it out (put_laser it out) (put_laser-Keeps it out)
put_item-Adds SnapSize.pickup it out =
    Keeps-Adds it out (put_pickup it out) (put_pickup-Keeps it out)
put_item-Adds SnapSize.flag it out = Keeps-Adds it out (put_flag it out) (put_flag-Keeps it out)
put_item-Adds SnapSize.game_info it out =
    Keeps-Adds it out (put_game_info it out) (put_game_info-Keeps it out)
put_item-Adds SnapSize.game_data it out =
    Keeps-Adds it out (put_game_data it out) (put_game_data-Keeps it out)
put_item-Adds SnapSize.character_core it out = Keeps-Adds it out (some out) (out, refl, refl, refl)
put_item-Adds SnapSize.player_info it out =
    Keeps-Adds it out (put_player_info it out) (put_player_info-Keeps it out)
put_item-Adds SnapSize.client_info it out = Keeps-Adds it out (some out) (out, refl, refl, refl)
put_item-Adds SnapSize.spectator_info it out =
    Keeps-Adds it out (put_spectator_info it out) (put_spectator_info-Keeps it out)
put_item-Adds SnapSize.common it out = Keeps-Adds it out (some out) (out, refl, refl, refl)
put_item-Adds SnapSize.explosion it out =
    Keeps-Adds it out (put_explosion it out) (put_explosion-Keeps it out)
put_item-Adds SnapSize.spawn it out = Keeps-Adds it out (put_spawn it out) (put_spawn-Keeps it out)
put_item-Adds SnapSize.hammer_hit it out =
    Keeps-Adds it out (put_hammer_hit it out) (put_hammer_hit-Keeps it out)
put_item-Adds SnapSize.death it out = Keeps-Adds it out (put_death it out) (put_death-Keeps it out)
put_item-Adds SnapSize.sound_global it out = Keeps-Adds it out (some out) (out, refl, refl, refl)
put_item-Adds SnapSize.sound_world it out =
    Keeps-Adds it out (put_sound_world it out) (put_sound_world-Keeps it out)
put_item-Adds SnapSize.damage_indicator it out =
    Keeps-Adds it out (put_damage_indicator it out) (put_damage_indicator-Keeps it out)
put_item-Adds SnapSize.unknown it out = Keeps-Adds it out (some out) (out, refl, refl, refl)

put_items_lem :
    (items : List SnapItem) (out : SnapObjects)
    → (after : SnapObjects) × (put_items items out ≡ some after)
      × ((id : ℤ) → after.characters id ≡ or_else (last_character id items) (out.characters id))
      × (after.tick ≡ out.tick)
unfolding put_items last_character
put_items_lem [] out = (out, refl, (λ id. refl), refl)
put_items_lem (it ∷ items) out =
    let (mid, e, chars, t) = put_item-Adds (kind_of it.type_id) it out in
    let (after, e', chars', t') = put_items_lem items mid in
    (
      after,
      ap (λ r. r >>= put_items items) e ∙ e',
      (λ id.
          chars' id
          ∙ ap (or_else (last_character id items)) (chars id)
          ∙ later (last_character id items) (is_character (kind_of it.type_id))
              (eq_ℤ it.type_id (pos 9)) (leb 22 (length it.fields)) (eq_ℤ it.id id)
              (character_of it) (out.characters id) (is_character-kind_of it.type_id)),
      t' ∙ t,
    )
  where
    split :
        (o : Option Character) (g : Bool) (x : Character) (old : Option Character)
        → or_else o (if g then some x else old)
          ≡ or_else (or_else o (if g then some x else none)) old
    split (some y) g x old = refl
    split none true x old = refl
    split none false x old = refl

    later :
        (o : Option Character) (a a' b c : Bool) (x : Character) (old : Option Character)
        → a ≡ a'
        → or_else o (if a && b && c then some x else old)
          ≡ or_else (or_else o (if (a' && b) && c then some x else none)) old
    later o a a' b c x old e =
        ap (λ t. or_else o (if t && b && c then some x else old)) e ∙ split o (a' && b && c) x old

-- `DecodeSnap` returns for every snapshot, and never indexes past the fields of an item. The result
-- has the tick of the snapshot, and for each client id the character of the last item of that id
-- that has all of its fields, and no other.
pub decode_snap6_total :
    (snap : Snapshot)
    → (objects : SnapObjects) × (decode_snap snap ≡ some objects)
      × ((id : ℤ) → objects.characters id ≡ last_character id snap.items)
      × (objects.tick ≡ snap.tick)
unfolding decode_snap
decode_snap6_total snap =
    let (objects, e, chars, t) = put_items_lem snap.items (no_objects snap.tick) in
    (objects, e, (λ id. chars id ∙ or_else_none (last_character id snap.items)), t)
  where
    or_else_none : (o : Option Character) → or_else o none ≡ o
    or_else_none none = refl
    or_else_none (some c) = refl
