-- ===== src/Packet/Input.antt =====
-- packet/input.go: the validated player input. `int` and the types defined from it are ℤ; a setter
-- returns none where the source returns an error, which leaves the input as it was.
use mathlib.Core.Option
use twclient.Prelude.{
  ℕ, ◌≡◌, refl, ap, arith, Bool, true, false, not, ◌&&◌, ◌||◌, ◌==◌, if◌then◌else◌, Option, none,
  some,
}
use twclient.Prelude.Int.{ℤ, pos, negsuc, pos_part, ltb_ℤ, leb_ℤ}
use twclient.Prelude.Bits.{and_not, and_1f, bit_and-le}

pub record PlayerInput : Type 0 where
  pub direction : ℤ
  pub target_x : ℤ
  pub target_y : ℤ
  pub jump : ℤ
  pub fire : ℤ
  pub hook : ℤ
  pub player_flags : ℤ
  pub wanted_weapon : ℤ
  pub next_weapon : ℤ
  pub prev_weapon : ℤ

-- `[10]int`
pub record RawInput : Type 0 where
  pub f0 : ℤ
  pub f1 : ℤ
  pub f2 : ℤ
  pub f3 : ℤ
  pub f4 : ℤ
  pub f5 : ℤ
  pub f6 : ℤ
  pub f7 : ℤ
  pub f8 : ℤ
  pub f9 : ℤ

abbrev pub zero_input : PlayerInput
zero_input = record {
  direction = pos 0;
  target_x = pos 0;
  target_y = pos 0;
  jump = pos 0;
  fire = pos 0;
  hook = pos 0;
  player_flags = pos 0;
  wanted_weapon = pos 0;
  next_weapon = pos 0;
  prev_weapon = pos 0;
}

abbrev pub player_flag_all : ℕ
player_flag_all = 31

abbrev pub outside : ℤ → ℤ → ℤ → Bool
outside low high v = ltb_ℤ v low || ltb_ℤ high v

abbrev pub set_direction : ℤ → PlayerInput → Option PlayerInput
set_direction v p = if outside (negsuc 0) (pos 1) v then none else some (record p { direction = v })

abbrev pub set_jump : ℤ → PlayerInput → Option PlayerInput
set_jump v p = if outside (pos 0) (pos 1) v then none else some (record p { jump = v })

abbrev pub set_hook : ℤ → PlayerInput → Option PlayerInput
set_hook v p = if outside (pos 0) (pos 1) v then none else some (record p { hook = v })

-- `v < 0 || PlayerFlag(v) & ^playerFlagAll != 0`
abbrev pub bad_flags : ℤ → Bool
bad_flags v = ltb_ℤ v (pos 0) || not (and_not (pos_part v) player_flag_all == 0)

abbrev pub set_player_flags : ℤ → PlayerInput → Option PlayerInput
set_player_flags v p = if bad_flags v then none else some (record p { player_flags = v })

abbrev pub set_wanted_weapon : ℤ → PlayerInput → Option PlayerInput
set_wanted_weapon v p =
    if outside (pos 0) (pos 6) v then none else some (record p { wanted_weapon = v })

abbrev pub set_next_weapon : ℤ → PlayerInput → Option PlayerInput
set_next_weapon v p =
    if outside (pos 0) (pos 1) v then none else some (record p { next_weapon = v })

abbrev pub set_prev_weapon : ℤ → PlayerInput → Option PlayerInput
set_prev_weapon v p =
    if outside (pos 0) (pos 1) v then none else some (record p { prev_weapon = v })

abbrev pub set_fire : ℤ → PlayerInput → Option PlayerInput
set_fire v p = if ltb_ℤ v (pos 0) then none else some (record p { fire = v })

abbrev pub set_target : ℤ → ℤ → PlayerInput → PlayerInput
set_target x y p = record p { target_x = x; target_y = y }

infixl 5 ◌>>=◌
abbrev pub ◌>>=◌ : {A B : Type 0} → Option A → (A → Option B) → Option B
none >>= f = none
some a >>= f = f a

unfoldable pub new_player_input_from_raw : RawInput → Option PlayerInput
new_player_input_from_raw r = do
  p0 ← set_direction r.f0 zero_input
  p1 ← set_jump r.f3 (set_target r.f1 r.f2 p0)
  p2 ← set_fire r.f4 p1
  p3 ← set_hook r.f5 p2
  p4 ← set_player_flags r.f6 p3
  p5 ← set_wanted_weapon r.f7 p4
  p6 ← set_next_weapon r.f8 p5
  set_prev_weapon r.f9 p6

unfoldable pub unsafe_player_input_from_raw : RawInput → PlayerInput
unsafe_player_input_from_raw r = record {
  direction = r.f0;
  target_x = r.f1;
  target_y = r.f2;
  jump = r.f3;
  fire = r.f4;
  hook = r.f5;
  player_flags = r.f6;
  wanted_weapon = r.f7;
  next_weapon = r.f8;
  prev_weapon = r.f9;
}

unfoldable pub raw : PlayerInput → RawInput
raw p = record {
  f0 = p.direction;
  f1 = p.target_x;
  f2 = p.target_y;
  f3 = p.jump;
  f4 = p.fire;
  f5 = p.hook;
  f6 = p.player_flags;
  f7 = p.wanted_weapon;
  f8 = p.next_weapon;
  f9 = p.prev_weapon;
}

-- The documented ranges of the ten fields.
abbrev pub within : ℤ → ℤ → ℤ → Bool
within low high v = leb_ℤ low v && leb_ℤ v high

abbrev pub in_ranges : RawInput → Bool
in_ranges r =
    within (negsuc 0) (pos 1) r.f0
    && (within (pos 0) (pos 1) r.f3
        && (leb_ℤ (pos 0) r.f4
            && (within (pos 0) (pos 1) r.f5
                && (within (pos 0) (pos 31) r.f6
                    && (within (pos 0) (pos 6) r.f7
                        && (within (pos 0) (pos 1) r.f8 && within (pos 0) (pos 1) r.f9))))))

outside-within : (low high v : ℤ) → outside low high v ≡ not (within low high v)
outside-within low high v = ground arith

bad_flags-within : (v : ℤ) → bad_flags v ≡ not (within (pos 0) (pos 31) v)
unfolding and_not
bad_flags-within v = ground (arith, and_1f (pos_part v), bit_and-le (pos_part v) 31)

step_lem :
    (bad good rest : Bool) (p : PlayerInput) (k : PlayerInput → Option PlayerInput) (r : RawInput)
    → bad ≡ not good
    → Option.map raw (k p) ≡ (if rest then some r else none)
    → Option.map raw ((if bad then none else some p) >>= k)
      ≡ (if good && rest then some r else none)
step_lem true true rest p k r e h = ground arith
step_lem false true rest p k r e h = h
step_lem true false rest p k r e h = refl
step_lem false false rest p k r e h = ground arith

last_lem :
    (bad good : Bool) (p : PlayerInput) (r : RawInput)
    → bad ≡ not good
    → raw p ≡ r
    → Option.map raw (if bad then none else some p) ≡ (if good then some r else none)
last_lem true true p r e h = ground arith
last_lem false true p r e h = ap some h
last_lem true false p r e h = refl
last_lem false false p r e h = ground arith

below_zero : (v : ℤ) → ltb_ℤ v (pos 0) ≡ not (leb_ℤ (pos 0) v)
below_zero v = ground arith

-- A raw input is accepted exactly if each field is in its documented range, and `Raw` then gives
-- back its ten fields.
pub raw-new_player_input_from_raw :
    (r : RawInput)
    → Option.map raw (new_player_input_from_raw r) ≡ (if in_ranges r then some r else none)
unfolding new_player_input_from_raw raw
raw-new_player_input_from_raw r = step_lem _ _ _ _ _ r (outside-within (negsuc 0) (pos 1) r.f0) (
    step_lem _ _ _ _ _ r (outside-within (pos 0) (pos 1) r.f3) (
      step_lem _ _ _ _ _ r (below_zero r.f4) (
        step_lem _ _ _ _ _ r (outside-within (pos 0) (pos 1) r.f5) (
          step_lem _ _ _ _ _ r (bad_flags-within r.f6) (
            step_lem _ _ _ _ _ r (outside-within (pos 0) (pos 6) r.f7) (
              step_lem _ _ _ _ _ r (outside-within (pos 0) (pos 1) r.f8)
                (last_lem _ _ _ r (outside-within (pos 0) (pos 1) r.f9) refl)))))))
