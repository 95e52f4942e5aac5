-- ===== src/Packet/Messages.antt =====
-- `ContainsSysMsg`, `ContainsGameMsg`, `ExtractSysMsgPayload` and `ExtractAllSysMsgPayloads` of
-- packet/helpers.go: the messages of a type in the chunks of a packet.
pub mod Wire
pub mod Found
use twclient.Prelude.{
  ℕ, zero, suc, ◌+◌, ◌-◌, List, [], ◌∷◌, ◌++◌, length, get_or, take, drop, Bool, true, false, not,
  ◌&&◌, ltb, leb, ◌==◌, if◌then◌else◌, Option, none, some, bit_and,
}
use twclient.Prelude.Int.{ℤ, pos, negsuc, eq_ℤ, shr_ℤ, low_bits_ℤ}
use twclient.Packer.Varint.{Varint}
use twclient.Packer.Reader.{Unpacker, Result, ok, err}
use twclient.Packer.Unpack.{new_unpacker, next_int, next_raw, remaining_size}
use twclient.Packet.Ack.{is_vital, size_field, step_offset}

-- `sys && msgRaw>>1 == targetMsgID`
abbrev pub is_wanted : ℤ → ℤ → Bool
is_wanted target msg_raw = not (low_bits_ℤ msg_raw 1 == 0) && eq_ℤ (shr_ℤ msg_raw 1) target

abbrev pub raw_or_nil : Result (List ℕ) × Unpacker → List ℕ
raw_or_nil (ok raw, u) = raw
raw_or_nil (err e, u) = []

-- The bytes of a message behind its id, if it is one of `target`.
abbrev pub after_id : ℤ → Result ℤ × Unpacker → Option (List ℕ)
after_id target (ok msg_raw, u) =
    if is_wanted target msg_raw
    then some
        (if ltb 0 (remaining_size u) then raw_or_nil (next_raw (pos (remaining_size u)) u) else [])
    else none
after_id target (err e, u) = none

-- `ExtractAllSysMsgPayloads` leaves out a message without bytes behind its id.
abbrev pub keep_nonempty : Option (List ℕ) → List (List ℕ)
keep_nonempty (some (b ∷ raw)) = (b ∷ raw) ∷ []
keep_nonempty (some []) = []
keep_nonempty none = []

-- The scan returns at the first match.
abbrev pub first_of : Option (List ℕ) → Option (List ℕ) → Option (List ℕ)
first_of (some raw) more = some raw
first_of none more = more

-- The id and the system flag as `containsMsg` reads them, from six bits of one byte.
abbrev pub quick_int : ℕ → ℤ
quick_int b = if not (bit_and b 0x40 == 0) then negsuc (bit_and b 0x3f) else pos (bit_and b 0x3f)

abbrev pub same_flag : Bool → Bool → Bool
same_flag true b = b
same_flag false b = not b

unfoldable pub is_message : ℤ → Bool → ℕ → Bool
is_message target want_system b =
    same_flag want_system (not (low_bits_ℤ (quick_int b) 1 == 0))
    && eq_ℤ (shr_ℤ (quick_int b) 1) target

unfoldable pub contains_loop : ℕ → ℤ → Bool → ℕ → List ℕ → ℕ → Bool
contains_loop zero target want_system split payload offset = false
contains_loop (suc fuel) target want_system split payload offset =
    let more =
      contains_loop fuel target want_system split payload (step_offset split payload offset) in
    let data_start = offset + (if is_vital (get_or payload offset 0) then 3 else 2) in
    if ltb offset (length payload)
      && leb (offset + 2) (length payload)
      && ltb data_start (length payload)
    then if is_message target want_system (get_or payload data_start 0) then true else more
    else false

unfoldable pub contains_msg : List ℕ → ℤ → Bool → ℕ → Bool
contains_msg payload target want_system split =
    contains_loop (length payload) target want_system split payload 0

unfoldable pub contains_sys_msg : List ℕ → ℤ → ℕ → Bool
contains_sys_msg payload msg_id split = contains_msg payload msg_id true split

unfoldable pub contains_game_msg : List ℕ → ℤ → ℕ → Bool
contains_game_msg payload msg_id split = contains_msg payload msg_id false split

module _ (vi : Varint) where
  unfoldable pub message_payload : ℤ → List ℕ → Option (List ℕ)
  message_payload target bytes = after_id target (next_int vi (new_unpacker bytes))

  -- The chunk at `offset`: its message, if it lies within the packet.
  unfoldable pub payload_at : ℤ → ℕ → List ℕ → ℕ → Option (List ℕ)
  unfolding message_payload
  payload_at target split payload offset =
      let b0 = get_or payload offset 0 in
      let size = size_field split b0 (get_or payload (offset + 1) 0) in
      let data_start = offset + (if is_vital b0 then 3 else 2) in
      if ltb data_start (length payload) && leb (data_start + size) (length payload) && ltb 0 size
      then message_payload target (take size (drop data_start payload))
      else none

  unfoldable pub extract_loop : ℕ → ℤ → ℕ → List ℕ → ℕ → Option (List ℕ)
  extract_loop zero target split payload offset = none
  extract_loop (suc fuel) target split payload offset =
      let more = extract_loop fuel target split payload (step_offset split payload offset) in
      if ltb offset (length payload) && leb (offset + 2) (length payload)
      then first_of (payload_at target split payload offset) more
      else none

  -- Each round moves the offset by two bytes at least, so the length of the payload is fuel enough.
  unfoldable pub extract_sys_msg_payload : List ℕ → ℤ → ℕ → Option (List ℕ)
  extract_sys_msg_payload payload target split =
      extract_loop (length payload) target split payload 0

  unfoldable pub extract_all_loop : ℕ → ℤ → ℕ → List ℕ → ℕ → List (List ℕ)
  extract_all_loop zero target split payload offset = []
  extract_all_loop (suc fuel) target split payload offset =
      let more = extract_all_loop fuel target split payload (step_offset split payload offset) in
      if ltb offset (length payload) && leb (offset + 2) (length payload)
      then keep_nonempty (payload_at target split payload offset) ++ more
      else []

  unfoldable pub extract_all_sys_msg_payloads : List ℕ → ℤ → ℕ → List (List ℕ)
  extract_all_sys_msg_payloads payload target split =
      extract_all_loop (length payload) target split payload 0
