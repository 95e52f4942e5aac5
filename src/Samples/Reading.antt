-- ===== src/Samples/Reading.antt =====
-- packer/: integers, strings and message ids at concrete bytes.
use twclient.Prelude.{
  ℕ, ◌≡◌, refl, arith, List, [], ◌∷◌, ◌++◌, ◌-◌, length, get_or, replicate, true,
}
use twclient.Prelude.Int.{ℤ, pos}
use twclient.Packer.Reader.{Unpacker, ok}
use twclient.Packer.Unpack.{advance, next_int, next_msg_and_sys}
use twclient.Packer.Pack.{pack_string, pack_msg_id}
use twclient.Packer.Sanitize.{
  sanitize, sanitize-clean, clean, has_flag, sanitize_cc, sanitize_default,
  sanitize_skip_whitespaces,
}
use twclient.Packer.Uuid.{calculate_uuid, teeworlds_namespace, uuid_byte, calculate_uuid_bytes}
use twclient.Packer.RoundTrip.{Holds, int_bytes, next_int-nearest, nearest, next_msg_and_sys_back}
use twclient.Samples.Integers.{sample_varint}

abbrev at_start : List ℕ → Unpacker
at_start bytes = record { data_bytes = bytes; idx = 0 }

abbrev tail_bytes : List ℕ
tail_bytes = 7 ∷ 8 ∷ []

-- A number too large for 32 bits.
abbrev wide : ℤ
wide = pos 5000000000

abbrev wide_bytes : List ℕ
wide_bytes = int_bytes sample_varint wide ++ tail_bytes

next_int-nearest_example :
    (next_int sample_varint (at_start wide_bytes)
      ≡ (ok (nearest wide), advance (length (int_bytes sample_varint wide)) (at_start wide_bytes)))
    × Holds (advance (length (int_bytes sample_varint wide)) (at_start wide_bytes)) tail_bytes
next_int-nearest_example =
    next_int-nearest sample_varint (at_start wide_bytes) tail_bytes wide
      (record { inside = omega arith; left = refl })

abbrev id_bytes : List ℕ
id_bytes = pack_msg_id sample_varint (pos 70) true ++ tail_bytes

next_msg_and_sys_back_example :
    (next_msg_and_sys sample_varint (at_start id_bytes) ≡ (
      ok (pos 70, true),
      advance (length (pack_msg_id sample_varint (pos 70) true)) (at_start id_bytes),
    ))
    × Holds
        (advance (length (pack_msg_id sample_varint (pos 70) true)) (at_start id_bytes))
        tail_bytes
next_msg_and_sys_back_example =
    next_msg_and_sys_back sample_varint (at_start id_bytes) tail_bytes (pos 70) true
      (omega arith, omega arith) (record { inside = omega arith; left = refl })

-- "a\nb"
abbrev name : List ℕ
name = 97 ∷ 10 ∷ 98 ∷ []

abbrev name_bytes : List ℕ
name_bytes = pack_string name ++ tail_bytes

sanitize-clean_example :
    sanitize sanitize_cc name
    ≡ clean
        (has_flag sanitize_cc sanitize_cc)
        (has_flag sanitize_cc sanitize_default)
        (has_flag sanitize_cc sanitize_skip_whitespaces)
        name
sanitize-clean_example = sanitize-clean sanitize_cc name

-- A digest that keeps the last bytes of its input apart.
abbrev sample_digest : List ℕ → List ℕ
sample_digest bytes = replicate 16 (255 - length bytes)

calculate_uuid_bytes_example :
    (length (calculate_uuid sample_digest name) ≡ 16)
    × (get_or (calculate_uuid sample_digest name) 6 0
        ≡ uuid_byte (sample_digest (teeworlds_namespace ++ name)) 6)
calculate_uuid_bytes_example =
    calculate_uuid_bytes sample_digest name 6 refl (omega arith) (omega arith)
