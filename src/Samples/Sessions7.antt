-- ===== src/Samples/Sessions7.antt =====
-- A message of protocol 0.7 with arrays in it: the start info of a player.
use twclient.Prelude.{◌≡◌, [], ◌∷◌, ◌++◌, map, arith, true, replicate}
use twclient.Prelude.Int.{pos, negsuc}
use twclient.Packer.Reader.{ok}
use twclient.Packer.Unpack.{new_unpacker}
use twclient.Packer.RoundTrip.{NoNul}
use twclient.Packet.Fields.{kind_of, arrived_field, read_message}
use twclient.Net7.Messages.RoundTrip.{
  ClientMessage, start_info, payload_of, id_of, is_system, fields_of, client_message_back7,
}
use twclient.Samples.Integers.{sample_varint}

abbrev player : ClientMessage
player =
    start_info (97 ∷ []) [] (negsuc 0) (replicate 6 (98 ∷ [])) (replicate 6 true)
      (replicate 6 (pos 65408))

part_NoNul : NoNul (98 ∷ [])
part_NoNul = ((λ e. absurd (omega arith)), tt)

name_NoNul : NoNul (97 ∷ [])
name_NoNul = ((λ e. absurd (omega arith)), tt)

client_message_back7_example :
    (read_message sample_varint
      (map kind_of (fields_of player))
      (new_unpacker (payload_of sample_varint player ++ 7 ∷ []))).0
    ≡ ok ((id_of player, is_system player), map arrived_field (fields_of player))
client_message_back7_example = client_message_back7 sample_varint player (7 ∷ []) (
  name_NoNul,
  (
    tt,
    (
      tt,
      (
        part_NoNul,
        (
          part_NoNul,
          (
            part_NoNul,
            (
              part_NoNul,
              (
                part_NoNul,
                (
                  part_NoNul,
                  (tt, (tt, (tt, (tt, (tt, (tt, (tt, (tt, (tt, (tt, (tt, (tt, tt)))))))))))),
                ),
              ),
            ),
          ),
        ),
      ),
    ),
  ),
)
