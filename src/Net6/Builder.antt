-- ===== src/Net6/Builder.antt =====
-- net6/builder.go: whole packets of protocol 0.6.
use twclient.Prelude.{ℕ, List, [], ◌++◌, Bool, true, false}
use twclient.Prelude.Int.{ℤ, pos}
use twclient.Packer.Varint.{Varint}
use twclient.Packet.Token.{Token}
use twclient.Net6.Header.{Header, Flags, token_zero, pack}
use twclient.Net6.Messages.{
  ctrl_connect, ctrl_keep_alive, ctrl_close, net_version, wrap_vital_chunk, sys_info, sys_ready,
  sys_enter_game, game_cl_start_info,
}

abbrev pub no_flags : Flags
no_flags = record {
  compression = false;
  resend = false;
  connless = false;
  control = false;
  token_flag = false;
}

unfoldable pub build_ctrl_packet : Token → ℕ → List ℕ → List ℕ
build_ctrl_packet token ack payload =
    pack (record {
      flags = record no_flags { control = true; token_flag = true };
      ack = ack;
      num_chunks = 0;
      token = token;
    })
    ++ payload

unfoldable pub build_ctrl_packet_no_token : ℕ → List ℕ → List ℕ
build_ctrl_packet_no_token ack payload =
    pack (record {
      flags = record no_flags { control = true };
      ack = ack;
      num_chunks = 0;
      token = token_zero;
    })
    ++ payload

unfoldable pub build_connect : Token → List ℕ
build_connect client_token = build_ctrl_packet_no_token 0 (ctrl_connect client_token)

unfoldable pub build_keep_alive : Token → ℕ → List ℕ
build_keep_alive token ack = build_ctrl_packet token ack ctrl_keep_alive

unfoldable pub build_close : Token → ℕ → List ℕ → List ℕ
build_close token ack reason = build_ctrl_packet token ack (ctrl_close reason)

abbrev pub chunk_packet_header : Token → ℕ → ℕ → Bool → Header
chunk_packet_header token ack num_chunks compressed = record {
  flags = record no_flags { token_flag = true; compression = compressed };
  ack = ack;
  num_chunks = num_chunks;
  token = token;
}

unfoldable pub build_chunk_packet : Token → ℕ → ℕ → Bool → List ℕ → List ℕ
build_chunk_packet token ack num_chunks compressed chunk_data =
    pack (chunk_packet_header token ack num_chunks compressed) ++ chunk_data

module _ (vi : Varint) where
  unfoldable pub build_info_packet : Token → ℕ → ℕ → List ℕ
  build_info_packet token ack seq =
      build_chunk_packet token ack 1 false (wrap_vital_chunk (sys_info vi net_version []) seq)

  unfoldable pub build_ready_packet : Token → ℕ → ℕ → List ℕ
  build_ready_packet token ack seq =
      build_chunk_packet token ack 1 false (wrap_vital_chunk (sys_ready vi) seq)

  unfoldable pub build_enter_game_packet : Token → ℕ → ℕ → List ℕ
  build_enter_game_packet token ack seq =
      build_chunk_packet token ack 1 false (wrap_vital_chunk (sys_enter_game vi) seq)

  unfoldable pub build_start_info_packet : Token → ℕ → ℕ → List ℕ → List ℕ → List ℕ → ℤ → List ℕ
  build_start_info_packet token ack seq name clan skin country =
      build_chunk_packet token ack 1 false (
        wrap_vital_chunk (game_cl_start_info vi name clan country skin true (pos 65408) (pos 65408))
          seq)
