-- ===== src/Net6/Session/WellFormed.antt =====
-- The invariant of a session: its counters stay below 1024 and its tokens have four bytes, whatever
-- the server sends.
use twclient.Prelude.{
  ℕ, ◌<◌, ◌≡◌, ◌∙◌, arith, List, [], ◌∷◌, length, take, drop, length-copy, Bool, true, false,
  if◌then◌else◌, Option, none, some,
}
use twclient.Packer.Varint.{Varint}
use twclient.Packer.Reader.{Result, ok, err}
use twclient.Packet.MapChange.{MapInfo}
use twclient.Prelude.Int.{ℤ, pos, leb_ℤ}
use twclient.Packet.Capabilities.{parse_server_capabilities}
use twclient.Packet.Ack.Wire.{count_vital_chunks-onward}
use twclient.Network.{Conn, Act, Outcome, done, failed, and_then, then_do}
use twclient.Net6.Header.{Header, size}
use twclient.Net6.Messages.{wrap_vital_chunk}
use twclient.Net6.Session.{
  Session, Parsed, bad_packet, no_payload, parsed_payload, next_seq, parse_payload, ack_chunks,
}
use twclient.Net6.Session.Login.{
  Step, again, arrived, closed, take_tokens, read_accept, on_chunks, con_ready_chunks,
  con_ready_step, store_capabilities, with_capabilities, with_map_info, maybe_parse_capabilities,
  all_capabilities, take_map_change, map_change_chunks, map_change_step, with_vital_chunk,
}

module _ {M : Type 0} where
  pub record IsSession (s : Session M) : Type 0 where
    pub sequence_small : s.sequence < 1024
    pub ack_small : s.ack < 1024
    pub security_token_length : length s.security_token ≡ 4
    pub server_token_length : length s.server_token ≡ 4

  -- An action keeps the invariant, whatever it returns.
  abbrev pub Keeps : {A : Type 0} → Act (Session M) A → Type 0
  Keeps act = (w : Session M × Conn) → IsSession w.0 → IsSession (act w).1.0

  pub and_then-IsSession :
      {A B : Type 0} (r : Outcome A × (Session M × Conn)) (f : A → Act (Session M) B)
      → ((a : A) → Keeps (f a))
      → IsSession r.1.0
      → IsSession (and_then r f).1.0
  and_then-IsSession (done a, w) f h i = h a w i
  and_then-IsSession (failed e, w) f h i = i

  pub then_do-Keeps :
      {A B : Type 0} (first : Act (Session M) A) (next : A → Act (Session M) B)
      → Keeps first
      → ((a : A) → Keeps (next a))
      → Keeps (then_do first next)
  then_do-Keeps first next h g w i = and_then-IsSession (first w) next g (h w i)

  pub next_seq-IsSession : (s : Session M) → IsSession s → IsSession (next_seq s).1
  unfolding next_seq
  next_seq-IsSession s i = record {
    sequence_small = omega arith;
    ack_small = i.ack_small;
    security_token_length = i.security_token_length;
    server_token_length = i.server_token_length;
  }

  pub ack_chunks-IsSession :
      (hdr : Header) (payload : List ℕ) (s : Session M)
      → IsSession s
      → IsSession (ack_chunks hdr payload s)
  unfolding ack_chunks
  ack_chunks-IsSession hdr payload s i =
      let (k, _, onward) = count_vital_chunks-onward payload hdr.num_chunks s.ack 4 i.ack_small in
      record {
        sequence_small = i.sequence_small;
        ack_small = omega (arith, onward);
        security_token_length = i.security_token_length;
        server_token_length = i.server_token_length;
      }

  if-IsSession :
      (b : Bool) {x y : Session M} → IsSession x → IsSession y → IsSession (if b then x else y)
  if-IsSession true i j = i
  if-IsSession false i j = j

  pub if_result-IsSession :
      {A : Type 0} (b : Bool) (x y : Outcome A × (Session M × Conn))
      → IsSession x.1.0
      → IsSession y.1.0
      → IsSession (if b then x else y).1.0
  if_result-IsSession true x y i j = i
  if_result-IsSession false x y i j = j

  pub with_vital_chunk-Keeps :
      {A : Type 0} (payload : List ℕ) (next : List ℕ → Act (Session M) A)
      → ((bytes : List ℕ) → Keeps (next bytes))
      → Keeps (with_vital_chunk payload next)
  with_vital_chunk-Keeps payload next h (s, c) i =
      h (wrap_vital_chunk payload (next_seq s).0) ((next_seq s).1, c) (next_seq-IsSession s i)

  with_tokens-IsSession :
      (s : Session M) (security_token server_token : List ℕ)
      → length security_token ≡ 4
      → length server_token ≡ 4
      → IsSession s
      → IsSession (record s { security_token = security_token; server_token = server_token })
  with_tokens-IsSession s security_token server_token h g i = record {
    sequence_small = i.sequence_small;
    ack_small = i.ack_small;
    security_token_length = h;
    server_token_length = g;
  }

  take_tokens-IsSession :
      (payload : List ℕ) (s : Session M) → IsSession s → IsSession (take_tokens payload s)
  unfolding take_tokens
  take_tokens-IsSession payload s i =
      let fresh =
        length-copy s.security_token (take 4 (drop 5 payload)) ∙ i.security_token_length in
      let direct = length-copy s.server_token (take 4 (drop 1 payload)) ∙ i.server_token_length in
      if-IsSession _ (with_tokens-IsSession s _ _ fresh fresh i)
        (if-IsSession _ (with_tokens-IsSession s _ _ i.security_token_length direct i) i)

  pub read_accept-Keeps : (resp : List ℕ) (o : Option Header) → Keeps (read_accept resp o)
  unfolding read_accept
  read_accept-Keeps resp none w i = i
  read_accept-Keeps resp (some hdr) (s, c) i =
      ground (arith, i, take_tokens-IsSession (drop (size hdr) resp) s i)

  -- A step of a wait keeps the invariant, whatever it decides.
  abbrev pub StepIsSession : Step M → Type 0
  StepIsSession (again s) = IsSession s
  StepIsSession (arrived s) = IsSession s
  StepIsSession (closed reason s) = IsSession s

  on_chunks-StepIsSession :
      (chunks : Header → List ℕ → Session M → Step M)
      → ((hdr : Header) (payload : List ℕ) (s : Session M)
          → IsSession s
          → StepIsSession (chunks hdr payload s))
      → (r : Parsed) (s : Session M) → IsSession s
      → StepIsSession (on_chunks chunks r s)
  unfolding on_chunks
  on_chunks-StepIsSession chunks h bad_packet s i = i
  on_chunks-StepIsSession chunks h (no_payload hdr) s i = i
  on_chunks-StepIsSession chunks h (parsed_payload hdr payload) s i =
      let acked = h hdr payload (ack_chunks hdr payload s) (ack_chunks-IsSession hdr payload s i) in
      ground (arith, i, acked)

  pub con_ready_step-StepIsSession :
      (huff : List ℕ → Option (List ℕ)) (resp : List ℕ) (s : Session M)
      → IsSession s
      → StepIsSession (con_ready_step huff resp s)
  unfolding con_ready_step con_ready_chunks
  con_ready_step-StepIsSession huff resp s i =
      on_chunks-StepIsSession con_ready_chunks (λ hdr payload t j. ground (arith, j))
        (parse_payload huff s resp) s i

  with_capabilities-IsSession :
      (first second : Result ℤ) (s : Session M)
      → IsSession s
      → IsSession (with_capabilities first second s)
  unfolding with_capabilities
  with_capabilities-IsSession (err e) second s i = i
  with_capabilities-IsSession (ok version) (err e) s i = i
  with_capabilities-IsSession (ok version) (ok flags) s i =
      if-IsSession (leb_ℤ version (pos 0)) {x = s}
        {y = record s { caps = parse_server_capabilities version flags }} i
        (record {
          sequence_small = i.sequence_small;
          ack_small = i.ack_small;
          security_token_length = i.security_token_length;
          server_token_length = i.server_token_length;
        })

  pub with_map_info-IsSession :
      (r : Result MapInfo) (s : Session M) → IsSession s → IsSession (with_map_info r s)
  unfolding with_map_info
  with_map_info-IsSession (err e) s i = i
  with_map_info-IsSession (ok info) s i = record {
    sequence_small = i.sequence_small;
    ack_small = i.ack_small;
    security_token_length = i.security_token_length;
    server_token_length = i.server_token_length;
  }

  module _ (vi : Varint) where
    pub store_capabilities-IsSession :
        (body : List ℕ) (s : Session M) → IsSession s → IsSession (store_capabilities vi body s)
    unfolding store_capabilities
    store_capabilities-IsSession body s i = with_capabilities-IsSession _ _ s i

    module _ (md5 : List ℕ → List ℕ) where
      all_capabilities-IsSession :
          (exs : List (List ℕ)) (s : Session M)
          → IsSession s
          → IsSession (all_capabilities vi md5 exs s)
      unfolding all_capabilities maybe_parse_capabilities
      all_capabilities-IsSession [] s i = i
      all_capabilities-IsSession (ex ∷ exs) s i =
          all_capabilities-IsSession exs (maybe_parse_capabilities vi md5 ex s)
            (if-IsSession _ i (if-IsSession _ (store_capabilities-IsSession (drop 16 ex) s i) i))

      take_map_change-StepIsSession :
          (o : Option (List ℕ)) (s : Session M)
          → IsSession s
          → StepIsSession (take_map_change vi md5 o s)
      unfolding take_map_change
      take_map_change-StepIsSession none s i = i
      take_map_change-StepIsSession (some bytes) s i = with_map_info-IsSession _ s i

      pub map_change_step-StepIsSession :
          (huff : List ℕ → Option (List ℕ)) (resp : List ℕ) (s : Session M)
          → IsSession s
          → StepIsSession (map_change_step vi md5 huff resp s)
      unfolding map_change_step map_change_chunks
      map_change_step-StepIsSession huff resp s i =
          on_chunks-StepIsSession (map_change_chunks vi md5)
            (λ hdr payload t j.
              take_map_change-StepIsSession _ _ (all_capabilities-IsSession _ t j))
            (parse_payload huff s resp) s i
