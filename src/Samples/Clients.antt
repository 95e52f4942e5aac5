-- ===== src/Samples/Clients.antt =====
-- An item of a client with the name "hi", the clan "c" and the skin "x".
use twclient.Prelude.{◌≡◌, refl, arith, List, [], ◌∷◌, replicate}
use twclient.Prelude.Int.{ℤ, pos}
use twclient.Net6.ClientInfo.{
  Quad, Strings, client_fields, decode_client_info, decode_client_info_back,
}

abbrev none_left : Quad
none_left = (0, 0, 0, 0)

abbrev strings : Strings
strings = record {
  n0 = (104, 105, 0, 0);
  n1 = none_left;
  n2 = none_left;
  n3 = none_left;
  c0 = (99, 0, 0, 0);
  c1 = none_left;
  c2 = none_left;
  s0 = (120, 0, 0, 0);
  s1 = none_left;
  s2 = none_left;
  s3 = none_left;
  s4 = none_left;
  s5 = none_left;
}

abbrev colors : List ℤ
colors = pos 0 ∷ pos 7 ∷ pos 8 ∷ []

decode_client_info_back_example :
    decode_client_info (client_fields strings (pos 276) colors)
    ≡ record { name = 104 ∷ 105 ∷ []; clan = 99 ∷ []; country = pos 276; skin = 120 ∷ [] }
decode_client_info_back_example =
    decode_client_info_back strings (104 ∷ 105 ∷ []) (99 ∷ []) (120 ∷ []) (replicate 13 0)
      (replicate 10 0) (replicate 22 0) (pos 276) colors (omega arith) refl refl refl
      ((omega arith, omega arith), ((omega arith, omega arith), tt))
      ((omega arith, omega arith), tt) ((omega arith, omega arith), tt)
