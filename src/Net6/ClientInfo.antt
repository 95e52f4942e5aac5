-- ===== src/Net6/ClientInfo.antt =====
-- net6/clientinfo.go: the strings of a client's info, four bytes to an integer, each raised by 128.
use mathlib.Core.Path.{ap₂}
use twclient.Prelude.{
  ℕ, zero, suc, ◌≤◌, ◌++◌, map, ◌+◌, ◌-◌, ◌*◌, ◌%◌, ◌^◌, ◌<◌, ◌≡◌, refl, ap, ◌∙◌, arith, List, [],
  ◌∷◌, length, take, drop, ltb, ◌==◌, false, if◌then◌else◌, Option, none, some,
}
use twclient.Prelude.Int.{ℤ, pos, negsuc, shr_ℤ, low_bits_ℤ}

-- `(v >> shift) & 0xff`
unfoldable pub raised_byte : ℤ → ℕ → ℕ
raised_byte v shift = low_bits_ℤ (shr_ℤ v shift) 8

-- The bytes of the integers, each lowered by 128: `byte(ch)` wraps.
abbrev pub raised_bytes : List ℤ → List ℕ
raised_bytes [] = []
raised_bytes (v ∷ ints) =
    raised_byte v 24 ∷ raised_byte v 16 ∷ raised_byte v 8 ∷ raised_byte v 0 ∷ raised_bytes ints

-- Up to the first that is 0 once it is lowered.
abbrev pub lowered : List ℕ → List ℕ
lowered [] = []
lowered (b ∷ bytes) = let rest = lowered bytes in if b == 128 then [] else (b + 128) % 256 ∷ rest

unfoldable pub ints_to_str : List ℤ → List ℕ
ints_to_str ints = lowered (raised_bytes ints)

-- The integer of four bytes, as DDNet packs it: the highest byte first, and 32 bits with a sign.
abbrev pub packed_int : ℕ → ℕ → ℕ → ℕ → ℤ
packed_int a b c d =
    let w =
      (a + 128) % 256 * 2 ^ 24
      + (b + 128) % 256 * 2 ^ 16
      + (c + 128) % 256 * 2 ^ 8
      + (d + 128) % 256 in
    if ltb w (2 ^ 31) then pos w else negsuc (2 ^ 32 - 1 - w)

packed_byte0 : (a b c d : ℕ) → raised_byte (packed_int a b c d) 24 ≡ (a + 128) % 256
unfolding raised_byte
packed_byte0 a b c d = ground arith

packed_byte1 : (a b c d : ℕ) → raised_byte (packed_int a b c d) 16 ≡ (b + 128) % 256
unfolding raised_byte
packed_byte1 a b c d = ground arith

packed_byte2 : (a b c d : ℕ) → raised_byte (packed_int a b c d) 8 ≡ (c + 128) % 256
unfolding raised_byte
packed_byte2 a b c d = ground arith

packed_byte3 : (a b c d : ℕ) → raised_byte (packed_int a b c d) 0 ≡ (d + 128) % 256
unfolding raised_byte
packed_byte3 a b c d = ground arith

pub record ClientInfo : Type 0 where
  pub name : List ℕ
  pub clan : List ℕ
  pub country : ℤ
  pub skin : List ℕ

abbrev pub size_client_info : ℕ
size_client_info = 17

-- `fields[start : start+n]`
abbrev pub sub_ints : ℕ → ℕ → List ℤ → List ℤ
sub_ints start n fields = take n (drop start fields)

abbrev pub int_at : List ℤ → ℕ → ℤ
int_at [] i = pos 0
int_at (v ∷ fields) zero = v
int_at (v ∷ fields) (suc i) = int_at fields i

unfoldable pub skin_ints : List ℤ → Option (List ℤ)
skin_ints fields = if ltb (length fields) size_client_info then none else some (sub_ints 8 6 fields)

unfoldable pub decode_client_info : List ℤ → ClientInfo
decode_client_info fields =
    if ltb (length fields) size_client_info
    then record { name = []; clan = []; country = pos 0; skin = [] }
    else record {
      name = ints_to_str (sub_ints 0 4 fields);
      clan = ints_to_str (sub_ints 4 3 fields);
      country = int_at fields 7;
      skin = ints_to_str (sub_ints 8 6 fields);
    }

-- Four bytes, which an integer holds.
abbrev pub Quad : Type 0
Quad = ℕ × ℕ × ℕ × ℕ

abbrev pub packed : Quad → ℤ
packed (a, b, c, d) = packed_int a b c d

abbrev pub flat : List Quad → List ℕ
flat [] = []
flat ((a, b, c, d) ∷ qs) = a ∷ b ∷ c ∷ d ∷ flat qs

-- The bytes of a string: none is NUL.
abbrev pub AllChars : List ℕ → Type 0
AllChars [] = Unit {0}
AllChars (c ∷ s) = ((0 < c) × (c < 256)) × AllChars s

raised_bytes-packed :
    (qs : List Quad) → raised_bytes (map packed qs) ≡ map (λ b. (b + 128) % 256) (flat qs)
raised_bytes-packed [] = refl
raised_bytes-packed ((a, b, c, d) ∷ qs) = ap₂ ◌∷◌ (packed_byte0 a b c d) (
    ap₂ ◌∷◌ (packed_byte1 a b c d)
      (ap₂ ◌∷◌ (packed_byte2 a b c d) (ap₂ ◌∷◌ (packed_byte3 a b c d) (raised_bytes-packed qs))))

lowered-raised :
    (s tail : List ℕ) → AllChars s → lowered (map (λ b. (b + 128) % 256) (s ++ 0 ∷ tail)) ≡ s
lowered-raised [] tail h = refl
lowered-raised (c ∷ s) tail (hc, h) = rw (lowered-raised s tail h) (ground arith)

ints_to_str_back :
    (qs : List Quad) (s tail : List ℕ)
    → flat qs ≡ s ++ 0 ∷ tail
    → AllChars s
    → ints_to_str (map packed qs) ≡ s
unfolding ints_to_str
ints_to_str_back qs s tail e h =
    ap lowered (raised_bytes-packed qs)
    ∙ ap (λ bytes. lowered (map (λ b. (b + 128) % 256) bytes)) e
    ∙ lowered-raised s tail h

-- The name takes four integers, the clan three and the skin six.
pub record Strings : Type 0 where
  pub n0 : Quad
  pub n1 : Quad
  pub n2 : Quad
  pub n3 : Quad
  pub c0 : Quad
  pub c1 : Quad
  pub c2 : Quad
  pub s0 : Quad
  pub s1 : Quad
  pub s2 : Quad
  pub s3 : Quad
  pub s4 : Quad
  pub s5 : Quad

abbrev pub name_quads : Strings → List Quad
name_quads q = q.n0 ∷ q.n1 ∷ q.n2 ∷ q.n3 ∷ []

abbrev pub clan_quads : Strings → List Quad
clan_quads q = q.c0 ∷ q.c1 ∷ q.c2 ∷ []

abbrev pub skin_quads : Strings → List Quad
skin_quads q = q.s0 ∷ q.s1 ∷ q.s2 ∷ q.s3 ∷ q.s4 ∷ q.s5 ∷ []

-- The fields of an item: the strings, the country among them, and what comes after.
abbrev pub client_fields : Strings → ℤ → List ℤ → List ℤ
client_fields q country colors =
    map packed (name_quads q)
    ++ map packed (clan_quads q)
    ++ (country ∷ map packed (skin_quads q))
    ++ colors

-- An item whose strings are packed four bytes to an integer, with a NUL after each, is decoded to
-- these strings, whatever follows the NUL, and to its country. No byte of a string is NUL, and
-- three integers at least follow the skin.
pub decode_client_info_back :
    (q : Strings) (name clan skin t1 t2 t3 : List ℕ) (country : ℤ) (colors : List ℤ)
    → 3 ≤ length colors
    → flat (name_quads q) ≡ name ++ 0 ∷ t1
    → flat (clan_quads q) ≡ clan ++ 0 ∷ t2
    → flat (skin_quads q) ≡ skin ++ 0 ∷ t3
    → AllChars name
    → AllChars clan
    → AllChars skin
    → decode_client_info (client_fields q country colors)
      ≡ record { name = name; clan = clan; country = country; skin = skin }
unfolding decode_client_info
decode_client_info_back q name clan skin t1 t2 t3 country colors long e1 e2 e3 h1 h2 h3 =
    let enough : ltb (length (client_fields q country colors)) 17 ≡ false = ground arith in
    rw
      (
        enough,
        ints_to_str_back (name_quads q) name t1 e1 h1,
        ints_to_str_back (clan_quads q) clan t2 e2 h2,
        ints_to_str_back (skin_quads q) skin t3 e3 h3,
      )
      refl
