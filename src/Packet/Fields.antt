-- ===== src/Packet/Fields.antt =====
-- The fields of a message, as the peer reads them: what stands behind the id that a builder of
-- net6/messages.go or net7/messages.go writes. A field is read with `NextInt`, `NextString` or
-- `NextRaw` of packer/packer.go.
use mathlib.Core.Path.{subst}
use twclient.Prelude.{if◌then◌else◌}
use twclient.Prelude.{Bool, true, false}
use twclient.Prelude.{
  ℕ, ◌+◌, ◌≡◌, refl, ap, ◌∙◌, List, [], ◌∷◌, ◌++◌, map, length, append_assoc, length-append, Bool,
  arith,
}
use twclient.Prelude.Int.{ℤ, pos}
use twclient.Packer.Varint.{Varint}
use twclient.Packer.Reader.{Unpacker, Read, ok, ◌>>=◌, pure, continue}
use twclient.Packer.Unpack.{advance, next_int, next_string, next_raw, next_msg_and_sys}
use twclient.Packer.Sanitize.{sanitize, sanitize_default}
use twclient.Packer.Pack.{
  pack_bool, append_bool, append_int, clamp32, pack_int, append_str, pack_string, pack_msg_id,
}
use twclient.Packer.RoundTrip.{
  Holds, Holds-advance, NoNul, IsMsgId, next_int_back, next_string_back, next_raw_back,
  next_msg_and_sys_back,
}

pub data Field : Type 0 where
  int_field : ℤ → Field
  str_field : List ℕ → Field
  raw_field : List ℕ → Field

-- What the peer expects to read; of raw bytes it knows the number.
pub data Kind : Type 0 where
  int_kind str_kind : Kind
  raw_kind : ℕ → Kind

abbrev pub kind_of : Field → Kind
kind_of (int_field v) = int_kind
kind_of (str_field s) = str_kind
kind_of (raw_field r) = raw_kind (length r)

-- A field as it arrives: an integer clamped to 32 bits, a string sanitized.
abbrev pub arrived_field : Field → Field
arrived_field (int_field v) = int_field (clamp32 v)
arrived_field (str_field s) = str_field (sanitize sanitize_default s)
arrived_field (raw_field r) = raw_field r

-- A string without NUL; any other field can be sent as it is.
abbrev pub CanSend : Field → Type 0
CanSend (int_field v) = Unit {0}
CanSend (str_field s) = NoNul s
CanSend (raw_field r) = Unit {0}

abbrev pub AllCanSend : List Field → Type 0
AllCanSend [] = Unit {0}
AllCanSend (f ∷ fs) = CanSend f × AllCanSend fs

-- A Boolean travels as 0 or 1.
abbrev pub bool_field : Bool → Field
bool_field b = int_field (if b then pos 1 else pos 0)

module _ (vi : Varint) where
  abbrev pub field_bytes : Field → List ℕ
  field_bytes (int_field v) = pack_int vi v
  field_bytes (str_field s) = pack_string s
  field_bytes (raw_field r) = r

  abbrev pub fields_bytes : List Field → List ℕ
  fields_bytes [] = []
  fields_bytes (f ∷ fs) = field_bytes f ++ fields_bytes fs

  abbrev pub read_field : Kind → Read Field
  read_field int_kind = do v ← next_int vi; pure (int_field v)
  read_field str_kind = do s ← next_string; pure (str_field s)
  read_field (raw_kind n) = do r ← next_raw (pos n); pure (raw_field r)

  abbrev pub read_fields : List Kind → Read (List Field)
  read_fields [] = pure []
  read_fields (k ∷ ks) = do f ← read_field k; fs ← read_fields ks; pure (f ∷ fs)

  -- The id with its system flag, and the fields.
  abbrev pub read_message : List Kind → Read ((ℤ × Bool) × List Field)
  read_message ks = do head ← next_msg_and_sys vi; fs ← read_fields ks; pure (head, fs)

  read_field_back :
      (f : Field) (u : Unpacker) (bytes : List ℕ)
      → CanSend f
      → Holds u (field_bytes f ++ bytes)
      → (read_field (kind_of f) u ≡ (ok (arrived_field f), advance (length (field_bytes f)) u))
        × Holds (advance (length (field_bytes f)) u) bytes
  unfolding pack_int next_string
  read_field_back (int_field v) u bytes h holds =
      let (read, left) = next_int_back vi u bytes v holds in (rw read refl, left)
  read_field_back (str_field s) u bytes h holds =
      let (read, left) = next_string_back u bytes sanitize_default s h holds in
      let size : length s + 1 ≡ length (pack_string s) =
        unfold pack_string append_str in omega (arith, length-append s (0 ∷ [])) in
      (
        ap (λ r. continue r (λ t. pure (str_field t))) read
            ∙ ap (λ n. (ok (str_field (sanitize sanitize_default s)), advance n u)) size,
        subst (λ n. Holds (advance n u) bytes) size left,
      )
  read_field_back (raw_field r) u bytes h holds =
      (rw (next_raw_back u bytes r holds) refl, Holds-advance u r bytes holds)

  -- Two reads in a row move the unpacker past both parts.
  advance-append :
      (u : Unpacker) (xs ys : List ℕ)
      → advance (length ys) (advance (length xs) u) ≡ advance (length (xs ++ ys)) u
  advance-append u xs ys = ap (λ n. record u { idx = n }) (omega (arith, length-append xs ys))

  -- The fields that were written are read back, and what follows them is left.
  pub read_fields_back :
      (fs : List Field) (u : Unpacker) (bytes : List ℕ)
      → AllCanSend fs
      → Holds u (fields_bytes fs ++ bytes)
      → (read_fields (map kind_of fs) u
          ≡ (ok (map arrived_field fs), advance (length (fields_bytes fs)) u))
        × Holds (advance (length (fields_bytes fs)) u) bytes
  read_fields_back [] u bytes h holds =
      (ap (λ n. (ok [], record u { idx = n })) (omega arith), Holds-advance u [] bytes holds)
  read_fields_back (f ∷ fs) u bytes (hf, hfs) holds =
      let whole = subst (Holds u) (append_assoc (field_bytes f) (fields_bytes fs) bytes) holds in
      let (first, left) = read_field_back f u (fields_bytes fs ++ bytes) hf whole in
      let v = advance (length (field_bytes f)) u in
      let (more, after) = read_fields_back fs v bytes hfs left in
      (
        rw (first, more)
            (ap (λ w. (ok (arrived_field f ∷ map arrived_field fs), w))
              (advance-append u (field_bytes f) (fields_bytes fs))),
        subst (λ w. Holds w bytes) (advance-append u (field_bytes f) (fields_bytes fs)) after,
      )

  -- A message: its id, its flag and its fields.
  pub read_message_back :
      (id : ℤ) (system : Bool) (fs : List Field) (u : Unpacker) (bytes : List ℕ)
      → IsMsgId id
      → AllCanSend fs
      → Holds u (pack_msg_id vi id system ++ (fields_bytes fs ++ bytes))
      → (read_message (map kind_of fs) u).0 ≡ ok ((id, system), map arrived_field fs)
  read_message_back id system fs u bytes hid hfs holds =
      let (head, left) =
        next_msg_and_sys_back vi u (fields_bytes fs ++ bytes) id system hid holds in
      let v = advance (length (pack_msg_id vi id system)) u in
      rw (head, (read_fields_back fs v bytes hfs left).0) refl

  pub pack_bool-field : (b : Bool) → pack_bool vi b ≡ field_bytes (bool_field b)
  unfolding pack_bool append_bool pack_int
  pack_bool-field true = refl
  pack_bool-field false = refl

  -- Appending behind `dst` is appending the packed integer.
  pub append_int-pack_int : (dst : List ℕ) (v : ℤ) → append_int vi dst v ≡ dst ++ pack_int vi v
  unfolding append_int pack_int
  append_int-pack_int dst v = vi.append_to_dst dst (clamp32 v)
