-- ===== src/Packer/Reader.antt =====
-- The `Unpacker` of packer/packer.go, and programs that read from one. A Go method on `*Unpacker`
-- that returns `(T, error)` is a `Read T`: it returns the unpacker that it leaves beside its result.
use twclient.Prelude.{ℕ, List}

pub record Unpacker : Type 0 where
  pub data_bytes : List ℕ
  pub idx : ℕ

pub data Error : Type 0 where
  no_byte negative_size short_raw no_int bad_int unterminated : Error
  -- No error but a panic: a slice whose end is before its start.
  slice_panic : Error

pub data Result (A : Type 0) : Type 0 where
  ok : A → Result A
  err : Error → Result A

abbrev pub Read : Type 0 → Type 0
Read A = Unpacker → Result A × Unpacker

abbrev pub continue : {A B : Type 0} → Result A × Unpacker → (A → Read B) → Result B × Unpacker
continue (ok a, u) f = f a u
continue (err e, u) f = (err e, u)

infixl 5 ◌>>=◌ ◌>>◌
abbrev pub ◌>>=◌ : {A B : Type 0} → Read A → (A → Read B) → Read B
◌>>=◌ m f u = continue (m u) f

abbrev pub ◌>>◌ : {A B : Type 0} → Read A → Read B → Read B
m >> n = m >>= λ _. n

abbrev pub pure : {A : Type 0} → A → Read A
pure a u = (ok a, u)
