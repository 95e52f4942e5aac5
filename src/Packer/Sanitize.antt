-- ===== src/Packer/Sanitize.antt =====
-- The sanitization of `NextStringSanitized` in packer/packer.go. A Go string is its list of bytes.
use twclient.Prelude.{ℕ, ◌≡◌, refl, arith, List, [], ◌∷◌, bit_and}
use twclient.Prelude.{Bool, true, false, not, ◌&&◌, ◌||◌, ltb, ◌==◌, if◌then◌else◌}

abbrev pub sanitize_default : ℕ
sanitize_default = 1

abbrev pub sanitize_cc : ℕ
sanitize_cc = 2

abbrev pub sanitize_skip_whitespaces : ℕ
sanitize_skip_whitespaces = 4

-- `flags&f != 0`
abbrev pub has_flag : ℕ → ℕ → Bool
has_flag flags f = not (bit_and flags f == 0)

-- `b != '\r' && b != '\n' && b != '\t'`
is_bare_control : ℕ → Bool
is_bare_control b = not (b == 13) && not (b == 10) && not (b == 9)

-- One byte of the scan that looks whether anything would change.
byte_needs_work : Bool → Bool → ℕ → Bool
unfolding is_bare_control
byte_needs_work cc default b = ltb b 32 && (cc || default && is_bare_control b)

needs_work : Bool → Bool → List ℕ → Bool
unfolding byte_needs_work
needs_work cc default [] = false
needs_work cc default (b ∷ raw) = byte_needs_work cc default b || needs_work cc default raw

-- One byte of the rewriting loop, once nothing is skipped any more.
clean_byte : Bool → Bool → ℕ → ℕ
unfolding is_bare_control
clean_byte cc default b =
    if cc
    then if ltb b 32 then 32 else b
    else if default
    then if ltb b 32 && is_bare_control b then 32 else b
    else b

is_skipped : ℕ → Bool
is_skipped b = b == 32 || b == 9 || b == 10

-- The loop `for _, b := range raw` with its variable `skipping`.
pub clean : Bool → Bool → Bool → List ℕ → List ℕ
unfolding clean_byte is_skipped
clean cc default skipping [] = []
clean cc default skipping (b ∷ raw) =
    let skip = clean cc default true raw in
    let keep = clean_byte cc default b ∷ clean cc default false raw in
    if skipping && is_skipped b then skip else keep

-- From `skipping := …` to the end of the function.
pub sanitize : ℕ → List ℕ → List ℕ
unfolding needs_work clean
sanitize flags raw =
    let skipping = has_flag flags sanitize_skip_whitespaces in
    let cc = has_flag flags sanitize_cc in
    let default = has_flag flags sanitize_default in
    if not (skipping || needs_work cc default raw) then raw else clean cc default skipping raw

clean_byte_untouched :
    (cc default : Bool) (b : ℕ) → byte_needs_work cc default b ≡ false → clean_byte cc default b ≡ b
unfolding byte_needs_work clean_byte
clean_byte_untouched cc default b h = ground arith

clean_untouched :
    (cc default : Bool) (raw : List ℕ)
    → needs_work cc default raw ≡ false
    → clean cc default false raw ≡ raw
unfolding needs_work clean
clean_untouched cc default [] h = refl
clean_untouched cc default (b ∷ raw) h =
    ground (arith, clean_byte_untouched cc default b, clean_untouched cc default raw)

-- The fast path changes nothing: with any flags the result is that of the rewriting loop.
pub sanitize-clean :
    (flags : ℕ) (raw : List ℕ)
    → sanitize flags raw
      ≡ clean
          (has_flag flags sanitize_cc)
          (has_flag flags sanitize_default)
          (has_flag flags sanitize_skip_whitespaces)
          raw
unfolding sanitize
sanitize-clean flags raw =
    ground
      (arith, clean_untouched (has_flag flags sanitize_cc) (has_flag flags sanitize_default) raw)
