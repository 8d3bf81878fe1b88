-- ===== src/Text.antt =====
-- lib/dpkg/string.c and lib/dpkg/strhash.c: operations on C strings.
pub mod Quoting
pub mod Ends
use dpkg.Base.{
  str_eq, CString, ℕ, ◌+◌, ◌-◌, ◌*◌, ◌%◌, ◌^◌, Bool, not, ◌&&◌, ◌||◌, [], ◌∷◌, Option, none, some,
  ltb, leb, ◌==◌, if◌then◌else◌, length, drop,
}
use Prim.Native.Nat.{bit_xor}
use mathlib.Core.List.{reverse}
use dpkg.CType.{c_isdigit, c_isalpha, c_isspace}

-- `strcmp` is that of the common suffix length.
unfoldable pub str_match_end : CString → CString → Bool
str_match_end s end = leb (length end) (length s) && str_eq (drop (length s - length end) s) end

-- The loop of `str_escape_fmt`: the bytes that it writes, the NUL apart, with room for `n`.
unfoldable pub escape_loop : ℕ → CString → CString
escape_loop n [] = []
escape_loop n (c ∷ s) =
    let escaped = b'%' ∷ c ∷ escape_loop (n - 2) s in
    let plain = c ∷ escape_loop (n - 1) s in
    if c == b'%'
    then (if leb n 2 then [] else if leb (n - 1) 1 then b'%' ∷ [] else escaped)
    else if leb n 1
    then []
    else plain

-- `none` is an empty buffer, to which nothing is written.
unfoldable pub str_escape_fmt : CString → ℕ → Option CString
str_escape_fmt src n = if n == 0 then none else some (escape_loop n src)

abbrev pub is_meta : ℕ → Bool
is_meta c = not (c_isdigit c) && not (c_isalpha c)

unfoldable pub quote_meta : CString → CString
quote_meta [] = []
quote_meta (c ∷ s) = let rest = quote_meta s in if is_meta c then b'\\' ∷ c ∷ rest else c ∷ rest

-- A buffer: the bytes allocated for it, and the text written, which a NUL follows.
pub record Buffer : Type 0 where
  pub allocated : ℕ
  pub text : CString

unfoldable pub str_quote_meta : CString → Buffer
str_quote_meta src = record { allocated = length src * 2; text = quote_meta src }

abbrev pub last_of : ℕ → CString → ℕ
last_of c [] = c
last_of c (d ∷ s) = last_of d s

-- The text without its last character.
abbrev pub chop : CString → CString
chop [] = []
chop (c ∷ []) = []
chop (c ∷ d ∷ s) = c ∷ chop (d ∷ s)

-- `none` is a null pointer.
unfoldable pub str_strip_quotes : CString → Option CString
str_strip_quotes [] = some []
str_strip_quotes (c ∷ s) =
    if c == b'"' || c == b'\''
    then (if not (c == last_of c s) then none else some (chop s))
    else some (c ∷ s)

-- The loop of `str_rtrim_spaces`, from the end of the text.
unfoldable pub rtrim_loop : CString → CString
rtrim_loop [] = []
rtrim_loop (c ∷ s) = if c_isspace c then rtrim_loop s else c ∷ s

unfoldable pub str_rtrim_spaces : CString → CString
unfolding rtrim_loop
str_rtrim_spaces s = reverse (rtrim_loop (reverse s))

-- A byte as `char`, which is signed, converted to `unsigned int`.
abbrev pub char_uint : ℕ → ℕ
char_uint c = if ltb c 128 then c else c + 4294967040

unfoldable pub fnv_loop : ℕ → CString → ℕ
fnv_loop h [] = h
fnv_loop h (c ∷ s) = fnv_loop (bit_xor h (char_uint c) * 16777619 % 2 ^ 32) s

unfoldable pub str_fnv_hash : CString → ℕ
unfolding fnv_loop
str_fnv_hash s = fnv_loop 2166136261 s
