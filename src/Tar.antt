-- ===== src/Tar.antt =====
-- lib/dpkg/tarfn.c: the numbers in a tar header, its mode and its checksum.
pub mod Octal
pub mod Base256
pub mod Checksum
use dpkg.Base.{
  CString, peek, codes, ℕ, ◌+◌, ◌-◌, ◌*◌, ◌%◌, ◌^◌, Bool, true, false, not, ◌&&◌, ◌||◌, [], ◌∷◌,
  ◌++◌, ltb, leb, ◌==◌, if◌then◌else◌, length, take,
}
use Prim.Native.Nat.{bit_and, bit_or}

-- The values of `errno` that the parsers set.
pub data TarErrno : Type 0 where
  no_error einval erange : TarErrno

-- What `tar_ret_errno` gives: the result as `uintmax_t`, and `errno`.
pub record TarNumber : Type 0 where
  pub value : ℕ
  pub errno : TarErrno

abbrev pub tar_ret_errno : TarErrno → ℕ → TarNumber
tar_ret_errno e n = record { value = n; errno = e }

abbrev pub uintmax : ℕ
uintmax = 18446744073709551615

-- A NUL or a space.
abbrev pub is_filler : ℕ → Bool
is_filler c = c == 0 || c == b' '

unfoldable pub skip_spaces : CString → CString
skip_spaces [] = []
skip_spaces (c ∷ s) = if c == b' ' then skip_spaces s else c ∷ s

-- The last loop: what is behind the digits.
unfoldable pub check_fillers : ℕ → CString → TarNumber
check_fillers n [] = tar_ret_errno no_error n
check_fillers n (c ∷ s) = if not (is_filler c) then tar_ret_errno einval 0 else check_fillers n s

-- The loop over the digits; a byte from 128 is out of their range, signed or not.
unfoldable pub octal_loop : ℕ → CString → TarNumber
octal_loop n [] = check_fillers n []
octal_loop n (c ∷ s) =
    let more = octal_loop ((n * 8 + (c - b'0')) % 2 ^ 64) s in
    if is_filler c
    then check_fillers n (c ∷ s)
    else if ltb c b'0' || ltb b'7' c
    then tar_ret_errno erange 0
    else more

unfoldable pub octal_field : CString → TarNumber
octal_field [] = tar_ret_errno einval 0
octal_field (c ∷ s) = octal_loop 0 (c ∷ s)

-- The argument is the field, all `size` bytes of it.
unfoldable pub tar_atol8 : CString → TarNumber
tar_atol8 s = octal_field (skip_spaces s)

-- The last loop of `tar_atol256`.
unfoldable pub base256_loop : ℕ → CString → ℕ
base256_loop n [] = n
base256_loop n (c ∷ s) = base256_loop ((n * 256 + c) % 2 ^ 64) s

abbrev pub out_of_range : ℕ → ℕ → ℕ → TarNumber
out_of_range sign min max = tar_ret_errno erange (if not (sign == 0) then min else max)

-- `c & 0x80`
abbrev pub high_bit : ℕ → Bool
high_bit c = not (bit_and c 0x80 == 0)

-- The loop over the bytes that do not fit, with the test behind it: `c` is the current byte and the
-- text is what follows.
unfoldable pub base256_last : ℕ → ℕ → ℕ → ℕ → ℕ → CString → TarNumber
base256_last n sign min max c s =
    if (if high_bit c then not (high_bit sign) else high_bit sign)
    then out_of_range sign min max
    else tar_ret_errno no_error (base256_loop n (c ∷ s))

unfoldable pub base256_skip : ℕ → ℕ → ℕ → ℕ → ℕ → CString → TarNumber
base256_skip n sign min max c [] = base256_last n sign min max c []
base256_skip n sign min max c (d ∷ s) =
    let next = base256_skip n sign min max d s in
    if leb 8 (length (d ∷ s))
    then (if not (c == sign) then out_of_range sign min max else next)
    else base256_last n sign min max c (d ∷ s)

-- `min` and `max` are given as `uintmax_t`. No field is empty.
unfoldable pub tar_atol256 : CString → ℕ → ℕ → TarNumber
tar_atol256 [] min max = tar_ret_errno einval 0
tar_atol256 (c ∷ s) min max =
    if c == 0x80 then base256_skip 0 0 min max 0 s else base256_skip uintmax c min max c s

unfoldable pub tar_atol : CString → ℕ → ℕ → TarNumber
tar_atol s min max = if peek s == 0xff || peek s == 0x80 then tar_atol256 s min max else tar_atol8 s

unfoldable pub bound_above : ℕ → TarNumber → TarNumber
bound_above max n = if ltb max n.value then tar_ret_errno erange uintmax else n

unfoldable pub tar_atoul : CString → ℕ → TarNumber
unfolding bound_above
tar_atoul s max = bound_above max (tar_atol s 0 uintmax)

-- `struct tar_header`, by fields.
pub record TarHeader : Type 0 where
  pub name : CString
  pub mode : CString
  pub uid : CString
  pub gid : CString
  pub size : CString
  pub mtime : CString
  pub checksum : CString
  pub linkflag : ℕ
  pub linkname : CString
  pub magic : CString
  pub user : CString
  pub group : CString
  pub devmajor : CString
  pub devminor : CString
  pub prefix : CString
  -- The bytes of the block behind the header.
  pub padding : CString

-- The file type bits, by the type flag; 0 where the type is another one.
unfoldable pub type_bits : ℕ → ℕ
type_bits t =
    if t == 0 || t == b'0' || t == b'1'
    then 0o100000
    else if t == b'2'
    then 0o120000
    else if t == b'5'
    then 0o040000
    else if t == b'3'
    then 0o020000
    else if t == b'4'
    then 0o060000
    else if t == b'6'
    then 0o010000
    else 0

-- `mode_t` has 32 bits.
unfoldable pub tar_header_get_unix_mode : TarHeader → ℕ
tar_header_get_unix_mode h =
    bit_or (type_bits h.linkflag) (bit_and ((tar_atoul h.mode 4294967295).value % 2 ^ 32) 0o7777)

unfoldable pub sum_bytes : ℕ → CString → ℕ
sum_bytes sum [] = sum
sum_bytes sum (c ∷ s) = sum_bytes (sum + c) s

abbrev pub before_checksum : TarHeader → CString
before_checksum h = h.name ++ (h.mode ++ (h.uid ++ (h.gid ++ (h.size ++ h.mtime))))

abbrev pub after_checksum : TarHeader → CString
after_checksum h =
    h.linkflag
    ∷ (h.linkname
        ++ (h.magic
            ++ (h.user ++ (h.group ++ (h.devmajor ++ (h.devminor ++ (h.prefix ++ h.padding)))))))

-- The sum starts at eight blanks, for the checksum field.
unfoldable pub tar_header_checksum : TarHeader → ℕ
tar_header_checksum h = sum_bytes (sum_bytes (b' ' * 8) (before_checksum h)) (after_checksum h)

-- The end of `tar_header_decode`: the checksum field against the sum.
pub data ChecksumResult : Type 0 where
  good invalid_field mismatch : ChecksumResult

abbrev pub is_error : TarErrno → Bool
is_error no_error = false
is_error _ = true

unfoldable pub check_checksum : TarHeader → ChecksumResult
check_checksum h =
    let n = tar_atol8 h.checksum in
    if is_error n.errno
    then invalid_field
    else if not (tar_header_checksum h == n.value)
    then mismatch
    else good

-- The constructors of `enum tar_format`.
pub data TarFormat : Type 0 where
  format_old format_gnu format_ustar : TarFormat

-- `memcmp` of the first six bytes.
unfoldable pub same_bytes : CString → CString → Bool
same_bytes [] [] = true
same_bytes (x ∷ a) (y ∷ b) = x == y && same_bytes a b
same_bytes _ _ = false

unfoldable pub tar_format : TarHeader → TarFormat
tar_format h =
    if same_bytes (take 6 h.magic) (codes "ustar ")
    then format_gnu
    else if same_bytes (take 6 h.magic) (codes "ustar" ++ 0 ∷ [])
    then format_ustar
    else format_old
