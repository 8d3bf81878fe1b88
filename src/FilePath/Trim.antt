-- ===== src/FilePath/Trim.antt =====
-- lib/dpkg/path.c: what trimming and quoting pathnames leaves.
use dpkg.Base.{
  passes_below, CString, IsCString, peek, ℕ, ◌+◌, ◌-◌, ◌/◌, ◌<◌, ◌≡◌, refl, ap, ◌∙◌, ◌≢◌, ◌⊎◌, inl,
  inr, true, false, ◌&&◌, ◌||◌, [], ◌∷◌, ◌++◌, some, arith, ltb, leb, ◌==◌, Bool-cases, length, All,
}
use Prim.Native.Nat.{bit_and}
use mathlib.Core.List.{reverse, reverse-reverse}
use dpkg.CType.Classes.{eq_of_table}
use dpkg.FilePath.{
  trim_loop, path_trim_slash_slashdot, path_skip_slash_dotslash, quote_loop, path_quote_filename,
}

trim_loop_idem : (r : CString) → trim_loop (trim_loop r) ≡ trim_loop r
unfolding trim_loop
trim_loop_idem [] = refl
trim_loop_idem (x ∷ []) = refl
trim_loop_idem (x ∷ y ∷ r) = elim (Bool-cases (x == b'/' || y == b'/' && x == b'.')) [
  | inl h ↦ rw h (trim_loop_idem (y ∷ r))
  | inr h ↦ rw h (unfold trim_loop in rw h refl)
]

-- Trimming the slashes and slash-dots at the end of a path twice is trimming them once.
pub path_trim_slash_slashdot_idem :
    (path : CString)
    → path_trim_slash_slashdot (path_trim_slash_slashdot path) ≡ path_trim_slash_slashdot path
unfolding path_trim_slash_slashdot
path_trim_slash_slashdot_idem path =
    ap (λ r. reverse (trim_loop r)) (reverse-reverse (trim_loop (reverse path)))
    ∙ ap reverse (trim_loop_idem (reverse path))

-- No slash and no dot with a slash behind it is at the start.
abbrev pub IsSkipped : CString → Type 0
IsSkipped [] = Unit
IsSkipped (c ∷ s) = (c ≢ b'/') × ((c ≡ b'.') → peek s ≢ b'/')

-- What path_skip_slash_dotslash skips is made of slashes and dots, and what is left starts with
-- neither a slash nor dot-slash.
pub path_skip_slash_dotslash_lem :
    (path : CString)
    → (p : CString) × (path ≡ p ++ path_skip_slash_dotslash path)
      × All (λ c. (c ≡ b'/') ⊎ (c ≡ b'.')) p
      × IsSkipped (path_skip_slash_dotslash path)
unfolding path_skip_slash_dotslash
path_skip_slash_dotslash_lem [] = ([], refl, tt, tt)
path_skip_slash_dotslash_lem (c ∷ s) =
    elim (Bool-cases (c == b'/' || c == b'.' && peek s == b'/')) [
      | inl h ↦
          let (p, e, a, k) = path_skip_slash_dotslash_lem s in
          (c ∷ p, rw h (ap (◌∷◌ c) e), (either c (peek s) h, a), rw h k)
      | inr h ↦ ([], rw h refl, tt, rw h (neither c (peek s) h))
    ]
  where
    either : (c d : ℕ) → (c == b'/' || c == b'.' && d == b'/') ≡ true → (c ≡ b'/') ⊎ (c ≡ b'.')
    either c d h = ground arith

    neither :
        (c d : ℕ)
        → (c == b'/' || c == b'.' && d == b'/') ≡ false
        → (c ≢ b'/') × ((c ≡ b'.') → d ≢ b'/')
    neither c d h = (λ e. ground arith, λ e f. ground arith)

low_byte : (c : ℕ) → c < 256 → (bit_and c 0x80 == 0) ≡ ltb c 128
low_byte = eq_of_table (λ c. bit_and c 0x80 == 0) (λ c. ltb c 128) (unfold passes_below in refl)

lead : (c : ℕ) → c < 256 → b'0' + c / 64 < 128
lead c h = omega arith

-- A quoted name of a size, with its NUL.
abbrev IsQuoted : ℕ → CString → Type 0
IsQuoted n out = (length out < n) × All (λ c. c < 128) out

quote_loop-IsQuoted : (s : CString) (n : ℕ) → IsCString s → 0 < n → IsQuoted n (quote_loop n s)
unfolding quote_loop
quote_loop-IsQuoted [] n b h = (omega arith, tt)
quote_loop-IsQuoted (c ∷ s) n b h = elim (Bool-cases (c == b'\\')) [
  | inl e ↦ elim (Bool-cases (leb n 2)) [
    | inl f ↦ rw (e, f) (omega arith, tt)
    | inr f ↦
        let l : 2 < n = ground arith in
        let (i, j) = quote_loop-IsQuoted s (n - 2) b.1 (omega arith) in
        rw (e, f) (omega arith, (omega arith, (omega arith, j)))
  ]
  | inr e ↦ elim (Bool-cases (ltb c 128)) [
    | inl d ↦ elim (Bool-cases (leb n 1)) [
      | inl f ↦ rw (e, low_byte c b.0.1, d, f) (omega arith, tt)
      | inr f ↦
          let l : 1 < n = ground arith in
          let k : c < 128 = ground arith in
          let (i, j) = quote_loop-IsQuoted s (n - 1) b.1 (omega arith) in
          rw (e, low_byte c b.0.1, d, f) (omega arith, (k, j))
    ]
    | inr d ↦ elim (Bool-cases (leb n 4)) [
      | inl f ↦ rw (e, low_byte c b.0.1, d, f) (omega arith, tt)
      | inr f ↦
          let l : 4 < n = ground arith in
          let (i, j) = quote_loop-IsQuoted s (n - 4) b.1 (omega arith) in
          rw (e, low_byte c b.0.1, d, f)
            (omega arith, (omega arith, (lead c b.0.1, (omega arith, (omega arith, j)))))
    ]
  ]
]

-- With a buffer of one byte at least, the quoted name of a byte string fits with its NUL and is all
-- ASCII.
pub path_quote_filename-IsQuoted :
    (src : CString) (n : ℕ)
    → IsCString src
    → 0 < n
    → (out : CString) × (path_quote_filename src n ≡ some out)
      × (length out < n)
      × All (λ c. c < 128) out
unfolding path_quote_filename
path_quote_filename-IsQuoted src n b h =
    let (i, j) = quote_loop-IsQuoted src n b h in (quote_loop n src, ground arith, i, j)
