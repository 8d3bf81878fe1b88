-- ===== src/Tar/Octal.antt =====
-- lib/dpkg/tarfn.c: octal fields, as `tar_atol8` reads them.
use dpkg.Base.{
  CString, ℕ, ◌+◌, ◌-◌, ◌*◌, ◌%◌, ◌^◌, ◌≤◌, ◌<◌, ◌≡◌, refl, ap, ◌∙◌, ◌≢◌, true, false, ◌||◌, [],
  ◌∷◌, ◌++◌, arith, ltb, All,
}
use dpkg.Tar.{
  no_error, tar_ret_errno, is_filler, skip_spaces, check_fillers, octal_loop, octal_field,
  tar_atol8,
}

abbrev pub IsOctal : CString → Type 0
IsOctal = All (λ c. (48 ≤ c) × (c ≤ 55))

abbrev pub AreFillers : CString → Type 0
AreFillers = All (λ c. is_filler c ≡ true)

abbrev pub AreSpaces : CString → Type 0
AreSpaces = All (λ c. c ≡ b' ')

unfoldable pub octal_value : ℕ → CString → ℕ
octal_value n [] = n
octal_value n (c ∷ s) = octal_value (n * 8 + (c - b'0')) s

le-octal_value : (n : ℕ) (s : CString) → n ≤ octal_value n s
unfolding octal_value
le-octal_value n [] = omega arith
le-octal_value n (c ∷ s) = omega (arith, le-octal_value (n * 8 + (c - b'0')) s)

check_fillers_lem :
    (n : ℕ) (s : CString) → AreFillers s → check_fillers n s ≡ tar_ret_errno no_error n
unfolding check_fillers
check_fillers_lem n [] h = refl
check_fillers_lem n (c ∷ s) h = rw (h.0) (check_fillers_lem n s h.1)

octal_loop-fillers :
    (n : ℕ) (s : CString) → AreFillers s → octal_loop n s ≡ tar_ret_errno no_error n
unfolding octal_loop
octal_loop-fillers n [] h = check_fillers_lem n [] h
octal_loop-fillers n (c ∷ s) h = rw (h.0) (check_fillers_lem n (c ∷ s) h)

octal_tests :
    (c : ℕ) → (48 ≤ c) × (c ≤ 55) → (is_filler c ≡ false) × ((ltb c b'0' || ltb b'7' c) ≡ false)
octal_tests c h = (ground arith, ground arith)

octal_loop-digit :
    (n c : ℕ) (s : CString)
    → (48 ≤ c) × (c ≤ 55)
    → octal_loop n (c ∷ s) ≡ octal_loop ((n * 8 + (c - b'0')) % 2 ^ 64) s
unfolding octal_loop
octal_loop-digit n c s h = rw ((octal_tests c h).0, (octal_tests c h).1) refl

octal_loop-digits :
    (n : ℕ) (ds fill : CString)
    → IsOctal ds
    → AreFillers fill
    → octal_value n ds < 2 ^ 64
    → octal_loop n (ds ++ fill) ≡ tar_ret_errno no_error (octal_value n ds)
unfolding octal_value
octal_loop-digits n [] fill h f l = octal_loop-fillers n fill f
octal_loop-digits n (c ∷ ds) fill h f l =
    let m = n * 8 + (c - b'0') in
    let small : m % 2 ^ 64 ≡ m = omega (arith, le-octal_value m ds) in
    octal_loop-digit n c (ds ++ fill) h.0
    ∙ ap (λ k. octal_loop k (ds ++ fill)) small
    ∙ octal_loop-digits m ds fill h.1 f l

skip_spaces-digits :
    (sp ds fill : CString)
    → AreSpaces sp
    → IsOctal ds
    → ds ≢ []
    → skip_spaces (sp ++ (ds ++ fill)) ≡ ds ++ fill
unfolding skip_spaces
skip_spaces-digits [] [] fill s h n = absurd (n refl)
skip_spaces-digits [] (c ∷ ds) fill s h n = ground arith
skip_spaces-digits (c ∷ sp) ds fill s h n = ground (arith, skip_spaces-digits sp ds fill s.1 h n)

-- A field of spaces, octal digits, one at least and their number below 2^64, and NULs or spaces is
-- read as that number, with no error.
pub tar_atol8-octal :
    (sp ds fill : CString)
    → AreSpaces sp
    → IsOctal ds
    → ds ≢ []
    → AreFillers fill
    → octal_value 0 ds < 2 ^ 64
    → tar_atol8 (sp ++ (ds ++ fill)) ≡ tar_ret_errno no_error (octal_value 0 ds)
unfolding tar_atol8
tar_atol8-octal sp [] fill s h n f l = absurd (n refl)
tar_atol8-octal sp (c ∷ ds) fill s h n f l =
    rw (skip_spaces-digits sp (c ∷ ds) fill s h n)
      (unfold octal_field in octal_loop-digits 0 (c ∷ ds) fill h f l)
