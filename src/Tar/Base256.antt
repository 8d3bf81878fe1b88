-- ===== src/Tar/Base256.antt =====
-- lib/dpkg/tarfn.c: positive numbers in base 256, as `tar_atol256` reads them.
use dpkg.Base.{
  CString, ℕ, zero, suc, ◌+◌, ◌-◌, ◌*◌, ◌%◌, ◌^◌, ◌≤◌, ◌<◌, ◌≡◌, refl, ap, ◌∙◌, inl, inr, true,
  false, [], ◌∷◌, arith, ltb, leb, ◌==◌, if◌then◌else◌, Bool-cases, passes_below, length, All,
}
use dpkg.CType.Classes.{eq_of_table}
use dpkg.Tar.{
  TarNumber, no_error, erange, tar_ret_errno, out_of_range, high_bit, base256_loop, base256_last,
  base256_skip, tar_atol256,
}

-- The number that the bytes stand for, the first one most significant.
unfoldable pub be_value : ℕ → CString → ℕ
be_value n [] = n
be_value n (c ∷ s) = be_value (n * 256 + c) s

le-be_value : (n : ℕ) (s : CString) → n ≤ be_value n s
unfolding be_value
le-be_value n [] = omega arith
le-be_value n (c ∷ s) = omega (arith, le-be_value (n * 256 + c) s)

abbrev pub AreBytes : CString → Type 0
AreBytes = All (λ c. c < 256)

-- 256 to the power of `k`.
power : ℕ → ℕ
power zero = 1
power (suc k) = 256 * power k

be_value-lower : (n : ℕ) (s : CString) → n * power (length s) ≤ be_value n s
unfolding be_value power
be_value-lower n [] = omega arith
be_value-lower n (c ∷ s) = omega (arith, be_value-lower (n * 256 + c) s)

times_mono : (c p : ℕ) → c < 256 → c * p + p ≤ 256 * p
times_mono c p h = grind arith

be_value-upper : (n : ℕ) (s : CString) → AreBytes s → be_value n s < (n + 1) * power (length s)
unfolding be_value power
be_value-upper n [] h = omega arith
be_value-upper n (c ∷ s) h =
    omega (arith, be_value-upper (n * 256 + c) s h.1, times_mono c (power (length s)) h.0)

power_large : (k l : ℕ) → l ≡ 8 + k → 2 ^ 64 ≤ power l
unfolding power
power_large zero l e = rw e (omega arith)
power_large (suc k) zero e = absurd (omega arith)
power_large (suc k) (suc l) e = omega (arith, power_large k l (omega arith))

base256_loop-exact : (n : ℕ) (s : CString) → be_value n s < 2 ^ 64 → base256_loop n s ≡ be_value n s
unfolding base256_loop be_value
base256_loop-exact n [] l = refl
base256_loop-exact n (c ∷ s) l =
    let small : (n * 256 + c) % 2 ^ 64 ≡ n * 256 + c = omega (arith, le-be_value (n * 256 + c) s) in
    rw small (base256_loop-exact (n * 256 + c) s l)

high_bit_lem : (c : ℕ) → c < 256 → high_bit c ≡ leb 128 c
high_bit_lem = eq_of_table high_bit (λ c. leb 128 c) (unfold passes_below in refl)

abbrev outcome : ℕ → ℕ → TarNumber
outcome max v = if ltb v (2 ^ 63) then tar_ret_errno no_error v else tar_ret_errno erange max

out_big : (min max v : ℕ) → 2 ^ 63 ≤ v → out_of_range 0 min max ≡ outcome max v
out_big min max v h = ground arith

out_small : (max v : ℕ) → v < 2 ^ 63 → tar_ret_errno no_error v ≡ outcome max v
out_small max v h = ground arith

power_seven : (s : CString) → length s ≡ 7 → power (length s) ≡ 2 ^ 56
power_seven s l = rw l (unfold power in refl)

-- The last eight bytes.
base256_last-outcome :
    (min max c : ℕ) (s : CString)
    → length s ≡ 7
    → AreBytes (c ∷ s)
    → base256_last 0 0 min max c s ≡ outcome max (be_value 0 (c ∷ s))
base256_last-outcome min max c s l h = elim (Bool-cases (leb 128 c)) [
  | inl big ↦
      let low = rw (power_seven s l) at (be_value-lower (0 * 256 + c) s) in
      let ge : 2 ^ 63 ≤ be_value (0 * 256 + c) s = ground arith in
      unfold base256_last be_value in rw (high_bit_lem c h.0, big) (out_big min max _ ge)
  | inr small ↦
      let up = rw (power_seven s l) at (be_value-upper (0 * 256 + c) s h.1) in
      let lt : be_value (0 * 256 + c) s < 2 ^ 63 = ground arith in
      let exact : base256_loop 0 (c ∷ s) ≡ be_value 0 (c ∷ s) =
        base256_loop-exact 0 (c ∷ s) (unfold be_value in omega arith) in
      unfold base256_last in
      rw (high_bit_lem c h.0, small, exact) (out_small max _ (unfold be_value in omega arith))
]

at_least : (c p : ℕ) → 0 < c → p ≤ (0 * 256 + c) * p
at_least c p h = grind arith

nonzero : (c : ℕ) → (c == 0) ≡ false → 0 < c
nonzero c h = ground arith

zero_byte : (c : ℕ) (s : CString) → (c == 0) ≡ true → be_value 0 (c ∷ s) ≡ be_value 0 s
unfolding be_value
zero_byte c s h = let e : 0 * 256 + c ≡ 0 = ground arith in rw e refl

is_seven : (s : CString) → 7 ≤ length s → leb 8 (length s) ≡ false → length s ≡ 7
is_seven s h k = ground arith

eight : (s : CString) → leb 8 (length s) ≡ true → length s ≡ 8 + (length s - 8)
eight s h = ground arith

large_value :
    (c : ℕ) (s : CString) → leb 8 (length s) ≡ true → (c == 0) ≡ false → 2 ^ 63 ≤ be_value 0 (c ∷ s)
unfolding be_value
large_value c s k z = omega (
  arith,
  power_large (length s - 8) (length s) (eight s k),
  at_least c (power (length s)) (nonzero c z),
  be_value-lower (0 * 256 + c) s,
)

base256_skip-outcome :
    (s : CString) (min max c : ℕ)
    → 7 ≤ length s
    → AreBytes (c ∷ s)
    → base256_skip 0 0 min max c s ≡ outcome max (be_value 0 (c ∷ s))
unfolding base256_skip
base256_skip-outcome [] min max c l h = absurd (omega arith)
base256_skip-outcome (d ∷ s) min max c l h = elim (Bool-cases (leb 8 (length (d ∷ s)))) [
  | inl long ↦ elim (Bool-cases (c == 0)) [
    | inl z ↦
        rw (long, z, zero_byte c (d ∷ s) z) (base256_skip-outcome s min max d (ground arith) h.1)
    | inr z ↦ rw (long, z) (out_big min max _ (large_value c (d ∷ s) long z))
  ]
  | inr short ↦ rw short (base256_last-outcome min max c (d ∷ s) (is_seven (d ∷ s) l short) h)
]

-- A field of at least eight bytes that starts with 0x80 is read as the big-endian number behind it
-- if that is below 2^63, and is out of range otherwise.
pub tar_atol256_positive :
    (s : CString) (min max : ℕ)
    → 7 ≤ length s
    → AreBytes s
    → tar_atol256 (0x80 ∷ s) min max ≡ (
        if ltb (be_value 0 s) (2 ^ 63)
        then tar_ret_errno no_error (be_value 0 s)
        else tar_ret_errno erange max)
unfolding tar_atol256
tar_atol256_positive s min max l h =
    base256_skip-outcome s min max 0 l (omega arith, h) ∙ ap (outcome max) (zero_byte 0 s refl)
