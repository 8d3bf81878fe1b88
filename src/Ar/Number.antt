-- ===== src/Ar/Number.antt =====
-- Numbers in decimal, for lib/dpkg/ar.c: the value, the digits and the length of their text.
use dpkg.Base.{
  CString, ℕ, zero, suc, ◌+◌, ◌-◌, ◌*◌, ◌/◌, ◌%◌, ◌≤◌, ◌<◌, ◌≡◌, refl, ap, ◌∙◌, inl, inr, true, [],
  ◌∷◌, arith, ltb, Bool-cases, length,
}
use dpkg.DebVersion.Digits.{IsDigits, value}
use dpkg.VersionText.{decimal, decimal_loop}

value-decimal_loop :
    (f n : ℕ) (out : CString) → n ≤ f → value 0 (decimal_loop f n out) ≡ value n out
unfolding decimal_loop value
value-decimal_loop zero n out h =
    let e : 0 * 10 + (b'0' + n - b'0') ≡ n = omega arith in ap (λ k. value k out) e
value-decimal_loop (suc f) n out h = elim (Bool-cases (ltb n 10)) [
  | inl s ↦ let e : 0 * 10 + (b'0' + n - b'0') ≡ n = omega arith in rw s (ap (λ k. value k out) e)
  | inr s ↦
      let big : 10 ≤ n = ground arith in
      let e : n / 10 * 10 + (b'0' + n % 10 - b'0') ≡ n = omega arith in
      rw s (
        value-decimal_loop f (n / 10) ((b'0' + n % 10) ∷ out) (omega arith)
        ∙ ap (λ k. value k out) e)
]

-- The text of a number has its value.
pub value-decimal : (n : ℕ) → value 0 (decimal n) ≡ n
unfolding decimal
value-decimal n = value-decimal_loop n n [] (omega arith) ∙ unfold value in refl

decimal_loop-IsDigits :
    (f n : ℕ) (out : CString) → n ≤ f → IsDigits out → IsDigits (decimal_loop f n out)
unfolding decimal_loop
decimal_loop-IsDigits zero n out h d = (omega arith, d)
decimal_loop-IsDigits (suc f) n out h d = elim (Bool-cases (ltb n 10)) [
  | inl s ↦ let l : n < 10 = ground arith in rw s (omega arith, d)
  | inr s ↦
      let big : 10 ≤ n = ground arith in
      rw s (decimal_loop-IsDigits f (n / 10) ((b'0' + n % 10) ∷ out) (omega arith) (omega arith, d))
]

pub decimal-IsDigits : (n : ℕ) → IsDigits (decimal n)
unfolding decimal
decimal-IsDigits n = decimal_loop-IsDigits n n [] (omega arith) tt

-- Ten to the power of `k`.
unfoldable pub ten_power : ℕ → ℕ
ten_power zero = 1
ten_power (suc k) = 10 * ten_power k

length-decimal_loop :
    (f n k : ℕ) (out : CString)
    → n ≤ f
    → n < ten_power (suc k)
    → length (decimal_loop f n out) ≤ suc k + length out
unfolding decimal_loop ten_power
length-decimal_loop zero n k out h l = omega arith
length-decimal_loop (suc f) n zero out h l =
    let s : ltb n 10 ≡ true = ground arith in rw s (omega arith)
length-decimal_loop (suc f) n (suc k) out h l = elim (Bool-cases (ltb n 10)) [
  | inl s ↦ rw s (omega arith)
  | inr s ↦
      let big : 10 ≤ n = ground arith in
      rw s (
        omega (
          arith,
          length-decimal_loop f (n / 10) k ((b'0' + n % 10) ∷ out) (omega arith) (omega arith),
        ))
]

-- A number below ten to the power of `k + 1` has at most `k + 1` digits.
pub length-decimal : (n k : ℕ) → n < ten_power (suc k) → length (decimal n) ≤ suc k
unfolding decimal
length-decimal n k l = omega (arith, length-decimal_loop n n k [] (omega arith) l)
