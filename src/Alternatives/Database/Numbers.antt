-- ===== src/Alternatives/Database/Numbers.antt =====
-- utils/update-alternatives.c: priorities, printed by `%d` and read by `strtol`.
use dpkg.Alternatives.Saving.{int_text}
use dpkg.Base.{
  Bool, Bool-cases, CString, [], ap, arith, false, in_set, inl, inr, length, ltb, refl, suc, sym,
  true, zero, ℕ, ◌%◌, ◌*◌, ◌+◌, ◌-◌, ◌/◌, ◌<◌, ◌==◌, ◌∙◌, ◌∷◌, ◌≡◌, ◌≤◌,
}
use dpkg.Base.Int.{negsuc, pos, ℤ}
use dpkg.CType.{c_isdigit, c_isspace}
use dpkg.CType.Classes.{c_isdigit_lem, c_isspace_lem}
use dpkg.DebVersion.Digits.{IsDigits, value}
use dpkg.VersionText.{
  clamp, decimal, decimal_loop, strtol, strtol_at, strtol_digits, strtol_from, strtol_sign,
}
use dpkg.Ar.Number.{decimal-IsDigits, length-decimal, ten_power, value-decimal}
use dpkg.Alternatives.Database.Lines.{IsLine}
use dpkg.Alternatives.Database.{bad_priority, bad_range, out_of_int}

pub digit-c_isdigit : (c : ℕ) → 48 ≤ c → c ≤ 57 → c_isdigit c ≡ true
digit-c_isdigit c l h = c_isdigit_lem c (omega arith) ∙ ground arith

pub digit-c_isspace : (c : ℕ) → 48 ≤ c → c ≤ 57 → c_isspace c ≡ false
digit-c_isspace c l h = c_isspace_lem c (omega arith) ∙ ground arith

strtol_digits-digits :
    (n i : ℕ) (s : CString) → IsDigits s → strtol_digits n i s ≡ (value n s, i + length s)
unfolding strtol_digits value
strtol_digits-digits n i [] d = ap (λ k. (n, k)) (omega arith)
strtol_digits-digits n i (c ∷ s) d = rw (digit-c_isdigit c d.0.0 d.0.1) (
    strtol_digits-digits (n * 10 + (c - b'0')) (i + 1) s d.1
    ∙ ap (λ k. (value (n * 10 + (c - b'0')) s, k)) (omega arith))

-- A number that fits, with no sign or a minus, behind `i` characters.
strtol_at-digits :
    (negative : Bool) (i c : ℕ) (s : CString) (v : ℤ)
    → IsDigits (c ∷ s)
    → clamp negative (value 0 (c ∷ s)) ≡ (v, false)
    → strtol_at negative i (c ∷ s) ≡ record { number = v; end = i + length (c ∷ s); erange = false }
unfolding strtol_at
strtol_at-digits negative i c s v d e =
    rw (strtol_digits-digits 0 i (c ∷ s) d, e, digit-c_isdigit c d.0.0 d.0.1) refl

strtol-digits :
    (c : ℕ) (s : CString) (v : ℤ)
    → IsDigits (c ∷ s)
    → clamp false (value 0 (c ∷ s)) ≡ (v, false)
    → strtol (c ∷ s) ≡ record { number = v; end = length (c ∷ s); erange = false }
unfolding strtol strtol_from strtol_sign
strtol-digits c s v d e =
    let minus : (c == b'-') ≡ false = ground arith in
    let plus : (c == b'+') ≡ false = ground arith in
    rw (digit-c_isspace c d.0.0 d.0.1, minus, plus)
      (strtol_at-digits false 0 c s v d e
        ∙ ap (λ k. record { number = v; end = k; erange = false }) (omega arith))

strtol-minus :
    (c : ℕ) (s : CString) (v : ℤ)
    → IsDigits (c ∷ s)
    → clamp true (value 0 (c ∷ s)) ≡ (v, false)
    → strtol (b'-' ∷ c ∷ s) ≡ record { number = v; end = length (b'-' ∷ c ∷ s); erange = false }
unfolding strtol strtol_from strtol_sign
strtol-minus c s v d e =
    let space : c_isspace b'-' ≡ false = c_isspace_lem b'-' (omega arith) in
    rw space (
      strtol_at-digits true 1 c s v d e
      ∙ ap (λ k. record { number = v; end = k; erange = false }) (omega arith))

pub decimal-cons : (n : ℕ) → (c : ℕ) × (s : CString) × (decimal n ≡ c ∷ s)
unfolding decimal
decimal-cons n = loop n n []
  where
    loop : (f n : ℕ) (out : CString) → (c : ℕ) × (s : CString) × (decimal_loop f n out ≡ c ∷ s)
    loop zero n out = unfold decimal_loop in (b'0' + n, out, refl)
    loop (suc f) n out =
        unfold decimal_loop in
        elim (Bool-cases (ltb n 10)) [
          | inl e ↦ (b'0' + n, out, rw e refl)
          | inr e ↦ rw e (loop f (n / 10) ((b'0' + n % 10) ∷ out))
        ]

-- A number printed by `%d` is read back.
pub strtol-int_text :
    (v : ℤ)
    → out_of_int v ≡ false
    → strtol (int_text v) ≡ record { number = v; end = length (int_text v); erange = false }
unfolding int_text clamp
strtol-int_text (pos n) h =
    let (c, s, e) = decimal-cons n in
    let d : IsDigits (c ∷ s) = rw e at (decimal-IsDigits n) in
    let w : value 0 (c ∷ s) ≡ n = ap (value 0) (sym e) ∙ value-decimal n in
    rw e (strtol-digits c s (pos n) d (rw w (ground arith)))
strtol-int_text (negsuc n) h =
    let (c, s, e) = decimal-cons (suc n) in
    let d : IsDigits (c ∷ s) = rw e at (decimal-IsDigits (suc n)) in
    let w : value 0 (c ∷ s) ≡ suc n = ap (value 0) (sym e) ∙ value-decimal (suc n) in
    rw e (strtol-minus c s (negsuc n) d (rw w (ground arith)))

digits-in_set : (s : CString) → IsDigits s → in_set 10 s ≡ false
digits-in_set [] d = refl
digits-in_set (c ∷ s) d =
    let other : (10 == c) ≡ false = ground arith in rw other (digits-in_set s d.1)

decimal-IsLine : (n : ℕ) → n ≤ 2147483648 → IsLine (decimal n)
decimal-IsLine n h = record {
  no_newline = digits-in_set (decimal n) (decimal-IsDigits n);
  fits =
      let short : n < ten_power 10 = unfold ten_power in omega arith in
      omega (arith, length-decimal n 9 short);
}

-- The text of a priority is one line.
pub int_text-IsLine : (v : ℤ) → out_of_int v ≡ false → IsLine (int_text v)
unfolding int_text
int_text-IsLine (pos n) h = decimal-IsLine n (ground arith)
int_text-IsLine (negsuc n) h =
    let short : suc n < ten_power 10 = unfold ten_power in ground arith in
    record {
      no_newline = digits-in_set (decimal (suc n)) (decimal-IsDigits (suc n));
      fits = omega (arith, length-decimal (suc n) 9 short);
    }

pub bad_priority-int_text :
    (v : ℤ) → out_of_int v ≡ false → bad_priority (int_text v) (strtol (int_text v)) ≡ false
unfolding bad_priority
bad_priority-int_text v h =
    let (c, s, e) = int_text-cons v in rw (strtol-int_text v h, e) (ground arith)
  where
    int_text-cons : (v : ℤ) → (c : ℕ) × (s : CString) × (int_text v ≡ c ∷ s)
    int_text-cons (pos n) = unfold int_text in decimal-cons n
    int_text-cons (negsuc n) = unfold int_text in (b'-', decimal (suc n), refl)

pub bad_range-int_text : (v : ℤ) → out_of_int v ≡ false → bad_range (strtol (int_text v)) ≡ false
unfolding bad_range
bad_range-int_text v h = rw (strtol-int_text v h, h) refl
