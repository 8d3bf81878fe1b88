-- ===== src/DebVersion/Digits.antt =====
-- Runs of decimal digits: their values, and what the loop of lib/dpkg/deb-version.c makes of them.
use dpkg.Base.{
  CString, IsCString, ℕ, ◌+◌, ◌-◌, ◌*◌, ◌%◌, ◌^◌, ◌≤◌, ◌<◌, ◌≡◌, refl, sym, ap, ◌∙◌, ◌≢◌, inl, inr,
  true, false, ◌&&◌, ◌||◌, [], ◌∷◌, ◌++◌, Option, none, some, arith, ltb, leb, ◌==◌, if◌then◌else◌,
  Bool-cases, All,
}
use mathlib.Core.Bool.{false≢true}
use dpkg.CType.Classes.{c_isdigit_lem}
use dpkg.CType.{c_isdigit}
use dpkg.DebVersion.{int_max, div_limit, mod_limit, scan_component, no_digits}

-- A run of digits.
abbrev pub IsDigits : CString → Type 0
IsDigits = All (λ c. (48 ≤ c) × (c ≤ 57))

-- The value of a run of digits after a number.
unfoldable pub value : ℕ → CString → ℕ
value n [] = n
value n (c ∷ s) = value (n * 10 + (c - b'0')) s

pub le-value : (n : ℕ) (s : CString) → n ≤ value n s
unfolding value
le-value n [] = omega arith
le-value n (c ∷ s) = omega (arith, le-value (n * 10 + (c - b'0')) s)

pub digit-true : (c : ℕ) → 48 ≤ c → c ≤ 57 → c_isdigit c ≡ true
digit-true c h k = ground (arith, c_isdigit_lem c)

pub digit-range : (c : ℕ) → c < 256 → c_isdigit c ≡ true → (48 ≤ c) × (c ≤ 57)
digit-range c h d = ground (arith, c_isdigit_lem c)

-- The test against the limits is exact, and the sum does not wrap.
limit_test :
    (n d : ℕ)
    → n ≤ int_max
    → d ≤ 9
    → (ltb div_limit n || n == div_limit && ltb mod_limit d) ≡ ltb int_max (n * 10 + d)
limit_test n d h k = ground arith

no_wrap : (m : ℕ) → m ≤ int_max → m % 2 ^ 32 ≡ m
no_wrap m h = omega arith

-- A component that starts at a run of digits, with no digit behind it.
pub scan_component-digits :
    (n : ℕ) (ds rest : CString)
    → IsDigits ds
    → n ≤ int_max
    → no_digits rest ≡ true
    → scan_component n (ds ++ rest)
      ≡ (if leb (value n ds) int_max then some (value n ds, rest) else none)
unfolding scan_component value
scan_component-digits n [] [] h l e = ground arith
scan_component-digits n [] (c ∷ rest) h l e = ground arith
scan_component-digits n (c ∷ ds) rest h l e =
    rw (digit-true c h.0.0 h.0.1, limit_test n (c - b'0') l (omega arith))
      (elim (Bool-cases (ltb int_max (n * 10 + (c - b'0')))) [
        | inl big ↦ rw big (ground (arith, le-value (n * 10 + (c - b'0')) ds))
        | inr fits ↦
            rw (fits, no_wrap (n * 10 + (c - b'0')) (ground arith))
              (scan_component-digits (n * 10 + (c - b'0')) ds rest h.1 (ground arith) e)
      ])

-- What the loop has read, if it ends within the limits.
pub record Component (n : ℕ) (s : CString) (v : ℕ) (rest : CString) : Type 0 where
  pub digits : CString
  pub splits : s ≡ digits ++ rest
  pub all_digits : IsDigits digits
  pub has_value : v ≡ value n digits
  pub in_range : v ≤ int_max
  pub ends : no_digits rest ≡ true
  pub nonempty : no_digits s ≡ false → digits ≢ []

Component-cons :
    (n c : ℕ) (s : CString) (v : ℕ) (rest : CString)
    → (48 ≤ c) × (c ≤ 57)
    → Component (n * 10 + (c - b'0')) s v rest
    → Component n (c ∷ s) v rest
unfolding value
Component-cons n c s v rest d k = record {
  digits = c ∷ k.digits;
  splits = ap (◌∷◌ c) k.splits;
  all_digits = (d, k.all_digits);
  has_value = k.has_value;
  in_range = k.in_range;
  ends = k.ends;
  nonempty = λ h e. cc;
}

Component-nil :
    (n : ℕ) (s : CString) (v : ℕ) (rest : CString)
    → n ≤ int_max
    → no_digits s ≡ true
    → n ≡ v
    → s ≡ rest
    → Component n s v rest
unfolding value
Component-nil n s v rest l h e f = record {
  digits = [];
  splits = f;
  all_digits = tt;
  has_value = sym e;
  in_range = omega arith;
  ends = rw (← f) h;
  nonempty = λ k _. absurd (false≢true (sym k ∙ h));
}

pub scan_component-Component :
    (s : CString) (n v : ℕ) (rest : CString)
    → IsCString s
    → n ≤ int_max
    → scan_component n s ≡ some (v, rest)
    → Component n s v rest
unfolding scan_component
scan_component-Component [] n v rest b l e = Component-nil n [] v rest l refl (cc) (cc)
scan_component-Component (c ∷ s) n v rest b l e = elim (Bool-cases (c_isdigit c)) [
  | inr h ↦
      let e' : ◌≡◌ {A = Option (ℕ × CString)} (some (n, c ∷ s)) (some (v, rest)) = rw h at e in
      Component-nil n (c ∷ s) v rest l (rw h) (cc) (cc)
  | inl h ↦
      let d = digit-range c b.0.1 h in
      let m = n * 10 + (c - b'0') in
      elim (Bool-cases (ltb int_max m)) [
        | inl big ↦
            let e' : ◌≡◌ {A = Option (ℕ × CString)} none (some (v, rest)) =
              rw (h, limit_test n (c - b'0') l (omega arith), big) at e in
            cc
        | inr fits ↦
            let le : m ≤ int_max = ground arith in
            Component-cons n c s v rest d (
              scan_component-Component s m v rest b.1 le
                (rw (h, limit_test n (c - b'0') l (omega arith), fits, no_wrap m le) at e))
      ]
]
