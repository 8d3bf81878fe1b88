-- ===== src/Names/Valid.antt =====
-- The languages of valid names of lib/dpkg/parsehelp.c, lib/dpkg/arch.c and lib/dpkg/trigname.c.
use dpkg.Base.{
  CString, IsCString, ℕ, ◌<◌, ◌≡◌, refl, ap, ◌↔◌, inl, inr, Bool, true, false, [], ◌∷◌, ◌++◌,
  Option, none, some, arith, Bool-cases, All,
}
use dpkg.CType.Classes.{c_isalnum_lem}
use dpkg.CType.{c_isalnum}
use dpkg.Names.{
  NameProblem, bad_start, bad_character, first_bad, problem_at, pkg_char, pkg_name_is_invalid,
  arch_char, dpkg_arch_name_is_invalid, trig_char, trig_name_is_invalid,
}

abbrev pub Every : (ℕ → Bool) → CString → Type 0
Every allowed = All (λ c. allowed c ≡ true)

pub first_bad-none :
    (allowed : ℕ → Bool) (s : CString) → first_bad allowed s ≡ none → Every allowed s
unfolding first_bad
first_bad-none allowed [] h = tt
first_bad-none allowed (c ∷ s) h = elim (Bool-cases (allowed c)) [
  | inl e ↦ (e, first_bad-none allowed s (rw e at h))
  | inr e ↦ let bad : ◌≡◌ {A = Option ℕ} (some c) none = rw e at h in cc
]

pub Every-first_bad :
    (allowed : ℕ → Bool) (s : CString) → Every allowed s → first_bad allowed s ≡ none
unfolding first_bad
Every-first_bad allowed [] h = refl
Every-first_bad allowed (c ∷ s) h = rw (h.0) (Every-first_bad allowed s h.1)

-- Where the loop breaks: all before is allowed.
pub record BreaksAt (allowed : ℕ → Bool) (s : CString) (c : ℕ) : Type 0 where
  pub before : CString
  pub after : CString
  pub splits : s ≡ before ++ c ∷ after
  pub before_allowed : Every allowed before
  pub refused : allowed c ≡ false

pub first_bad-some :
    (allowed : ℕ → Bool) (s : CString) {c : ℕ} → first_bad allowed s ≡ some c → BreaksAt allowed s c
unfolding first_bad
first_bad-some allowed [] {c} h = cc
first_bad-some allowed (x ∷ s) {c} h = elim (Bool-cases (allowed x)) [
  | inl e ↦
      let k = first_bad-some allowed s (rw e at h) in
      record {
        before = x ∷ k.before;
        after = k.after;
        splits = ap (◌∷◌ x) k.splits;
        before_allowed = (e, k.before_allowed);
        refused = k.refused;
      }
  | inr e ↦
      let same : ◌≡◌ {A = Option ℕ} (some x) (some c) = rw e at h in
      let is_c : x ≡ c = cc in
      record {
        before = [];
        after = s;
        splits = ap (λ y. y ∷ s) is_c;
        before_allowed = tt;
        refused = rw (← is_c) e;
      }
]

-- A package name: a letter or digit, and after it letters, digits and `-+._`.
abbrev pub IsPkgName : CString → Type 0
IsPkgName [] = ⊥
IsPkgName (c ∷ s) = (c_isalnum c ≡ true) × Every pkg_char s

abbrev pub IsArchName : CString → Type 0
IsArchName [] = ⊥
IsArchName (c ∷ s) = (c_isalnum c ≡ true) × Every arch_char s

problem_at-none : (o : Option ℕ) → problem_at o ≡ none → o ≡ none
unfolding problem_at
problem_at-none none h = refl
problem_at-none (some c) h = cc

pkg_char-alnum : (c : ℕ) → c_isalnum c ≡ true → pkg_char c ≡ true
unfolding pkg_char
pkg_char-alnum c h = rw h

-- pkg_name_is_invalid finds no problem exactly with a letter or digit followed by letters, digits
-- and the characters -+._ .
pub pkg_name_is_invalid-none : (s : CString) → (pkg_name_is_invalid s ≡ none) ↔ IsPkgName s
unfolding pkg_name_is_invalid
pkg_name_is_invalid-none [] = (λ h. cc, λ h. absurd h)
pkg_name_is_invalid-none (c ∷ s) = (to, from)
  where
    to : pkg_name_is_invalid (c ∷ s) ≡ none → IsPkgName (c ∷ s)
    to h = elim (Bool-cases (c_isalnum c)) [
      | inl e ↦ (e, (first_bad-none pkg_char (c ∷ s) (problem_at-none _ (rw e at h))).1)
      | inr e ↦ let bad : ◌≡◌ {A = Option NameProblem} (some bad_start) none = rw e at h in cc
    ]

    from : IsPkgName (c ∷ s) → pkg_name_is_invalid (c ∷ s) ≡ none
    from h =
        rw (h.0, Every-first_bad pkg_char (c ∷ s) (pkg_char-alnum c h.0, h.1))
          (unfold problem_at in refl)

-- dpkg_arch_name_is_invalid finds no problem exactly with a letter or digit followed by letters,
-- digits and dashes.
pub dpkg_arch_name_is_invalid-none :
    (s : CString) → (dpkg_arch_name_is_invalid s ≡ none) ↔ IsArchName s
unfolding dpkg_arch_name_is_invalid
dpkg_arch_name_is_invalid-none [] = (λ h. cc, λ h. absurd h)
dpkg_arch_name_is_invalid-none (c ∷ s) = (to, from)
  where
    to : dpkg_arch_name_is_invalid (c ∷ s) ≡ none → IsArchName (c ∷ s)
    to h = elim (Bool-cases (c_isalnum c)) [
      | inl e ↦ (e, first_bad-none arch_char s (problem_at-none _ (rw e at h)))
      | inr e ↦ let bad : ◌≡◌ {A = Option NameProblem} (some bad_start) none = rw e at h in cc
    ]

    from : IsArchName (c ∷ s) → dpkg_arch_name_is_invalid (c ∷ s) ≡ none
    from h = rw (h.0, Every-first_bad arch_char s h.1) (unfold problem_at in refl)

arch_char-pkg_char : (c : ℕ) → arch_char c ≡ true → pkg_char c ≡ true
unfolding arch_char pkg_char
arch_char-pkg_char c h = ground arith

pkg_char-trig_char : (c : ℕ) → c < 256 → pkg_char c ≡ true → trig_char c ≡ true
unfolding pkg_char trig_char
pkg_char-trig_char c b h = ground (arith, c_isalnum_lem c b)

Every-map :
    (p q : ℕ → Bool) (s : CString)
    → IsCString s
    → ((c : ℕ) → c < 256 → p c ≡ true → q c ≡ true)
    → Every p s
    → Every q s
Every-map p q [] b f h = tt
Every-map p q (c ∷ s) b f h = (f c b.0.1 h.0, Every-map p q s b.1 f h.1)

-- A byte string that is a valid architecture name is a valid package name.
pub arch_name-pkg_name :
    (s : CString) → IsCString s → dpkg_arch_name_is_invalid s ≡ none → pkg_name_is_invalid s ≡ none
arch_name-pkg_name [] b h = absurd ((dpkg_arch_name_is_invalid-none []).0 h)
arch_name-pkg_name (c ∷ s) b h =
    let a = (dpkg_arch_name_is_invalid-none (c ∷ s)).0 h in
    (pkg_name_is_invalid-none (c ∷ s)).1
      (a.0, Every-map arch_char pkg_char s b.1 (λ x _. arch_char-pkg_char x) a.1)

-- A byte string that is a valid package name is a valid trigger name.
pub pkg_name-trig_name :
    (s : CString) → IsCString s → pkg_name_is_invalid s ≡ none → trig_name_is_invalid s ≡ none
unfolding trig_name_is_invalid
pkg_name-trig_name [] b h = absurd ((pkg_name_is_invalid-none []).0 h)
pkg_name-trig_name (c ∷ s) b h =
    let a = (pkg_name_is_invalid-none (c ∷ s)).0 h in
    let e = Every-map pkg_char trig_char (c ∷ s) b pkg_char-trig_char (pkg_char-alnum c a.0, a.1) in
    rw (Every-first_bad trig_char (c ∷ s) e) (unfold problem_at in refl)

-- The character that the message about a package name shows is its first one that is not allowed.
pub pkg_name_is_invalid-bad_character :
    (s : CString) {c : ℕ} → pkg_name_is_invalid s ≡ some (bad_character c) → BreaksAt pkg_char s c
unfolding pkg_name_is_invalid
pkg_name_is_invalid-bad_character [] {c} h = cc
pkg_name_is_invalid-bad_character (x ∷ s) {c} h = elim (Bool-cases (c_isalnum x)) [
  | inl e ↦ first_bad-some pkg_char (x ∷ s) (found _ (rw e at h))
  | inr e ↦
      let bad : ◌≡◌ {A = Option NameProblem} (some bad_start) (some (bad_character c)) =
        rw e at h in
      cc
]
  where
    found : (o : Option ℕ) → problem_at o ≡ some (bad_character c) → o ≡ some c
    found none h = unfold problem_at in cc
    found (some d) h = unfold problem_at in cc
