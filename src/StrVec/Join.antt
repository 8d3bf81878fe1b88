-- ===== src/StrVec/Join.antt =====
-- lib/dpkg/strvec.c: splitting and joining.
use mathlib.Core.Path.{subst}
use dpkg.StrVec.{StrVec, split_loop, strvec_join, strvec_split}
use dpkg.Base.{
  All, Bool, Bool-cases, CString, [], ap, arith, false, in_set, inl, inr, refl, sym, true, ℕ, ◌++◌,
  ◌==◌, ◌∙◌, ◌∷◌, ◌≡◌,
}

module _ (sep : ℕ) where
  pub split_loop_other :
      (skip run : Bool) (c : ℕ) (str : CString)
      → (c == sep) ≡ false
      → split_loop skip sep run (c ∷ str)
        ≡ (c ∷ (split_loop skip sep false str).0, (split_loop skip sep false str).1)
  split_loop_other skip run c str e = rw (e, split_loop) refl

  pub split_loop_same :
      (skip : Bool) (c : ℕ) (str : CString)
      → (c == sep) ≡ true
      → split_loop skip sep false (c ∷ str)
        ≡ ([], (split_loop skip sep skip str).0 ∷ (split_loop skip sep skip str).1)
  split_loop_same skip c str e = rw (e, split_loop) refl

  pub split_loop_run :
      (skip : Bool) (c : ℕ) (str : CString)
      → (c == sep) ≡ true
      → split_loop skip sep true (c ∷ str) ≡ split_loop skip sep true str
  split_loop_run skip c str e = rw (e, split_loop) refl

  pub join_cons :
      (c : ℕ) (part : CString) (rest : StrVec)
      → strvec_join ((c ∷ part) ∷ rest) sep ≡ c ∷ strvec_join (part ∷ rest) sep
  unfolding strvec_join
  join_cons c part [] = refl
  join_cons c part (s ∷ rest) = refl

  abbrev rejoin : CString × StrVec → CString
  rejoin (part, rest) = strvec_join (part ∷ rest) sep

  join-split_loop : (str : CString) → rejoin (split_loop false sep false str) ≡ str
  unfolding strvec_join
  join-split_loop [] = refl
  join-split_loop (c ∷ str) = elim (Bool-cases (c == sep)) [
    | inl e ↦
        let same : sep ≡ c = ground (arith, e) in
        ap rejoin (split_loop_same false c str e)
        ∙ ap (λ s. sep ∷ s) (join-split_loop str)
        ∙ ap (λ x. x ∷ str) same
    | inr e ↦
        let r = split_loop false sep false str in
        ap rejoin (split_loop_other false false c str e)
        ∙ join_cons c r.0 r.1
        ∙ ap (λ s. c ∷ s) (join-split_loop str)
  ]

-- Splitting any string at a separator, repeated ones included, and joining the parts with it gives
-- the string.
pub strvec_join-strvec_split :
    (str : CString) (sep : ℕ) → strvec_join (strvec_split str sep false) sep ≡ str
unfolding strvec_split
strvec_join-strvec_split str sep = join-split_loop sep str

module _ (sep : ℕ) where
  split_loop-append :
      (a str : CString)
      → in_set sep a ≡ false
      → split_loop false sep false (a ++ sep ∷ str)
        ≡ (a, (split_loop false sep false str).0 ∷ (split_loop false sep false str).1)
  split_loop-append [] str h = split_loop_same sep false sep str (ground arith)
  split_loop-append (c ∷ a) str h =
      let other : (c == sep) ≡ false = ground (arith, h) in
      let later : in_set sep a ≡ false = ground (arith, h) in
      split_loop_other sep false false c (a ++ sep ∷ str) other
      ∙ ap (λ r. (c ∷ r.0, r.1)) (split_loop-append a str later)

  split_loop-none : (a : CString) → in_set sep a ≡ false → split_loop false sep false a ≡ (a, [])
  split_loop-none [] h = refl
  split_loop-none (c ∷ a) h =
      let other : (c == sep) ≡ false = ground (arith, h) in
      let later : in_set sep a ≡ false = ground (arith, h) in
      split_loop_other sep false false c a other
      ∙ ap (λ r. (c ∷ r.0, r.1)) (split_loop-none a later)

  -- Strings without the separator, of which there is one, are what their join is split into.
  pub strvec_split-strvec_join :
      (s : CString) (sv : StrVec)
      → All (λ a. in_set sep a ≡ false) (s ∷ sv)
      → strvec_split (strvec_join (s ∷ sv) sep) sep false ≡ s ∷ sv
  unfolding strvec_split strvec_join
  strvec_split-strvec_join s [] h = ap (λ r. r.0 ∷ r.1) (split_loop-none s h.0)
  strvec_split-strvec_join s (t ∷ sv) h =
      ap (λ r. r.0 ∷ r.1) (split_loop-append s (strvec_join (t ∷ sv) sep) h.0)
      ∙ ap (λ r. s ∷ r) (strvec_split-strvec_join t sv h.1)

  abbrev IsApart : CString × StrVec → Type 0
  IsApart (part, rest) = All (λ a. in_set sep a ≡ false) (part ∷ rest)

  -- No string of a split has the separator.
  pub split_loop-apart :
      (str : CString)
      → All
          (λ a. in_set sep a ≡ false)
          ((split_loop false sep false str).0 ∷ (split_loop false sep false str).1)
  split_loop-apart [] = (refl, tt)
  split_loop-apart (c ∷ str) = elim (Bool-cases (c == sep)) [
    | inl e ↦ subst IsApart (sym (split_loop_same sep false c str e)) (refl, split_loop-apart str)
    | inr e ↦
        let k = split_loop-apart str in
        let other : (sep == c) ≡ false = ground (arith, e) in
        let first : in_set sep (c ∷ (split_loop false sep false str).0) ≡ false = rw other (k.0) in
        subst IsApart (sym (split_loop_other sep false false c str e)) (first, k.1)
  ]
