-- ===== src/FilePath/Canonical.antt =====
-- lib/dpkg/path.c: canonical pathnames, as walks from the root directory.
use mathlib.Core.Path.{subst}
use dpkg.StrVec.Join.{split_loop_other, split_loop_run, split_loop_same}
use dpkg.FilePath.{canonicalize_loop, canonicalize_part, is_empty, is_one, path_canonicalize}
use dpkg.StrVec.{StrVec, split_loop, strvec_drop, strvec_join, strvec_push, strvec_split}
use dpkg.Base.{
  Bool-cases, CString, List, [], ap, codes, false, if◌then◌else◌, in_set, inl, inr, refl, str_eq,
  sym, true, ◌++◌, ◌==◌, ◌||◌, ◌∙◌, ◌∷◌, ◌≡◌,
}

-- The directory above.
abbrev pub strip : List CString → List CString
strip [] = []
strip (name ∷ dir) = dir

-- A directory, as the names on the way to it, the last one first; where a step leads from it, and where
-- several do.
abbrev pub step : CString → List CString → List CString
step part dir =
    if str_eq part (codes "..")
    then strip dir
    else if is_empty part || str_eq part (codes ".")
    then dir
    else part ∷ dir

abbrev pub walk : List CString → List CString → List CString
walk [] dir = dir
walk (part ∷ parts) dir = walk parts (step part dir)

-- The path from the root to a directory.
abbrev pub way : List CString → List CString
way [] = []
way (name ∷ dir) = way dir ++ name ∷ []

-- The directory that an absolute path, without its first slash, leads to.
abbrev pub directory_of : CString → List CString
directory_of path = walk (strvec_split path b'/' false) []

-- The pathname of a directory.
abbrev pub pathname_of : List CString → CString
pathname_of dir = b'/' ∷ strvec_join (way dir) b'/'

drop_snoc : (s t : CString) (sv : StrVec) → strvec_drop (s ∷ sv ++ t ∷ []) ≡ s ∷ sv
drop_snoc s t [] = refl
drop_snoc s t (u ∷ sv) = ap (λ r. s ∷ r) (drop_snoc u t sv)

one_snoc : (s t : CString) (sv : StrVec) → is_one (s ∷ sv ++ t ∷ []) ≡ false
one_snoc s t [] = refl
one_snoc s t (u ∷ sv) = refl

part-step :
    (part : CString) (dir : List CString)
    → canonicalize_part true false part ([] ∷ way dir) ≡ [] ∷ way (step part dir)
unfolding canonicalize_part
part-step part dir = elim (Bool-cases (str_eq part (codes ".."))) [
  | inl e ↦ rw e (up dir)
  | inr e ↦ elim (Bool-cases (is_empty part)) [
    | inl d ↦ rw (e, d) refl
    | inr d ↦ elim (Bool-cases (str_eq part (codes "."))) [
      | inl c ↦ rw (e, d, c) refl
      | inr c ↦ rw (e, d, c) refl
    ]
  ]
]
  where
    up :
        (dir : List CString)
        → (if is_one ([] ∷ way dir) then [] ∷ way dir else strvec_drop ([] ∷ way dir))
          ≡ [] ∷ way (strip dir)
    up [] = refl
    up (name ∷ dir) = rw (one_snoc [] name (way dir)) (drop_snoc [] name (way dir))

loop-walk :
    (parts dir : List CString)
    → canonicalize_loop true false parts ([] ∷ way dir) ≡ [] ∷ way (walk parts dir)
unfolding canonicalize_loop
loop-walk [] dir = refl
loop-walk (part ∷ parts) dir =
    ap (canonicalize_loop true false parts) (part-step part dir) ∙ loop-walk parts (step part dir)

join_root :
    (s : CString) (sv : StrVec)
    → strvec_join ([] ∷ sv ++ s ∷ []) b'/' ≡ b'/' ∷ strvec_join (sv ++ s ∷ []) b'/'
unfolding strvec_join
join_root s [] = refl
join_root s (t ∷ sv) = refl

root_join :
    (dir : List CString)
    → strvec_join
        (if is_one ([] ∷ way dir) then strvec_push ([] ∷ way dir) [] else [] ∷ way dir)
        b'/'
      ≡ pathname_of dir
unfolding strvec_join
root_join [] = refl
root_join (name ∷ dir) = rw (one_snoc [] name (way dir)) (join_root name (way dir))

-- What is split with skipping, without it, and with skipping behind a separator: passing over
-- separators that follow another one changes no walk.
record IsSame (x y z : CString × StrVec) : Type 0 where
  part : x.0 ≡ y.0
  rest : (dir : List CString) → walk x.1 dir ≡ walk y.1 dir
  behind : (dir : List CString) → walk (z.0 ∷ z.1) dir ≡ walk (y.0 ∷ y.1) dir

IsSame-from :
    {x x2 y y2 z z2 : CString × StrVec} → x2 ≡ x → y2 ≡ y → z2 ≡ z → IsSame x y z → IsSame x2 y2 z2
IsSame-from {x} {x2} {y} {y2} {z} {z2} e f g h =
    subst (λ t. IsSame t y2 z2) (sym e)
      (subst (λ t. IsSame x t z2) (sym f) (subst (λ t. IsSame x y t) (sym g) h))

split_loop-IsSame :
    (str : CString)
    → IsSame
        (split_loop true b'/' false str)
        (split_loop false b'/' false str)
        (split_loop true b'/' true str)
unfolding str_eq
split_loop-IsSame [] = record { part = refl; rest = λ dir. refl; behind = λ dir. refl }
split_loop-IsSame (c ∷ str) =
    let h = split_loop-IsSame str in
    elim (Bool-cases (c == b'/')) [
      | inl e ↦
          IsSame-from (split_loop_same b'/' true c str e) (split_loop_same b'/' false c str e)
            (split_loop_run b'/' true c str e)
            (record { part = refl; rest = λ dir. h.behind dir; behind = λ dir. h.behind dir })
      | inr e ↦
          let x = split_loop true b'/' false str in
          IsSame-from (split_loop_other b'/' true false c str e)
            (split_loop_other b'/' false false c str e) (split_loop_other b'/' true true c str e)
            (record {
              part = ap (λ p. c ∷ p) h.part;
              rest = h.rest;
              behind = λ dir. ap (λ p. walk x.1 (step (c ∷ p) dir)) h.part ∙ h.rest _;
            })
    ]

-- The canonical form of an absolute path is the pathname of the directory that a walk along all its
-- parts leads to from the root, where empty parts and single dots stay and double dots go up, at
-- most to the root.
pub path_canonicalize-pathname_of :
    (path : CString) → path_canonicalize (b'/' ∷ path) ≡ pathname_of (directory_of path)
unfolding path_canonicalize strvec_split canonicalize_part str_eq canonicalize_loop
path_canonicalize-pathname_of path =
    let z = split_loop true b'/' true path in
    let h = split_loop-IsSame path in
    ap joined (loop-walk (z.0 ∷ z.1) [])
    ∙ root_join (walk (z.0 ∷ z.1) [])
    ∙ ap pathname_of (h.behind [])
  where
    joined : StrVec → CString
    joined nsv = strvec_join (if is_one nsv then strvec_push nsv [] else nsv) b'/'

-- A name that a step goes down by.
pub record IsName (name : CString) : Type 0 where
  pub apart : in_set b'/' name ≡ false
  pub filled : is_empty name ≡ false
  pub no_dot : str_eq name (codes ".") ≡ false
  pub no_parent : str_eq name (codes "..") ≡ false
