-- ===== src/Arch/Lines.antt =====
-- lib/dpkg/utils.c and lib/dpkg/arch.c: the lines of the architecture database.
use dpkg.Arch.{
  ArchList, ArchLoad, FgetsChecked, arch_failed, arch_loaded, at_end, bad_line, chomp,
  dpkg_arch_add, fgets, fgets_checked, got, got_line, line_max, load_lines, until_nul,
}
use dpkg.Base.{
  CString, [], arith, false, in_set, length, refl, some, suc, zero, ℕ, ◌++◌, ◌<◌, ◌==◌, ◌∷◌, ◌≡◌,
  ◌≤◌,
}

-- A name that can be a line: it has no newline and no NUL, and fits the buffer with a newline and a
-- NUL behind it.
pub record IsLineName (s : CString) : Type 0 where
  pub no_newline : in_set 10 s ≡ false
  pub no_nul : in_set 0 s ≡ false
  pub fits : length s ≤ 2046

fgets-line :
    (room : ℕ) (s rest : CString)
    → in_set 10 s ≡ false
    → length s < room
    → fgets room (s ++ 10 ∷ rest) ≡ (s ++ 10 ∷ [], rest)
unfolding fgets
fgets-line zero s rest h l = absurd (omega (arith, l))
fgets-line (suc room) [] rest h l = refl
fgets-line (suc room) (c ∷ s) rest h l =
    let other : (c == 10) ≡ false = ground (arith, h) in
    let later : in_set 10 s ≡ false = ground (arith, h) in
    rw (other, fgets-line room s rest later (omega (arith, l))) refl

until_nul-line : (s : CString) → in_set 0 s ≡ false → until_nul (s ++ 10 ∷ []) ≡ s ++ 10 ∷ []
unfolding until_nul
until_nul-line [] h = refl
until_nul-line (c ∷ s) h =
    let other : (c == 0) ≡ false = ground (arith, h) in
    let later : in_set 0 s ≡ false = ground (arith, h) in rw (other, until_nul-line s later) refl

chomp-line : (s : CString) → chomp (s ++ 10 ∷ []) ≡ some s
unfolding chomp
chomp-line [] = refl
chomp-line (c ∷ []) = refl
chomp-line (c ∷ d ∷ s) = rw (chomp-line (d ∷ s)) refl

checked :
    (s rest : CString)
    → IsLineName s
    → got_line (fgets 2047 (s ++ 10 ∷ rest)).1 (chomp (until_nul (fgets 2047 (s ++ 10 ∷ rest)).0))
      ≡ got s rest
checked s rest h =
    rw
      (
        fgets-line 2047 s rest h.no_newline (omega (arith, h.fits)),
        until_nul-line s h.no_nul,
        chomp-line s,
      )
      refl

pub fgets_checked-line :
    (s rest : CString) → IsLineName s → fgets_checked line_max (s ++ 10 ∷ rest) ≡ got s rest
unfolding fgets_checked
fgets_checked-line [] rest h = checked [] rest h
fgets_checked-line (c ∷ s) rest h = checked (c ∷ s) rest h

pub load_lines-line :
    (fuel : ℕ) (s rest : CString) (l : ArchList)
    → IsLineName s
    → load_lines (suc fuel) (s ++ 10 ∷ rest) l ≡ load_lines fuel rest (dpkg_arch_add (some s) l).1
unfolding load_lines
load_lines-line fuel s rest l h = rw (fgets_checked-line s rest h, load_lines) refl

-- A line takes a character at least.
abbrev Shorter : ℕ → FgetsChecked → Type 0
Shorter n (got line rest) = length rest < n
Shorter n at_end = Unit
Shorter n bad_line = Unit

pub load_lines-end : (fuel : ℕ) (l : ArchList) → load_lines fuel [] l ≡ arch_loaded l
unfolding load_lines fgets_checked
load_lines-end zero l = refl
load_lines-end (suc fuel) l = refl

-- What a round makes of a line.
abbrev load_round : ℕ → ArchList → FgetsChecked → ArchLoad
load_round fuel l r = elim r [
  | at_end ↦ arch_loaded l
  | bad_line ↦ arch_failed
  | got name rest ↦ load_lines fuel rest (dpkg_arch_add (some name) l).1
]
