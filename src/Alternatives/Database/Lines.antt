-- ===== src/Alternatives/Database/Lines.antt =====
-- utils/update-alternatives.c: `altdb_get_line` on what `altdb_print_line` writes.
use mathlib.Core.List.{append_assoc}
use dpkg.Alternatives.Saving.{altdb_print_line, print_both, print_lines}
use dpkg.Base.{
  All, CString, List, [], ap, arith, false, in_set, leb, length, length-append, refl, some, suc,
  true, zero, ℕ, ◌++◌, ◌+◌, ◌==◌, ◌∷◌, ◌≡◌, ◌≤◌,
}
use dpkg.Alternatives.Database.{
  altdb_get_line, cons_line, grow, line_result, ok, split_line, strip_newline,
}

-- A text that is written as one line and fits the first buffer.
pub record IsLine (s : CString) : Type 0 where
  pub no_newline : in_set 10 s ≡ false
  pub fits : length s ≤ 1022

pub split_line-append :
    (s rest : CString) → in_set 10 s ≡ false → split_line (s ++ 10 ∷ rest) ≡ some (s, rest)
unfolding split_line cons_line
split_line-append [] rest h = refl
split_line-append (c ∷ s) rest h =
    let other : (c == 10) ≡ false = ground arith in
    rw (other, split_line-append s rest (ground arith)) refl

grow-fits : (f len : ℕ) → len ≤ 1023 → grow f len 1024 0 ≡ (0, 1024)
unfolding grow
grow-fits zero len h = refl
grow-fits (suc f) len h = let t : leb len 1023 ≡ true = ground arith in rw t refl

pub altdb_get_line-line :
    (s rest : CString) → IsLine s → altdb_get_line (s ++ 10 ∷ rest) ≡ ok s rest
unfolding altdb_get_line line_result strip_newline
altdb_get_line-line s rest l =
    let room : length s + 1 ≤ 1023 = omega (arith, l.fits) in
    rw (split_line-append s rest l.no_newline, grow-fits (length s) (length s + 1) room) refl

-- The bytes of lines with their newlines.
unfoldable pub unlines : List CString → CString
unlines [] = []
unlines (line ∷ rest) = line ++ 10 ∷ unlines rest

pub print_lines-unlines :
    (lines : List CString) → All IsLine lines → print_lines lines ≡ some (unlines lines)
unfolding print_lines print_both altdb_print_line unlines
print_lines-unlines [] h = refl
print_lines-unlines (line ∷ rest) h =
    rw ((h.0).no_newline, print_lines-unlines rest h.1)
      (ap some (append_assoc line (10 ∷ []) (unlines rest)))

pub length-unlines : (lines : List CString) → length lines ≤ length (unlines lines)
unfolding unlines
length-unlines [] = omega arith
length-unlines (line ∷ rest) =
    omega (arith, length-unlines rest, length-append line (10 ∷ unlines rest))
