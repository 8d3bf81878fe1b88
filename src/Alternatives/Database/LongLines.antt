-- ===== src/Alternatives/Database/LongLines.antt =====
-- utils/update-alternatives.c: `altdb_get_line` on lines that do not fit its first buffer.
use dpkg.Base.{
  CString, [], arith, false, in_set, leb, length, ltb, refl, suc, true, ℕ, ◌++◌, ◌+◌, ◌<◌, ◌∷◌, ◌≡◌,
  ◌≤◌,
}
use dpkg.Alternatives.Database.{altdb_get_line, grow, line_result, overrun, strip_newline}
use dpkg.Alternatives.Database.Lines.{split_line-append}

grow-second : (f len : ℕ) → 1023 < len → len ≤ 2047 → grow (suc (suc f)) len 1024 0 ≡ (1023, 2048)
unfolding grow
grow-second f len l h =
    let no_room : leb len 1023 ≡ false = ground arith in
    let room : leb len 2047 ≡ true = ground arith in rw (no_room, room) refl

-- Reading a line of 1025 to 2046 characters and its newline writes behind the buffer.
pub altdb_get_line_overrun :
    (line rest : CString)
    → in_set 10 line ≡ false
    → 1025 ≤ length line
    → length line ≤ 2046
    → altdb_get_line (line ++ 10 ∷ rest) ≡ overrun
unfolding altdb_get_line line_result strip_newline
altdb_get_line_overrun [] rest n l h = absurd (omega arith)
altdb_get_line_overrun (c ∷ []) rest n l h = absurd (omega arith)
altdb_get_line_overrun (c ∷ d ∷ s) rest n l h =
    let second = grow-second (length s) (length (c ∷ d ∷ s) + 1) (omega arith) (omega arith) in
    let behind : ltb (1023 + length (c ∷ d ∷ s)) 2048 ≡ false = ground arith in
    rw (split_line-append (c ∷ d ∷ s) rest n, second, behind) refl
