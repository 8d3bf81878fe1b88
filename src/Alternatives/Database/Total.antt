-- ===== src/Alternatives/Database/Total.antt =====
-- utils/update-alternatives.c: the reading of a file ends, and long lines.
use dpkg.Base.{
  Bool, Bool-cases, CString, Option, Option-cases, [], arith, false, inl, inr, length, ltb, none,
  some, suc, true, ℕ, ◌+◌, ◌<◌, ◌==◌, ◌∷◌, ◌≡◌, ◌≤◌,
}
use dpkg.Alternatives.Database.{
  M, Read, after, altdb_get_line, bad_format, bad_if, choose, cons_line, grow, line_result, ok,
  overrun, pure, split_line, strip_newline, stuck, ◌>>=◌,
}

-- A read is not stuck, and leaves less than `n` bytes.
abbrev Ends {ℓ} : {A : Type ℓ} → ℕ → Read A → Type 0
Ends n (ok a r) = length r < n
Ends n bad_format = Unit
Ends n overrun = Unit
Ends n stuck = ⊥

Ends-after :
    {A B : Type 0} (n : ℕ) (m : Read A) (f : A → CString → Read B)
    → Ends n m
    → ((a : A) (r : CString) → length r < n → Ends n (f a r))
    → Ends n (after m f)
Ends-after n (ok a r) f h k = k a r h
Ends-after n bad_format f h k = tt
Ends-after n overrun f h k = tt
Ends-after n stuck f h k = h

Ends-le : {A : Type 0} (k n : ℕ) (m : Read A) → k ≤ n → Ends k m → Ends n m
Ends-le k n (ok a r) l h = omega arith
Ends-le k n bad_format l h = tt
Ends-le k n overrun l h = tt
Ends-le k n stuck l h = h

-- A part that starts behind `n` bytes.
Ends-then :
    {A B : Type 0} (n : ℕ) (m : Read A) (f : A → CString → Read B)
    → Ends n m
    → ((a : A) (r : CString) → Ends (suc (length r)) (f a r))
    → Ends n (after m f)
Ends-then n m f h k =
    Ends-after n m f h (λ a r l. Ends-le (suc (length r)) n (f a r) (omega arith) (k a r))

cons_line-some :
    (c : ℕ) (o : Option (CString × CString)) (l r : CString)
    → cons_line c o ≡ some (l, r)
    → (l' : CString) × (o ≡ some (l', r))
unfolding cons_line
cons_line-some c none l r h = cc
cons_line-some c (some (l', r')) l r h = (l', ground arith)

split_line-short : (s l r : CString) → split_line s ≡ some (l, r) → length r < length s
unfolding split_line
split_line-short [] l r h = cc
split_line-short (c ∷ s) l r h = elim (Bool-cases (c == 10)) [
  | inl e ↦ first (rw e at h)
  | inr e ↦
      let (l', h') = cons_line-some c (split_line s) l r (rw e at h) in
      omega (arith, split_line-short s l' r h')
]
  where
    first :
        ◌≡◌ {A = Option (CString × CString)} (some ([], s)) (some (l, r))
        → length r < length (c ∷ s)
    first h = let same : s ≡ r = ground arith in rw (← same) (omega arith)

altdb_get_line-Ends : (s : CString) → Ends (length s) (altdb_get_line s)
unfolding altdb_get_line line_result
altdb_get_line-Ends s = elim (Option-cases (split_line s)) [
  | inl e ↦ rw e tt
  | inr ((l, r), e) ↦
      rw e (stripped (grow (length l) (length l + 1) 1024 0) l r (split_line-short s l r e))
]
  where
    stripped :
        (p : ℕ × ℕ) (l r : CString) → length r < length s → Ends (length s) (strip_newline p l r)
    stripped (i, bufsz) l r h =
        unfold strip_newline in
        elim (Bool-cases (i == 0)) [
          | inl e ↦ rw e h
          | inr e ↦
              rw e
                (elim (Bool-cases (ltb (i + length l) bufsz)) [ inl t ↦ rw t h | inr t ↦ rw t tt ])
        ]

-- A part of the parser that is not stuck and gives back no more than it gets, or less.
record Steady {A : Type 0} (m : M A) : Type 0 where
  ends : (s : CString) → Ends (suc (length s)) (m s)

record Eats {A : Type 0} (m : M A) : Type 0 where
  ends : (s : CString) → Ends (length s) (m s)

Steady-bind :
    {A B : Type 0} (m : M A) (f : A → M B) → Steady m → ((a : A) → Steady (f a)) → Steady (m >>= f)
Steady-bind m f h k = record {
  ends = λ s. Ends-then (suc (length s)) (m s) f (h.ends s) (λ a r. (k a).ends r);
}

Eats-Steady : {A : Type 0} (m : M A) → Eats m → Steady m
Eats-Steady m h = record {
  ends = λ s. Ends-le (length s) (suc (length s)) (m s) (omega arith) (h.ends s);
}

line-Eats : Eats altdb_get_line
line-Eats = record { ends = altdb_get_line-Ends }

line-Steady : Steady altdb_get_line
line-Steady = Eats-Steady altdb_get_line line-Eats

pure-Steady : {A : Type 0} (a : A) → Steady (pure a)
pure-Steady a = record { ends = λ s. omega arith }

bad_if-Steady : (b : Bool) → Steady (bad_if b)
bad_if-Steady true = record { ends = λ s. tt }
bad_if-Steady false = record { ends = λ s. omega arith }

choose-Steady : {A : Type 0} (b : Bool) (m k : M A) → Steady m → Steady k → Steady (choose b m k)
choose-Steady true m k p q = record { ends = λ s. p.ends s }
choose-Steady false m k p q = record { ends = λ s. q.ends s }

ruleset parts = (Steady-bind, pure-Steady, bad_if-Steady, choose-Steady, line-Steady)
