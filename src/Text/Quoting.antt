-- ===== src/Text/Quoting.antt =====
-- Escaping for printf and for the shell: what the escaped text stands for, and how long it is.
use dpkg.Base.{
  CString, ℕ, suc, ◌+◌, ◌-◌, ◌*◌, ◌≤◌, ◌<◌, ◌≡◌, refl, ap, inl, inr, false, [], ◌∷◌, some, arith,
  leb, ◌==◌, Bool-cases, length, take,
}
use dpkg.Names.Valid.{Every}
use dpkg.Text.{escape_loop, str_escape_fmt, is_meta, quote_meta, str_quote_meta}

-- The format `out` has no directive but `%%`, and prints `text`.
pub data Prints : CString → CString → Type 0 where
  end : Prints [] []
  plain :
      {c : ℕ} {out text : CString}
      → (c == b'%') ≡ false
      → Prints out text
      → Prints (c ∷ out) (c ∷ text)
  percent : {out text : CString} → Prints out text → Prints (b'%' ∷ b'%' ∷ out) (b'%' ∷ text)

pub record Escaped (n : ℕ) (src out : CString) : Type 0 where
  pub kept : ℕ
  pub prints : Prints out (take kept src)
  pub fits : length out < n
  pub whole : 2 * length src < n → kept ≡ length src

at_most : (n : ℕ) → leb n 2 ≡ false → 2 < n
at_most n h = ground arith

more_than_one : (n : ℕ) → leb n 1 ≡ false → 1 < n
more_than_one n h = ground arith

stopped : (n : ℕ) (c : ℕ) (s : CString) → 0 < n → n ≤ 2 → Escaped n (c ∷ s) []
stopped n c s h k = record {
  kept = 0;
  prints = end;
  fits = omega arith;
  whole = λ l. absurd (omega arith);
}

escape_loop-Escaped : (src : CString) (n : ℕ) → 0 < n → Escaped n src (escape_loop n src)
unfolding escape_loop
escape_loop-Escaped [] n h = record {
  kept = 0;
  prints = end;
  fits = omega arith;
  whole = λ l. refl;
}
escape_loop-Escaped (c ∷ s) n h = elim (Bool-cases (c == b'%')) [
  | inl p ↦ elim (Bool-cases (leb n 2)) [
    | inl small ↦ rw (p, small) (stopped n c s h (ground arith))
    | inr room ↦
        let more : leb (n - 1) 1 ≡ false = ground arith in
        let e = escape_loop-Escaped s (n - 2) (ground arith) in
        let is_percent : c ≡ b'%' = ground arith in
        rw (p, room, more)
          (record {
            kept = suc e.kept;
            prints = rw is_percent (percent e.prints);
            fits = omega (arith, e.fits, at_most n room);
            whole = λ l. ap suc (e.whole (omega arith));
          })
  ]
  | inr p ↦ elim (Bool-cases (leb n 1)) [
    | inl small ↦ rw (p, small) (stopped n c s h (ground arith))
    | inr room ↦
        let e = escape_loop-Escaped s (n - 1) (ground arith) in
        rw (p, room)
          (record {
            kept = suc e.kept;
            prints = plain p e.prints;
            fits = omega (arith, e.fits, more_than_one n room);
            whole = λ l. ap suc (e.whole (omega arith));
          })
  ]
]

-- With a buffer of one byte at least, the text that str_escape_fmt writes fits with its NUL, is a
-- format that prints a prefix of the source, and prints all of it if the buffer holds it twice and
-- a NUL.
pub str_escape_fmt-Escaped :
    (src : CString) (n : ℕ)
    → 0 < n
    → (out : CString) × (str_escape_fmt src n ≡ some out) × Escaped n src out
unfolding str_escape_fmt
str_escape_fmt-Escaped src n h = (escape_loop n src, ground arith, escape_loop-Escaped src n h)

-- What the shell makes of a text in which a backslash quotes the next character; a character that
-- is special to it must be quoted.
pub data Unquotes : CString → CString → Type 0 where
  end : Unquotes [] []
  bare :
      {c : ℕ} {out text : CString}
      → is_meta c ≡ false
      → Unquotes out text
      → Unquotes (c ∷ out) (c ∷ text)
  quoted : {c : ℕ} {out text : CString} → Unquotes out text → Unquotes (b'\\' ∷ c ∷ out) (c ∷ text)

quote_meta-Unquotes : (s : CString) → Unquotes (quote_meta s) s
unfolding quote_meta
quote_meta-Unquotes [] = Unquotes.end
quote_meta-Unquotes (c ∷ s) = elim (Bool-cases (is_meta c)) [
  | inl m ↦ rw m (quoted (quote_meta-Unquotes s))
  | inr m ↦ rw m (bare m (quote_meta-Unquotes s))
]

length-quote_meta : (s : CString) → length (quote_meta s) ≤ length s * 2
unfolding quote_meta
length-quote_meta [] = omega arith
length-quote_meta (c ∷ s) = elim (Bool-cases (is_meta c)) [
  | inl m ↦ rw m (omega (arith, length-quote_meta s))
  | inr m ↦ rw m (omega (arith, length-quote_meta s))
]

-- The text that str_quote_meta writes stands for the source with every special character quoted,
-- and fits the bytes allocated without its NUL.
pub str_quote_meta-Unquotes :
    (s : CString)
    → Unquotes (str_quote_meta s).text s
      × (length (str_quote_meta s).text ≤ (str_quote_meta s).allocated)
unfolding str_quote_meta
str_quote_meta-Unquotes s = (quote_meta-Unquotes s, length-quote_meta s)

length-quote_meta_all : (s : CString) → Every is_meta s → length (quote_meta s) ≡ length s * 2
unfolding quote_meta
length-quote_meta_all [] h = omega arith
length-quote_meta_all (c ∷ s) h = rw (h.0) (omega (arith, length-quote_meta_all s h.1))

-- Where every character is special, the NUL behind the text that str_quote_meta writes is past the
-- bytes allocated.
pub str_quote_meta_overflow :
    (s : CString)
    → Every is_meta s
    → (str_quote_meta s).allocated < length (str_quote_meta s).text + 1
unfolding str_quote_meta
str_quote_meta_overflow s h = omega (arith, length-quote_meta_all s h)
