-- ===== src/Varbuf/Commands.antt =====
-- lib/dpkg/varbuf.c: the operations that change a buffer, against operations on its text.
use mathlib.Core.List.{append-nil}
use dpkg.Base.{
  Bool, Bool-cases, CString, Option-cases, [], ap, arith, false, get_or, if◌then◌else◌, inl, inr,
  length, length-append, none, not, refl, some, suc, sym, true, zero, ℕ, ◌*◌, ◌++◌, ◌+◌, ◌-◌, ◌<◌,
  ◌==◌, ◌^◌, ◌||◌, ◌∙◌, ◌∷◌, ◌≡◌, ◌≤◌, ◌⊎◌,
}
use dpkg.Varbuf.{
  Bytes, Outcome, Varbuf, append, done, ends_slash, map_bytes, poke, replicate, varbuf_add_buf,
  varbuf_add_char, varbuf_add_dir, varbuf_dup_char, varbuf_grow, varbuf_map_char, varbuf_reset,
  varbuf_set_buf, word, write, ◌>>=◌,
}
use dpkg.Varbuf.Room.{Holds, append-Holds, varbuf_grow-HasRoom}

-- The calls that change a buffer.
pub data Command : Type 0 where
  add_char : ℕ → Command
  dup_char : ℕ → ℕ → Command
  add_buf set_buf : Bytes → Command
  add_dir : CString → Command
  reset : Command
  map_char : ℕ → ℕ → Command

abbrev pub ends_with_slash : Bytes → Bool
ends_with_slash [] = false
ends_with_slash (c ∷ []) = c == b'/'
ends_with_slash (c ∷ d ∷ s) = ends_with_slash (d ∷ s)

abbrev pub mapped : ℕ → ℕ → Bytes → Bytes
mapped c_src c_dst [] = []
mapped c_src c_dst (c ∷ s) = (if c == c_src then c_dst else c) ∷ mapped c_src c_dst s

-- What a call means for the text.
abbrev pub meaning : Command → Bytes → Bytes
meaning (add_char c) s = s ++ c ∷ []
meaning (dup_char c n) s = s ++ replicate n c
meaning (add_buf t) s = s ++ t
meaning (set_buf t) s = t
meaning (add_dir d) s = if ends_with_slash (s ++ d) then s ++ d else (s ++ d) ++ b'/' ∷ []
meaning reset s = []
meaning (map_char c_src c_dst) s = mapped c_src c_dst s

-- The room that a call may ask for.
abbrev pub extra : Command → ℕ
extra (add_char c) = 2
extra (dup_char c n) = n + 1
extra (add_buf t) = length t + 1
extra (set_buf t) = length t + 1
extra (add_dir d) = length d + 3
extra reset = 0
extra (map_char c_src c_dst) = 0

length-replicate : (n c : ℕ) → length (replicate n c) ≡ n
length-replicate zero c = refl
length-replicate (suc n) c = ap suc (length-replicate n c)

module _ (uninit : ℕ → ℕ) where
  abbrev pub run : Command → Varbuf → Outcome Varbuf
  run (add_char c) v = varbuf_add_char uninit v c
  run (dup_char c n) v = varbuf_dup_char uninit v c n
  run (add_buf t) v = varbuf_add_buf uninit v t
  run (set_buf t) v = varbuf_set_buf uninit v t
  run (add_dir d) v = varbuf_add_dir uninit v d
  run reset v = varbuf_reset v
  run (map_char c_src c_dst) v = done (varbuf_map_char v c_src c_dst)

  -- A call that ends with the text `t` in a buffer of a bounded size.
  abbrev pub Makes : Outcome Varbuf → Bytes → ℕ → Type 0
  Makes o t bound = (w : Varbuf) × (o ≡ done w) × Holds w t × (w.size ≤ bound)

  put-Makes :
      (v : Varbuf) (s t : Bytes) (need : ℕ)
      → Holds v s
      → length t + 1 ≤ need
      → v.size + need < 2 ^ 63
      → Makes (varbuf_grow uninit v need >>= append t) (s ++ t) ((v.size + need) * 2)
  put-Makes v s t need h n b =
      let (w, e, r, z) = varbuf_grow-HasRoom uninit v s need h (omega arith) b in
      let (x, f, g, y) = append-Holds w s t need r n (omega arith) in
      (x, ap (λ o. o >>= append t) e ∙ f, g, omega arith)

  add_char-Makes :
      (v : Varbuf) (s : Bytes) (c : ℕ)
      → Holds v s
      → v.size + 2 < 2 ^ 63
      → Makes (varbuf_add_char uninit v c) (s ++ c ∷ []) ((v.size + 2) * 2)
  unfolding varbuf_add_char
  add_char-Makes v s c h b = put-Makes v s (c ∷ []) 2 h (omega arith) b

  add_buf-Makes :
      (v : Varbuf) (s t : Bytes)
      → Holds v s
      → v.size + (length t + 1) < 2 ^ 63
      → Makes (varbuf_add_buf uninit v t) (s ++ t) ((v.size + (length t + 1)) * 2)
  unfolding varbuf_add_buf
  add_buf-Makes v s [] h b = (v, refl, rw (append-nil s) h, omega arith)
  add_buf-Makes v s (c ∷ t) h b =
      let exact : word (length (c ∷ t) + 1) ≡ length (c ∷ t) + 1 = omega arith in
      rw exact (put-Makes v s (c ∷ t) (length (c ∷ t) + 1) h (omega arith) b)

  dup_char-Makes :
      (v : Varbuf) (s : Bytes) (c n : ℕ)
      → Holds v s
      → v.size + (n + 1) < 2 ^ 63
      → Makes (varbuf_dup_char uninit v c n) (s ++ replicate n c) ((v.size + (n + 1)) * 2)
  unfolding varbuf_dup_char
  dup_char-Makes v s c zero h b = (v, refl, rw (append-nil s) h, omega arith)
  dup_char-Makes v s c (suc n) h b =
      let exact : word (suc n + 1) ≡ suc n + 1 = omega arith in
      rw exact
        (put-Makes v s (replicate (suc n) c) (suc n + 1) h (omega (arith, length-replicate n c)) b)

-- The first byte of a text and its NUL.
poke_start :
    (s rest : Bytes)
    → (r : Bytes) × (poke 0 (0 ∷ []) (s ++ 0 ∷ rest) ≡ some (0 ∷ r))
      × (length (s ++ 0 ∷ rest) ≡ length (0 ∷ r))
unfolding poke
poke_start [] rest = (rest, refl, refl)
poke_start (c ∷ s) rest = (s ++ 0 ∷ rest, refl, refl)

reset-Holds :
    (v : Varbuf) (s : Bytes)
    → Holds v s
    → (w : Varbuf) × (varbuf_reset v ≡ done w) × Holds w [] × (w.size ≡ v.size)
unfolding varbuf_reset write
reset-Holds v s h = by_case h.backed
  where
    by_case :
        ((v.buf ≡ none) × (s ≡ []) × (v.size ≡ 0))
          ⊎ ((rest : Bytes) × (v.buf ≡ some (s ++ 0 ∷ rest)) × (v.size ≡ length (s ++ 0 ∷ rest)))
        → (w : Varbuf) × (varbuf_reset v ≡ done w) × Holds w [] × (w.size ≡ v.size)
    by_case (inl (e, f, z)) =
        (record v { used = 0 }, rw e refl, record { count = refl; backed = inl (e, refl, z) }, refl)
    by_case (inr (rest, e, z)) =
        let (r, f, l) = poke_start s rest in
        (
          record { used = 0; size = v.size; buf = some (0 ∷ r) },
          rw (e, f) refl,
          record { count = refl; backed = inr (r, refl, z ∙ l) },
          refl,
        )

map_bytes-append :
    (s rest : Bytes) (c d : ℕ) → map_bytes (length s) c d (s ++ rest) ≡ mapped c d s ++ rest
unfolding map_bytes
map_bytes-append [] rest c d = refl
map_bytes-append (x ∷ s) rest c d = ap (◌∷◌ (if x == c then d else x)) (map_bytes-append s rest c d)

length-mapped : (c d : ℕ) (s : Bytes) → length (mapped c d s) ≡ length s
length-mapped c d [] = refl
length-mapped c d (x ∷ s) = ap suc (length-mapped c d s)

map_char-Holds :
    (v : Varbuf) (s : Bytes) (c d : ℕ) → Holds v s → Holds (varbuf_map_char v c d) (mapped c d s)
unfolding varbuf_map_char
map_char-Holds v s c d h = by_case h.backed
  where
    by_case :
        ((v.buf ≡ none) × (s ≡ []) × (v.size ≡ 0))
          ⊎ ((rest : Bytes) × (v.buf ≡ some (s ++ 0 ∷ rest)) × (v.size ≡ length (s ++ 0 ∷ rest)))
        → Holds (varbuf_map_char v c d) (mapped c d s)
    by_case (inl (e, f, z)) = rw e (record {
      count = h.count ∙ sym (length-mapped c d s);
      backed = inl (refl, ap (mapped c d) f, z);
    })
    by_case (inr (rest, e, z)) =
        rw (e, h.count, map_bytes-append s (0 ∷ rest) c d)
          (record {
            count = sym (length-mapped c d s);
            backed = inr (
              rest,
              refl,
              omega (
                arith,
                z,
                length-append s (0 ∷ rest),
                length-append (mapped c d s) (0 ∷ rest),
                length-mapped c d s,
              ),
            );
          })

map_char_size : (v : Varbuf) (c d : ℕ) → (varbuf_map_char v c d).size ≡ v.size
unfolding varbuf_map_char
map_char_size v c d = elim (Option-cases v.buf) [ inl e ↦ rw e refl | inr (mem, e) ↦ rw e refl ]

get_or_last :
    (s rest : Bytes)
    → 1 ≤ length s
    → (get_or (s ++ rest) (length s - 1) 0 == b'/') ≡ ends_with_slash s
get_or_last [] rest h = absurd (omega arith)
get_or_last (c ∷ []) rest h = refl
get_or_last (c ∷ d ∷ s) rest h =
    let here : length (c ∷ d ∷ s) - 1 ≡ suc (length s) = omega arith in
    let next : length (d ∷ s) - 1 ≡ length s = omega arith in
    ap (λ n. get_or (c ∷ d ∷ (s ++ rest)) n 0 == b'/') here
    ∙ ap (λ n. get_or (d ∷ (s ++ rest)) n 0 == b'/') (sym next)
    ∙ get_or_last (d ∷ s) rest (omega arith)

-- The test of `varbuf_add_dir`.
needs_slash :
    (w : Varbuf) (s : Bytes)
    → Holds w s
    → (w.used == 0 || not (ends_slash w)) ≡ not (ends_with_slash s)
needs_slash w s h = by_case s h.count h.backed
  where
    by_case :
        (s : Bytes)
        → w.used ≡ length s
        → ((w.buf ≡ none) × (s ≡ []) × (w.size ≡ 0))
          ⊎ ((rest : Bytes) × (w.buf ≡ some (s ++ 0 ∷ rest)) × (w.size ≡ length (s ++ 0 ∷ rest)))
        → (w.used == 0 || not (ends_slash w)) ≡ not (ends_with_slash s)
    by_case [] c b = rw c refl
    by_case (x ∷ s) c (inl (e, f, z)) = absurd (omega (arith, ap length f))
    by_case (x ∷ s) c (inr (rest, e, z)) =
        let used : (suc (length s) == 0) ≡ false = ground arith in
        rw (c, e, get_or_last (x ∷ s) (0 ∷ rest) (omega arith), used) refl

module _ (uninit : ℕ → ℕ) where
  add_dir-Makes :
      (v : Varbuf) (s : Bytes) (d : CString)
      → Holds v s
      → v.size + (length d + 3) < 2 ^ 61
      → Makes uninit
          (varbuf_add_dir uninit v d)
          (meaning (add_dir d) s)
          ((v.size + (length d + 3)) * 4)
  unfolding varbuf_add_dir
  add_dir-Makes v s d h b =
      let (w, e, g, z) = add_buf-Makes uninit v s d h (omega arith) in
      rw (e, needs_slash w (s ++ d) g) (by_test w g z (Bool-cases (ends_with_slash (s ++ d))))
    where
      by_test :
          (w : Varbuf)
          → Holds w (s ++ d)
          → w.size ≤ (v.size + (length d + 1)) * 2
          → (ends_with_slash (s ++ d) ≡ true) ⊎ (ends_with_slash (s ++ d) ≡ false)
          → Makes uninit
              (if not (ends_with_slash (s ++ d)) then varbuf_add_char uninit w b'/' else done w)
              (meaning (add_dir d) s)
              ((v.size + (length d + 3)) * 4)
      by_test w g z (inl t) = rw t (w, refl, g, omega arith)
      by_test w g z (inr t) =
          let (x, f, k, y) = add_char-Makes uninit w (s ++ d) b'/' g (omega arith) in
          rw t (x, f, k, omega arith)

  -- On a buffer that holds a text, whose size and the room a call may ask for are below 2^61, every
  -- call that adds, sets, maps or resets ends, with a buffer that holds the text the call means, a
  -- NUL behind it, and a size of at most four times that sum.
  pub run-Holds :
      (c : Command) (v : Varbuf) (s : Bytes)
      → Holds v s
      → v.size + extra c < 2 ^ 61
      → Makes uninit (run uninit c v) (meaning c s) ((v.size + extra c) * 4)
  unfolding varbuf_set_buf
  run-Holds (add_char c) v s h b =
      let (w, e, g, z) = add_char-Makes uninit v s c h (omega arith) in (w, e, g, omega arith)
  run-Holds (dup_char c n) v s h b =
      let (w, e, g, z) = dup_char-Makes uninit v s c n h (omega arith) in (w, e, g, omega arith)
  run-Holds (add_buf t) v s h b =
      let (w, e, g, z) = add_buf-Makes uninit v s t h (omega arith) in (w, e, g, omega arith)
  run-Holds (set_buf t) v s h b =
      let (u, e, g, z) = reset-Holds v s h in
      let (w, f, k, y) = add_buf-Makes uninit u [] t g (omega arith) in
      (w, ap (λ o. o >>= λ w. varbuf_add_buf uninit w t) e ∙ f, k, omega arith)
  run-Holds (add_dir d) v s h b = add_dir-Makes v s d h b
  run-Holds reset v s h b = let (w, e, g, z) = reset-Holds v s h in (w, e, g, omega arith)
  run-Holds (map_char c d) v s h b =
      (_, refl, map_char-Holds v s c d h, omega (arith, map_char_size v c d))
