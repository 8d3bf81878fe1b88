-- ===== src/Varbuf/Room.antt =====
-- lib/dpkg/varbuf.c: what `varbuf_grow` makes room for, and bytes put there.
use mathlib.Core.List.{append_assoc}
use dpkg.Base.{
  Bool-cases, [], ap, arith, false, inl, inr, leb, length, length-append, ltb, none, refl, some,
  suc, sym, true, ℕ, ◌*◌, ◌++◌, ◌+◌, ◌-◌, ◌<◌, ◌^◌, ◌∙◌, ◌∷◌, ◌≡◌, ◌≤◌, ◌⊎◌,
}
use dpkg.Varbuf.{Bytes, Varbuf, append, done, m_realloc, old_bytes, poke, varbuf_grow, word, write}
use dpkg.Varbuf.Memory.{m_realloc-Extends, poke_behind, cut_front}

-- A buffer with the bytes `s` and a NUL behind them, or a null pointer for no bytes.
pub record Holds (v : Varbuf) (s : Bytes) : Type 0 where
  pub count : v.used ≡ length s
  pub backed :
      ((v.buf ≡ none) × (s ≡ []) × (v.size ≡ 0))
      ⊎ ((rest : Bytes) × (v.buf ≡ some (s ++ 0 ∷ rest)) × (v.size ≡ length (s ++ 0 ∷ rest)))

-- A buffer with the bytes `s` and room for `need` more.
pub record HasRoom (v : Varbuf) (s : Bytes) (need : ℕ) : Type 0 where
  pub count : v.used ≡ length s
  pub room : Bytes
  pub buffer : v.buf ≡ some (s ++ room)
  pub whole : v.size ≡ length (s ++ room)
  pub enough : need ≤ length room

pub used_le : (v : Varbuf) (s : Bytes) → Holds v s → v.used ≤ v.size
used_le v s h = by_case h.backed
  where
    by_case :
        ((v.buf ≡ none) × (s ≡ []) × (v.size ≡ 0))
          ⊎ ((rest : Bytes) × (v.buf ≡ some (s ++ 0 ∷ rest)) × (v.size ≡ length (s ++ 0 ∷ rest)))
        → v.used ≤ v.size
    by_case (inl (e, f, z)) = omega (arith, h.count, ap length f)
    by_case (inr (rest, e, z)) = omega (arith, h.count, z, length-append s (0 ∷ rest))

module _ (uninit : ℕ → ℕ) where
  abbrev grown : Varbuf → ℕ → Varbuf
  grown v need = record v {
    size = (v.size + need) * 2;
    buf = some (m_realloc uninit 0 ((v.size + need) * 2) (old_bytes v.buf));
  }

  grow_enough :
      (v : Varbuf) (need : ℕ)
      → v.used ≤ v.size
      → leb need (v.size - v.used) ≡ true
      → varbuf_grow uninit v need ≡ done v
  unfolding varbuf_grow
  grow_enough v need h e = let sane : ltb v.size v.used ≡ false = ground arith in rw (sane, e) refl

  grow_more :
      (v : Varbuf) (need : ℕ)
      → v.used ≤ v.size
      → v.size + need < 2 ^ 63
      → leb need (v.size - v.used) ≡ false
      → varbuf_grow uninit v need ≡ done (grown v need)
  unfolding varbuf_grow
  grow_more v need h b e =
      let sane : ltb v.size v.used ≡ false = ground arith in
      let exact : word (word (v.size + need) * 2) ≡ (v.size + need) * 2 = omega arith in
      let no_wrap : ltb ((v.size + need) * 2) v.size ≡ false = ground arith in
      rw (sane, e, exact, no_wrap) refl

  abbrev pub Grows : Varbuf → Bytes → ℕ → Type 0
  Grows v s need =
      (w : Varbuf) × (varbuf_grow uninit v need ≡ done w)
      × HasRoom w s need
      × (w.size ≤ (v.size + need) * 2)

  -- The bytes in front of the NUL, and the room behind them, after a reallocation.
  grown-HasRoom :
      (v : Varbuf) (s behind : Bytes) (need : ℕ)
      → v.used ≡ length s
      → old_bytes v.buf ≡ s ++ behind
      → v.size ≡ length (s ++ behind)
      → HasRoom (grown v need) s need
  grown-HasRoom v s behind need c o z =
      let fits : length (old_bytes v.buf) ≤ (v.size + need) * 2 = omega (arith, ap length o) in
      let x = m_realloc-Extends uninit 0 ((v.size + need) * 2) (old_bytes v.buf) fits in
      let whole : m_realloc uninit 0 ((v.size + need) * 2) (old_bytes v.buf)
          ≡ s ++ (behind ++ x.added) =
        x.is_extended ∙ ap (λ t. t ++ x.added) o ∙ append_assoc s behind x.added in
      let same : length (s ++ (behind ++ x.added)) ≡ (v.size + need) * 2 =
        sym (ap length whole) ∙ x.whole_length in
      record {
        count = c;
        room = behind ++ x.added;
        buffer = ap some whole;
        whole = sym same;
        enough = omega (arith, length-append s (behind ++ x.added), length-append s behind);
      }

  pub varbuf_grow-HasRoom :
      (v : Varbuf) (s : Bytes) (need : ℕ)
      → Holds v s
      → 1 ≤ need
      → v.size + need < 2 ^ 63
      → Grows v s need
  varbuf_grow-HasRoom v s need h n b = by_case h.backed (Bool-cases (leb need (v.size - v.used)))
    where
      none_fits : v.used ≡ length s → s ≡ [] → v.size ≡ 0 → leb need (v.size - v.used) ≡ true → ⊥
      none_fits c f z l = let l' : need ≤ v.size - v.used = ground arith in omega arith

      room_left :
          (rest : Bytes)
          → v.used ≡ length s
          → v.size ≡ length (s ++ 0 ∷ rest)
          → leb need (v.size - v.used) ≡ true
          → need ≤ length (0 ∷ rest)
      room_left rest c z l =
          let l' : need ≤ v.size - v.used = ground arith in
          omega (arith, length-append s (0 ∷ rest))

      by_case :
          ((v.buf ≡ none) × (s ≡ []) × (v.size ≡ 0))
            ⊎ ((rest : Bytes) × (v.buf ≡ some (s ++ 0 ∷ rest)) × (v.size ≡ length (s ++ 0 ∷ rest)))
          → (leb need (v.size - v.used) ≡ true) ⊎ (leb need (v.size - v.used) ≡ false)
          → Grows v s need
      by_case (inl (e, f, z)) (inl l) = absurd (none_fits h.count f z l)
      by_case (inl (e, f, z)) (inr l) = (
        _,
        grow_more v need (used_le v s h) b l,
        grown-HasRoom v s [] need h.count (ap old_bytes e ∙ ap (λ t. t ++ []) (sym f))
            (z ∙ sym (ap (λ t. length (t ++ [])) f)),
        omega arith,
      )
      by_case (inr (rest, e, z)) (inl l) = (
        v,
        grow_enough v need (used_le v s h) l,
        record {
          count = h.count;
          room = 0 ∷ rest;
          buffer = e;
          whole = z;
          enough = (room_left rest h.count z l);
        },
        omega arith,
      )
      by_case (inr (rest, e, z)) (inr l) = (
        _,
        grow_more v need (used_le v s h) b l,
        grown-HasRoom v s (0 ∷ rest) need h.count (ap old_bytes e) z,
        omega arith,
      )

abbrev Puts : Varbuf → Bytes → Bytes → Type 0
Puts w s t = (x : Varbuf) × (append t w ≡ done x) × Holds x (s ++ t) × (x.size ≡ w.size)

-- Both writes of an append.
append_steps :
    (w : Varbuf) (t : Bytes) {mem : Bytes} (mem' mem'' : Bytes) (end : ℕ)
    → w.buf ≡ some mem
    → poke w.used t mem ≡ some mem'
    → word (w.used + length t) ≡ end
    → poke end (0 ∷ []) mem' ≡ some mem''
    → append t w ≡ done (record { used = end; size = w.size; buf = some mem'' })
unfolding append write
append_steps w t {mem} mem' mem'' end e first word_end second =
    let one : write w.used t w ≡ done (record w { buf = some mem' }) = rw (e, first) refl in
    rw (one, word_end, second) refl

append_into :
    (w : Varbuf) (s t front back : Bytes) (o : ℕ)
    → w.used ≡ length s
    → w.buf ≡ some (s ++ (front ++ o ∷ back))
    → w.size ≡ length (s ++ (front ++ o ∷ back))
    → length front ≡ length t
    → w.size < 2 ^ 64
    → Puts w s t
append_into w s t front back o c e z l b =
    let lengths : length (s ++ (front ++ o ∷ back)) ≡ length s + (length t + suc (length back)) =
      omega (arith, length-append s (front ++ o ∷ back), length-append front (o ∷ back)) in
    let end : word (w.used + length t) ≡ length (s ++ t) = omega (arith, length-append s t) in
    let first : poke w.used t (s ++ (front ++ o ∷ back)) ≡ some ((s ++ t) ++ o ∷ back) =
      ap (λ n. poke n t (s ++ (front ++ o ∷ back))) c
      ∙ poke_behind s t front (o ∷ back) l
      ∙ ap some (sym (append_assoc s t (o ∷ back))) in
    (
      record { used = length (s ++ t); size = w.size; buf = some ((s ++ t) ++ 0 ∷ back) },
      append_steps w t ((s ++ t) ++ o ∷ back) ((s ++ t) ++ 0 ∷ back) (length (s ++ t)) e first end
          (poke_behind (s ++ t) (0 ∷ []) (o ∷ []) back refl),
      record {
        count = refl;
        backed =
            inr (back, refl, omega (arith, length-append (s ++ t) (0 ∷ back), length-append s t));
      },
      refl,
    )

-- Bytes put into the room, with a NUL behind them.
pub append-Holds :
    (w : Varbuf) (s t : Bytes) (need : ℕ)
    → HasRoom w s need
    → length t + 1 ≤ need
    → w.size < 2 ^ 64
    → Puts w s t
append-Holds w s t need r n b =
    let p = cut_front (length t) r.room (omega (arith, r.enough)) in
    by_back p.front p.back p.is_split p.front_length
      (omega (arith, r.enough, ap length p.is_split, length-append p.front p.back, p.front_length))
  where
    by_back :
        (front back : Bytes)
        → r.room ≡ front ++ back
        → length front ≡ length t
        → 1 ≤ length back
        → Puts w s t
    by_back front [] e f l = absurd (omega arith)
    by_back front (o ∷ back) e f l =
        append_into w s t front back o r.count (r.buffer ∙ ap (λ m. some (s ++ m)) e)
          (r.whole ∙ ap (λ m. length (s ++ m)) e) f b
