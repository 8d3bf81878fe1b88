-- ===== src/Varbuf/Overflow.antt =====
-- lib/dpkg/varbuf.c: the ends of `varbuf_trunc` and `varbuf_grow`.
use mathlib.Core.List.{append-nil, append_assoc}
use dpkg.Base.{
  [], ap, arith, false, inl, inr, leb, length, length-append, ltb, none, refl, some, suc, sym, ℕ,
  ◌*◌, ◌++◌, ◌+◌, ◌-◌, ◌<◌, ◌^◌, ◌∙◌, ◌∷◌, ◌≡◌, ◌≤◌, ◌⊎◌,
}
use dpkg.Varbuf.{
  Bytes, Varbuf, done, m_realloc, poke, undefined, varbuf_grow, varbuf_rollback, varbuf_snapshot,
  varbuf_trunc, varbuf_zero, word, write, written,
}
use dpkg.Varbuf.Memory.{poke_behind, poke_outside}
use dpkg.Varbuf.Room.{Holds}

-- Some byte stands behind `s`, the NUL or the first byte of `t`.
behind : (s t rest : Bytes) → (o : ℕ) × (back : Bytes) × ((s ++ t) ++ 0 ∷ rest ≡ s ++ o ∷ back)
behind s [] rest = (0, rest, ap (λ m. m ++ 0 ∷ rest) (append-nil s))
behind s (c ∷ t) rest = (c, t ++ 0 ∷ rest, append_assoc s (c ∷ t) (0 ∷ rest))

pub write_at :
    (v : Varbuf) (at : ℕ) (xs : Bytes) {mem : Bytes}
    → v.buf ≡ some mem
    → write at xs v ≡ written v (poke at xs mem)
unfolding write
write_at v at xs e = rw e refl

pub varbuf_trunc-Holds :
    (v : Varbuf) (s t : Bytes)
    → Holds v (s ++ t)
    → (w : Varbuf) × (varbuf_trunc v (length s) ≡ done w) × Holds w s
unfolding varbuf_trunc
varbuf_trunc-Holds v s t h = by_case h.backed
  where
    by_case :
        ((v.buf ≡ none) × (s ++ t ≡ []) × (v.size ≡ 0))
          ⊎ ((rest : Bytes) × (v.buf ≡ some ((s ++ t) ++ 0 ∷ rest))
              × (v.size ≡ length ((s ++ t) ++ 0 ∷ rest)))
        → (w : Varbuf) × (varbuf_trunc v (length s) ≡ done w) × Holds w s
    by_case (inl (e, f, z)) =
        let empty : length s ≡ 0 = omega (arith, ap length f, length-append s t) in
        let fits : ltb v.size (length s) ≡ false = ground arith in
        (
          record { used = length s; size = v.size; buf = none },
          rw (fits, e) (ap (λ b. done (record { used = length s; size = v.size; buf = b })) e),
          record { count = refl; backed = inl (refl, no_bytes s empty, z) },
        )
      where
        no_bytes : (s : Bytes) → length s ≡ 0 → s ≡ []
        no_bytes [] e = refl
        no_bytes (c ∷ s) e = absurd (omega arith)
    by_case (inr (rest, e, z)) =
        let (o, back, m) = behind s t rest in
        let whole : v.size ≡ length s + suc (length back) =
          z ∙ ap length m ∙ length-append s (o ∷ back) in
        let fits : ltb v.size (length s) ≡ false = ground arith in
        (
          record { used = length s; size = v.size; buf = some (s ++ 0 ∷ back) },
          rw (fits, e)
              (write_at (record v { used = length s }) (length s) (0 ∷ []) (e ∙ ap some m)
                ∙ ap (written (record v { used = length s }))
                    (poke_behind s (0 ∷ []) (o ∷ []) back refl)),
          record {
            count = refl;
            backed = inr (back, refl, whole ∙ sym (length-append s (0 ∷ back)));
          },
        )

-- Where a buffer held a text at its snapshot and now holds that text with more behind it, the
-- rollback ends with a buffer that holds the first text.
pub varbuf_rollback-varbuf_snapshot :
    (v w : Varbuf) (s t : Bytes)
    → Holds v s
    → Holds w (s ++ t)
    → (x : Varbuf) × (varbuf_rollback w (varbuf_snapshot v) ≡ done x) × Holds x s
unfolding varbuf_rollback varbuf_snapshot
varbuf_rollback-varbuf_snapshot v w s t h k =
    let (x, e, g) = varbuf_trunc-Holds w s t k in (x, ap (varbuf_trunc w) h.count ∙ e, g)

-- A buffer cut to its whole size is written behind its end.
pub varbuf_trunc_outside :
    (v : Varbuf) (mem : Bytes)
    → v.buf ≡ some mem
    → v.size ≡ length mem
    → varbuf_trunc v v.size ≡ undefined
unfolding varbuf_trunc
varbuf_trunc_outside v mem e z =
    let fits : ltb v.size v.size ≡ false = ground arith in
    let outside : poke v.size (0 ∷ []) mem ≡ none =
      ap (λ n. poke n (0 ∷ []) mem) z ∙ poke_outside 0 mem in
    rw (fits, e)
      (write_at (record v { used = v.size }) v.size (0 ∷ []) e
        ∙ ap (written (record v { used = v.size })) outside)

-- Growing an empty buffer by a size from 2^63 to 2^64 - 1 passes the overflow test and gives a
-- buffer smaller than that size.
pub varbuf_grow_wraps :
    (uninit : ℕ → ℕ) (need_size : ℕ)
    → 2 ^ 63 ≤ need_size
    → need_size < 2 ^ 64
    → (w : Varbuf) × (varbuf_grow uninit varbuf_zero need_size ≡ done w) × (w.size < need_size)
unfolding varbuf_grow
varbuf_grow_wraps uninit need_size h b =
    let sane : ltb 0 0 ≡ false = refl in
    let no_room : leb need_size 0 ≡ false = ground arith in
    let wraps : word (word (0 + need_size) * 2) ≡ need_size * 2 - 2 ^ 64 = omega arith in
    let no_test : ltb (need_size * 2 - 2 ^ 64) 0 ≡ false = ground arith in
    (
      record {
        used = 0;
        size = need_size * 2 - 2 ^ 64;
        buf = some (m_realloc uninit 0 (need_size * 2 - 2 ^ 64) []);
      },
      rw (no_room, wraps, no_test) refl,
      omega arith,
    )
