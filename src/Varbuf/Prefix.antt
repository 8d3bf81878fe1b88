-- ===== src/Varbuf/Prefix.antt =====
-- lib/dpkg/varbuf.c: `varbuf_has_prefix` and `varbuf_trim_varbuf_prefix` against the texts of the
-- buffers.
use mathlib.Core.List.{append_assoc}
use mathlib.Core.Path.{subst}
use dpkg.Varbuf.Memory.{poke_behind}
use dpkg.Varbuf.Overflow.{varbuf_trunc-Holds, write_at}
use dpkg.Base.{
  Bool, Bool-cases, [], ap, arith, drop, false, if◌then◌else◌, inl, inr, length, length-append, ltb,
  none, refl, some, suc, sym, take, true, zero, ℕ, ◌&&◌, ◌++◌, ◌-◌, ◌<◌, ◌==◌, ◌||◌, ◌↔◌, ◌∙◌, ◌∷◌,
  ◌≡◌, ◌≤◌, ◌⊎◌,
}
use dpkg.Varbuf.{
  Bytes, Varbuf, done, old_bytes, poke, same_bytes, varbuf_has_prefix, varbuf_trim_varbuf_prefix,
  varbuf_trunc, write, written,
}
use dpkg.Varbuf.Room.{Holds}
use dpkg.Varbuf.Suffix.{IsPlain, bytes_are, drop_front, length-nil, take-drop}

-- Whether a text starts with another.
abbrev starts : Bytes → Bytes → Bool
starts s [] = true
starts [] (c ∷ p) = false
starts (d ∷ s) (c ∷ p) = d == c && starts s p

starts-append : (s p : Bytes) → starts s p ≡ true → (behind : Bytes) × (s ≡ p ++ behind)
starts-append s [] h = (s, refl)
starts-append [] (c ∷ p) h = cc
starts-append (d ∷ s) (c ∷ p) h =
    let (t, e) = starts-append s p (ground arith) in
    let same : d ≡ c = ground arith in (t, ap (λ x. x ∷ s) same ∙ ap (◌∷◌ c) e)

append-starts : (p behind : Bytes) → starts (p ++ behind) p ≡ true
append-starts [] behind = refl
append-starts (c ∷ p) behind = ground (arith, append-starts p behind)

same_bytes-starts :
    (s p x y : Bytes)
    → length p ≤ length s
    → IsPlain p
    → same_bytes (length p) (s ++ x) (p ++ y) ≡ starts s p
unfolding same_bytes
same_bytes-starts s [] x y l h = refl
same_bytes-starts [] (c ∷ p) x y l h = absurd (omega arith)
same_bytes-starts (d ∷ s) (c ∷ p) x y l h =
    rw (same_bytes-starts s p x y (omega arith) h.1) (by_test (Bool-cases (d == c)))
  where
    by_test :
        ((d == c) ≡ true) ⊎ ((d == c) ≡ false)
        → (d == c && (d == 0 || starts s p)) ≡ (d == c && starts s p)
    by_test (inl e) = let same : (d == 0) ≡ false = ground (arith, h.0) in rw (e, same) refl
    by_test (inr e) = rw e refl

starts_short : (s p : Bytes) → length s < length p → starts s p ≡ false
starts_short s [] l = absurd (omega arith)
starts_short [] (c ∷ p) l = refl
starts_short (d ∷ s) (c ∷ p) l = rw (starts_short s p (omega arith)) (either (d == c))
  where
    either : (b : Bool) → (b && false) ≡ false
    either true = refl
    either false = refl

-- The tests of `varbuf_has_prefix`, on the bytes of both buffers.
abbrev prefix_test : Bytes → Bytes → Bytes → Bytes → Bool
prefix_test s p mem mem' =
    if ltb (length s) (length p)
    then false
    else if length p == 0
    then true
    else if length s == 0
    then false
    else same_bytes (length p) mem mem'

varbuf_has_prefix-starts :
    (v w : Varbuf) (s p : Bytes)
    → Holds v s
    → Holds w p
    → IsPlain p
    → varbuf_has_prefix v w ≡ starts s p
unfolding varbuf_has_prefix
varbuf_has_prefix-starts v w s p h k b =
    rw (h.count, k.count)
      (by_length (Bool-cases (ltb (length s) (length p))) (Bool-cases (length p == 0)))
  where
    full :
        (s ≡ []) ⊎ ((rest : Bytes) × (old_bytes v.buf ≡ s ++ 0 ∷ rest))
        → (p ≡ []) ⊎ ((rest : Bytes) × (old_bytes w.buf ≡ p ++ 0 ∷ rest))
        → ltb (length s) (length p) ≡ false
        → (length p == 0) ≡ false
        → prefix_test s p (old_bytes v.buf) (old_bytes w.buf) ≡ starts s p
    full x (inl z) e f = let none_left : length p ≡ 0 = ap length z in absurd (ground arith)
    full (inl z) (inr y) e f = let none_left : length s ≡ 0 = ap length z in absurd (ground arith)
    full (inr (rest, m)) (inr (rest', m')) e f =
        let some_left : (length s == 0) ≡ false = ground arith in
        let fits : length p ≤ length s = ground arith in
        ap (prefix_test s p (old_bytes v.buf)) m'
        ∙ ap (λ t. prefix_test s p t (p ++ 0 ∷ rest')) m
        ∙ rw (e, f, some_left) (same_bytes-starts s p (0 ∷ rest) (0 ∷ rest') fits b)

    by_length :
        (ltb (length s) (length p) ≡ true) ⊎ (ltb (length s) (length p) ≡ false)
        → ((length p == 0) ≡ true) ⊎ ((length p == 0) ≡ false)
        → prefix_test s p (old_bytes v.buf) (old_bytes w.buf) ≡ starts s p
    by_length (inl e) f = rw (e, starts_short s p (ground arith)) refl
    by_length (inr e) (inl f) =
        let nil : p ≡ [] = length-nil p (ground arith) in
        let left : prefix_test s p (old_bytes v.buf) (old_bytes w.buf) ≡ true = rw (e, f) refl in
        left ∙ sym (ap (starts s) nil)
    by_length (inr e) (inr f) = full (bytes_are v s h) (bytes_are w p k) e f

length-take : (k : ℕ) (s : Bytes) → k ≤ length s → length (take k s) ≡ k
length-take zero s h = refl
length-take (suc k) [] h = absurd (omega arith)
length-take (suc k) (c ∷ s) h = ap suc (length-take k s (omega arith))

-- Bytes written over the front of a text, of which `back` is the rest.
write_over :
    (v : Varbuf) (front back t : Bytes)
    → Holds v (front ++ back)
    → 1 ≤ length (front ++ back)
    → length front ≡ length t
    → (w : Varbuf) × (write 0 t v ≡ done w) × Holds w (t ++ back) × (w.used ≡ v.used)
write_over v front back t h n l = by_case h.backed
  where
    by_case :
        ((v.buf ≡ none) × (front ++ back ≡ []) × (v.size ≡ 0))
          ⊎ ((rest : Bytes) × (v.buf ≡ some ((front ++ back) ++ 0 ∷ rest))
              × (v.size ≡ length ((front ++ back) ++ 0 ∷ rest)))
        → (w : Varbuf) × (write 0 t v ≡ done w) × Holds w (t ++ back) × (w.used ≡ v.used)
    by_case (inl (e, f, z)) = absurd (omega (arith, ap length f))
    by_case (inr (rest, e, z)) =
        let bytes : v.buf ≡ some (front ++ (back ++ 0 ∷ rest)) =
          e ∙ ap some (append_assoc front back (0 ∷ rest)) in
        let over : poke 0 t (front ++ (back ++ 0 ∷ rest)) ≡ some ((t ++ back) ++ 0 ∷ rest) =
          poke_behind [] t front (back ++ 0 ∷ rest) l
          ∙ ap some (sym (append_assoc t back (0 ∷ rest))) in
        let lengths : length (t ++ back) ≡ length (front ++ back) =
          omega (arith, length-append t back, length-append front back) in
        (
          record v { buf = some ((t ++ back) ++ 0 ∷ rest) },
          write_at v 0 t bytes ∙ ap (written v) over,
          record {
            count = h.count ∙ sym lengths;
            backed = inr (
              rest,
              refl,
              omega (
                arith,
                z,
                lengths,
                length-append (front ++ back) (0 ∷ rest),
                length-append (t ++ back) (0 ∷ rest),
              ),
            );
          },
          refl,
        )

take_front : (t rest : Bytes) → take (length t) (t ++ rest) ≡ t
take_front [] rest = refl
take_front (c ∷ t) rest = ap (◌∷◌ c) (take_front t rest)

-- The bytes that are moved.
trimmed :
    (v w : Varbuf) (p t : Bytes)
    → Holds v (p ++ t)
    → Holds w p
    → 1 ≤ length (p ++ t)
    → take (length t) (drop w.used (old_bytes v.buf)) ≡ t
trimmed v w p t h k n = by_case (bytes_are v (p ++ t) h)
  where
    by_case :
        (p ++ t ≡ []) ⊎ ((rest : Bytes) × (old_bytes v.buf ≡ (p ++ t) ++ 0 ∷ rest))
        → take (length t) (drop w.used (old_bytes v.buf)) ≡ t
    by_case (inl e) = absurd (omega (arith, ap length e))
    by_case (inr (rest, m)) =
        ap (λ i. take (length t) (drop i (old_bytes v.buf))) k.count
        ∙ ap (λ b. take (length t) (drop (length p) b)) (m ∙ append_assoc p t (0 ∷ rest))
        ∙ ap (take (length t)) (drop_front p (t ++ 0 ∷ rest))
        ∙ take_front t (0 ∷ rest)

-- Where a buffer holds a text without NULs, which another buffer holds, followed by a second text,
-- and not both are empty, trimming the prefix ends with a buffer that holds the second text.
pub varbuf_trim_varbuf_prefix-append :
    (v w : Varbuf) (p t : Bytes)
    → Holds v (p ++ t)
    → Holds w p
    → IsPlain p
    → 1 ≤ length (p ++ t)
    → (x : Varbuf) × (varbuf_trim_varbuf_prefix v w ≡ done x) × Holds x t
unfolding varbuf_trim_varbuf_prefix
varbuf_trim_varbuf_prefix-append v w p t h k b n =
    let found : varbuf_has_prefix v w ≡ true =
      varbuf_has_prefix-starts v w (p ++ t) p h k b ∙ append-starts p t in
    let cut : v.used - w.used ≡ length t = omega (arith, h.count, k.count, length-append p t) in
    let size : length t ≤ length (p ++ t) = omega (arith, length-append p t) in
    let split = take-drop (length t) (p ++ t) in
    let (u, e, g, z) =
      write_over v (take (length t) (p ++ t)) (drop (length t) (p ++ t)) t (subst (Holds v) split h)
        (subst (λ m. 1 ≤ length m) split n) (length-take (length t) (p ++ t) size) in
    let (x, f, r) = varbuf_trunc-Holds u t (drop (length t) (p ++ t)) g in
    let slice : take (v.used - w.used) (drop w.used (old_bytes v.buf)) ≡ t =
      ap (λ i. take i (drop w.used (old_bytes v.buf))) cut ∙ trimmed v w p t h k n in
    (x, rw (found, slice, e) (ap (varbuf_trunc u) cut ∙ f), r)

-- The prefix test on two buffers, the second with a text free of NULs.
pub varbuf_has_prefix_iff :
    (v w : Varbuf) (s p : Bytes)
    → Holds v s
    → Holds w p
    → IsPlain p
    → (varbuf_has_prefix v w ≡ true) ↔ ((behind : Bytes) × (s ≡ p ++ behind))
varbuf_has_prefix_iff v w s p h k b =
    let same = varbuf_has_prefix-starts v w s p h k b in
    (
      λ e. starts-append s p (sym same ∙ e),
      λ x. same ∙ ap (λ t. starts t p) x.1 ∙ append-starts p x.0,
    )
