-- ===== src/Varbuf/Memory.antt =====
-- lib/dpkg/varbuf.c: what the writes and the reallocation of a buffer do to its bytes.
use dpkg.Base.{[], ap, arith, length, none, refl, some, suc, zero, ℕ, ◌++◌, ◌∷◌, ◌≡◌, ◌≤◌}
use dpkg.Varbuf.{Bytes, m_realloc, poke}

-- Bytes of a given length in front of the rest.
pub record Splits (n : ℕ) (mem : Bytes) : Type 0 where
  pub front : Bytes
  pub back : Bytes
  pub is_split : mem ≡ front ++ back
  pub front_length : length front ≡ n

pub cut_front : (n : ℕ) (mem : Bytes) → n ≤ length mem → Splits n mem
cut_front zero mem h = record { front = []; back = mem; is_split = refl; front_length = refl }
cut_front (suc n) [] h = absurd (omega arith)
cut_front (suc n) (m ∷ mem) h =
    let r = cut_front n mem (omega arith) in
    record {
      front = m ∷ r.front;
      back = r.back;
      is_split = ap (◌∷◌ m) r.is_split;
      front_length = ap suc r.front_length;
    }

poke_front :
    (xs old rest : Bytes) → length old ≡ length xs → poke 0 xs (old ++ rest) ≡ some (xs ++ rest)
unfolding poke
poke_front [] [] rest h = refl
poke_front [] (o ∷ old) rest h = absurd (omega arith)
poke_front (x ∷ xs) [] rest h = absurd (omega arith)
poke_front (x ∷ xs) (o ∷ old) rest h = rw (poke_front xs old rest (omega arith)) refl

-- A write behind `s` replaces as many bytes as it has.
pub poke_behind :
    (s xs old rest : Bytes)
    → length old ≡ length xs
    → poke (length s) xs (s ++ (old ++ rest)) ≡ some (s ++ (xs ++ rest))
unfolding poke
poke_behind [] xs old rest h = poke_front xs old rest h
poke_behind (c ∷ s) xs old rest h = rw (poke_behind s xs old rest h) refl

-- A write behind the last byte is outside.
pub poke_outside : (x : ℕ) (mem : Bytes) → poke (length mem) (x ∷ []) mem ≡ none
unfolding poke
poke_outside x [] = refl
poke_outside x (m ∷ mem) = rw (poke_outside x mem) refl

-- The old bytes in front of the new ones.
pub record Extends (n : ℕ) (old mem : Bytes) : Type 0 where
  pub added : Bytes
  pub is_extended : mem ≡ old ++ added
  pub whole_length : length mem ≡ n

module _ (uninit : ℕ → ℕ) where
  pub m_realloc-Extends :
      (k n : ℕ) (old : Bytes) → length old ≤ n → Extends n old (m_realloc uninit k n old)
  unfolding m_realloc
  m_realloc-Extends k zero [] h = record { added = []; is_extended = refl; whole_length = refl }
  m_realloc-Extends k zero (o ∷ old) h = absurd (omega arith)
  m_realloc-Extends k (suc n) [] h =
      let r = m_realloc-Extends (suc k) n [] (omega arith) in
      record {
        added = uninit k ∷ m_realloc uninit (suc k) n [];
        is_extended = refl;
        whole_length = ap suc r.whole_length;
      }
  m_realloc-Extends k (suc n) (o ∷ old) h =
      let r = m_realloc-Extends (suc k) n old (omega arith) in
      record {
        added = r.added;
        is_extended = ap (◌∷◌ o) r.is_extended;
        whole_length = ap suc r.whole_length;
      }
