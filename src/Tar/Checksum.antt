-- ===== src/Tar/Checksum.antt =====
-- lib/dpkg/tarfn.c: the checksum of a tar header under changes of its bytes.
use dpkg.Base.{
  CString, ℕ, ◌+◌, ◌*◌, ◌≡◌, refl, sym, ◌∙◌, ◌≢◌, false, not, [], ◌∷◌, ◌++◌, arith, ◌==◌,
  if◌then◌else◌,
}
use dpkg.Tar.{
  TarHeader, sum_bytes, before_checksum, after_checksum, tar_header_checksum, tar_atol8, is_error,
  good, mismatch, check_checksum,
}

sum_bytes-add : (n : ℕ) (s : CString) → sum_bytes n s ≡ n + sum_bytes 0 s
unfolding sum_bytes
sum_bytes-add n [] = omega arith
sum_bytes-add n (c ∷ s) = omega (arith, sum_bytes-add (n + c) s, sum_bytes-add (0 + c) s)

sum_bytes-append : (n : ℕ) (s t : CString) → sum_bytes n (s ++ t) ≡ sum_bytes (sum_bytes n s) t
unfolding sum_bytes
sum_bytes-append n [] t = refl
sum_bytes-append n (c ∷ s) t = sum_bytes-append (n + c) s t

sum_bytes-inject :
    (n : ℕ) (p : CString) (x y : ℕ) (q : CString)
    → sum_bytes n (p ++ x ∷ q) ≡ sum_bytes n (p ++ y ∷ q)
    → x ≡ y
unfolding sum_bytes
sum_bytes-inject n p x y q e = omega (
  arith,
  e,
  sum_bytes-append n p (x ∷ q),
  sum_bytes-append n p (y ∷ q),
  sum_bytes-add (sum_bytes n p + x) q,
  sum_bytes-add (sum_bytes n p + y) q,
)

sum_bytes-start : (m n : ℕ) (s : CString) → sum_bytes m s ≡ sum_bytes n s → m ≡ n
sum_bytes-start m n s e = omega (arith, e, sum_bytes-add m s, sum_bytes-add n s)

-- Two headers that differ in one byte outside the checksum field.
pub data DifferByOne (h k : TarHeader) : Type 0 where
  before :
      (p : CString) (x y : ℕ) (q : CString)
      → before_checksum h ≡ p ++ x ∷ q
      → before_checksum k ≡ p ++ y ∷ q
      → after_checksum h ≡ after_checksum k
      → x ≢ y
      → DifferByOne h k
  after :
      (p : CString) (x y : ℕ) (q : CString)
      → after_checksum h ≡ p ++ x ∷ q
      → after_checksum k ≡ p ++ y ∷ q
      → before_checksum h ≡ before_checksum k
      → x ≢ y
      → DifferByOne h k

checksum-ne : (h k : TarHeader) → DifferByOne h k → tar_header_checksum h ≢ tar_header_checksum k
unfolding tar_header_checksum
checksum-ne h k (before p x y q a b c n) e = n (
    sum_bytes-inject (b' ' * 8) p x y q
      (rw (← a, ← b) (sum_bytes-start _ _ (after_checksum k) (rw c at e))))
checksum-ne h k (after p x y q a b c n) e = n (
    sum_bytes-inject (sum_bytes (b' ' * 8) (before_checksum k)) p x y q (rw (← a, ← b) (rw c at e)))

good-eq :
    (h : TarHeader)
    → check_checksum h ≡ good
    → (is_error (tar_atol8 h.checksum).errno ≡ false)
      × (tar_header_checksum h ≡ (tar_atol8 h.checksum).value)
unfolding check_checksum
good-eq h e = (ground arith, ground arith)

-- If a tar header passes the checksum test, one with the same checksum field that differs from it
-- in one other byte fails it.
pub check_checksum_finds_change :
    (h k : TarHeader)
    → check_checksum h ≡ good
    → k.checksum ≡ h.checksum
    → DifferByOne h k
    → check_checksum k ≡ mismatch
unfolding check_checksum
check_checksum_finds_change h k g e d =
    let (no_err, same) = good-eq h g in
    let ne = checksum-ne h k d in simp (e, no_err) (differs _ _ (λ f. ne (same ∙ sym f)))
  where
    differs : (a b : ℕ) → a ≢ b → (if not (a == b) then mismatch else good) ≡ mismatch
    differs a b n = ground arith
