-- ===== src/Text/Ends.antt =====
-- lib/dpkg/string.c: the ends of strings, suffixes and surrounding quotes.
use dpkg.Base.{
  str_eq-eq, str_eq_refl, CString, ℕ, zero, suc, ◌-◌, ◌≡◌, refl, sym, ap, ◌∙◌, Bool, true, false,
  not, ◌&&◌, ◌||◌, [], ◌∷◌, ◌++◌, none, some, arith, leb, ◌==◌, if◌then◌else◌, length, take, drop,
  length-append,
}
use dpkg.Text.{str_match_end, last_of, chop, str_strip_quotes}

drop-append : (xs ys : CString) → drop (length xs) (xs ++ ys) ≡ ys
drop-append [] ys = refl
drop-append (x ∷ xs) ys = drop-append xs ys

take-append-drop : (n : ℕ) (xs : CString) → take n xs ++ drop n xs ≡ xs
take-append-drop zero xs = refl
take-append-drop (suc n) [] = refl
take-append-drop (suc n) (x ∷ xs) = ap (◌∷◌ x) (take-append-drop n xs)

match_length :
    (p end : CString)
    → (leb (length end) (length (p ++ end)) ≡ true) × (length (p ++ end) - length end ≡ length p)
match_length p end = (ground (arith, length-append p end), omega (arith, length-append p end))

both : (a b : Bool) → (a && b) ≡ true → b ≡ true
both a b h = ground arith

-- str_match_end holds exactly for the texts that are something followed by the end.
pub str_match_end_lem :
    (s end : CString)
    → (str_match_end s end ≡ true → (p : CString) × (s ≡ p ++ end))
      × ((p : CString) → s ≡ p ++ end → str_match_end s end ≡ true)
unfolding str_match_end
str_match_end_lem s end = (found, holds)
  where
    found : str_match_end s end ≡ true → (p : CString) × (s ≡ p ++ end)
    found h =
        let k = length s - length end in
        let e : drop k s ≡ end =
          str_eq-eq (drop k s) end (both (leb (length end) (length s)) _ h) in
        (take k s, sym (take-append-drop k s) ∙ ap (◌++◌ (take k s)) e)

    holds : (p : CString) → s ≡ p ++ end → str_match_end s end ≡ true
    holds p e =
        rw (e, (match_length p end).0, (match_length p end).1, drop-append p end) (str_eq_refl end)

last_of-append : (c : ℕ) (s : CString) (q : ℕ) → last_of c (s ++ q ∷ []) ≡ q
last_of-append c [] q = refl
last_of-append c (d ∷ s) q = last_of-append d s q

chop-append : (s : CString) (q : ℕ) → chop (s ++ q ∷ []) ≡ s
chop-append [] q = refl
chop-append (c ∷ []) q = refl
chop-append (c ∷ d ∷ s) q = ap (◌∷◌ c) (chop-append (d ∷ s) q)

-- A text between two equal quotes is freed of them, and one that starts with a quote and ends in
-- another character is refused.
pub str_strip_quotes_lem :
    (q x : ℕ) (s : CString)
    → (q == b'"' || q == b'\'') ≡ true
    → str_strip_quotes (q ∷ (s ++ x ∷ [])) ≡ (if q == x then some s else none)
unfolding str_strip_quotes
str_strip_quotes_lem q x s h = rw (h, last_of-append q s x, chop-append s x) (flip_if (q == x))
  where
    flip_if : (b : Bool) → (if not b then none else some s) ≡ (if b then some s else none)
    flip_if true = refl
    flip_if false = refl
