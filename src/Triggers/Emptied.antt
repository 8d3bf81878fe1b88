-- ===== src/Triggers/Emptied.antt =====
-- lib/dpkg/triglib.c: the list of a package that is awaited is emptied.
use dpkg.Base.{
  Bool-cases, List, [], ap, arith, false, inl, inr, refl, some, sym, true, ℕ, ◌++◌, ◌<◌, ◌==◌, ◌||◌,
  ◌∙◌, ◌≡◌, ◌⊎◌,
}
use dpkg.Triggers.{TrigAw, has, put, unlink}
use dpkg.Triggers.Lists.{NoDup-append, has-append, has-unlink}
use dpkg.Triggers.Linked.{IsLinked, clash, eq_path, or_cases, or_right}

module _ (tr oth : ℕ → List ℕ) (nodes : ℕ → TrigAw) (next : ℕ) where
  -- The nodes of a package that has no pending triggers any more are those to visit.
  pub clear-IsLinked :
      (p : ℕ) (rest owners : List ℕ)
      → IsLinked tr oth nodes next rest owners
      → IsLinked tr (put oth p []) nodes next (oth p ++ rest) (unlink p owners)
  clear-IsLinked p rest owners h = record {
    rest_apart =
        NoDup-append (oth p) rest (h.other_apart p) h.rest_apart
          (λ m k. no_other m p (Bool-cases (has m rest)) k);
    rest_only = λ m q k. moved m q (either m k) (Bool-cases (p == q));
    other_apart =
        λ q. elim (Bool-cases (p == q)) [ inl d ↦ rw d tt | inr d ↦ rw d (h.other_apart q) ];
    awaited_apart = h.awaited_apart;
    owner = λ m q k. h.owner m q (still m q k);
    rest_linked = λ m x k f. linked m x f (either m k);
    other_linked = λ m q x k f. h.other_linked m q x (still m q k) f;
    awaited_aw = h.awaited_aw;
    awaited_live = λ m x k. live m (h.awaited_live m x k) (Bool-cases (p == (nodes m).pend));
    owned = λ q k. owned_left q k (Bool-cases (p == q));
    rest_old = λ m k. old m (either m k);
    other_old = λ m q k. h.other_old m q (still m q k);
  }
    where
      either : (m : ℕ) → has m (oth p ++ rest) ≡ true → (has m (oth p) ≡ true) ⊎ (has m rest ≡ true)
      either m k = or_cases (has m (oth p)) (has m rest) (sym (has-append m (oth p) rest) ∙ k)

      no_other :
          (m p : ℕ)
          → (has m rest ≡ true) ⊎ (has m rest ≡ false)
          → has m (oth p) ≡ true
          → has m rest ≡ false
      no_other m p (inl r) k = absurd (clash (h.rest_only m p r) k)
      no_other m p (inr r) k = r

      still : (m q : ℕ) → has m (put oth p [] q) ≡ true → has m (oth q) ≡ true
      still m q k = elim (Bool-cases (p == q)) [
        | inl d ↦ absurd (clash (rw d refl) k)
        | inr d ↦ (rw d at k)
      ]

      moved :
          (m q : ℕ)
          → (has m (oth p) ≡ true) ⊎ (has m rest ≡ true)
          → ((p == q) ≡ true) ⊎ ((p == q) ≡ false)
          → has m (put oth p [] q) ≡ false
      moved m q k (inl d) = rw d refl
      moved m q (inr r) (inr d) = rw d (h.rest_only m q r)
      moved m q (inl k) (inr d) = rw d (other m q k d (Bool-cases (has m (oth q))))
        where
          other :
              (m q : ℕ)
              → has m (oth p) ≡ true
              → (p == q) ≡ false
              → (has m (oth q) ≡ true) ⊎ (has m (oth q) ≡ false)
              → has m (oth q) ≡ false
          other m q k d (inl r) =
              let same : p ≡ q = sym (h.owner m p k) ∙ h.owner m q r in
              absurd (ground (arith, d, same))
          other m q k d (inr r) = r

      linked :
          (m x : ℕ)
          → (nodes m).aw ≡ some x
          → (has m (oth p) ≡ true) ⊎ (has m rest ≡ true)
          → has m (tr x) ≡ true
      linked m x f (inl k) = h.other_linked m p x k f
      linked m x f (inr k) = h.rest_linked m x k f

      live :
          (m : ℕ)
          → (has m rest ≡ true) ⊎ (has m (oth (nodes m).pend) ≡ true)
          → ((p == (nodes m).pend) ≡ true) ⊎ ((p == (nodes m).pend) ≡ false)
          → (has m (oth p ++ rest) ≡ true) ⊎ (has m (put oth p [] (nodes m).pend) ≡ true)
      live m (inl r) d = inl (has-append m (oth p) rest ∙ or_right (has m (oth p)) (has m rest) r)
      live m (inr r) (inl d) =
          let k : has m (oth p) ≡ true = ap (λ t. has m (oth t)) (eq_path p (nodes m).pend d) ∙ r in
          inl (has-append m (oth p) rest ∙ ap (λ b. b || has m rest) k)
      live m (inr r) (inr d) = inr (rw d r)

      owned_left :
          (q : ℕ)
          → has q (unlink p owners) ≡ false
          → ((p == q) ≡ true) ⊎ ((p == q) ≡ false)
          → put oth p [] q ≡ []
      owned_left q k (inl d) = rw d refl
      owned_left q k (inr d) = rw d (h.owned q (sym (has-unlink q p owners d) ∙ k))

      old : (m : ℕ) → (has m (oth p) ≡ true) ⊎ (has m rest ≡ true) → m < next
      old m (inl k) = h.other_old m p k
      old m (inr k) = h.rest_old m k
