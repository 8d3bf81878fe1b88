-- ===== src/Triggers/Linked.antt =====
-- lib/dpkg/triglib.c: how the lists of awaited and awaiting packages belong together.
use dpkg.Base.{
  Bool, Bool-cases, List, Option, [], ap, arith, false, inl, inr, none, refl, some, sym, true, ℕ,
  ◌<◌, ◌==◌, ◌||◌, ◌∙◌, ◌∷◌, ◌≡◌, ◌⊎◌,
}
use dpkg.Triggers.{TrigAw, has, put, unlink}
use dpkg.Triggers.Lists.{NoDup, NoDup-unlink, has-unlink, has-unlink_gone}

-- The lists `trigaw` and `othertrigaw` of every package, the nodes and the next one. `rest` holds nodes
-- that a loop has still to visit, and `owners` every package that some package awaits.
pub record IsLinked (tr oth : ℕ → List ℕ) (nodes : ℕ → TrigAw) (next : ℕ) (rest owners : List ℕ)
    : Type 0 where
  pub rest_apart : NoDup rest
  pub rest_only : (n p : ℕ) → has n rest ≡ true → has n (oth p) ≡ false
  pub other_apart : (p : ℕ) → NoDup (oth p)
  pub awaited_apart : (a : ℕ) → NoDup (tr a)
  pub owner : (n p : ℕ) → has n (oth p) ≡ true → (nodes n).pend ≡ p
  pub rest_linked : (n a : ℕ) → has n rest ≡ true → (nodes n).aw ≡ some a → has n (tr a) ≡ true
  pub other_linked :
      (n p a : ℕ) → has n (oth p) ≡ true → (nodes n).aw ≡ some a → has n (tr a) ≡ true
  pub awaited_aw : (n a : ℕ) → has n (tr a) ≡ true → (nodes n).aw ≡ some a
  pub awaited_live :
      (n a : ℕ) → has n (tr a) ≡ true → (has n rest ≡ true) ⊎ (has n (oth (nodes n).pend) ≡ true)
  pub owned : (p : ℕ) → has p owners ≡ false → oth p ≡ []
  pub rest_old : (n : ℕ) → has n rest ≡ true → n < next
  pub other_old : (n p : ℕ) → has n (oth p) ≡ true → n < next

pub clash : {b : Bool} → b ≡ false → b ≡ true → ⊥
clash e h = cc

pub eq_path : (m n : ℕ) → (m == n) ≡ true → m ≡ n
eq_path m n h = ground arith

pub some_inj : {a b : ℕ} → some a ≡ some b → a ≡ b
some_inj e = cc

pub none-some : {a : ℕ} → ◌≡◌ {A = Option ℕ} none (some a) → ⊥
none-some e = cc

pub or_cases : (a b : Bool) → (a || b) ≡ true → (a ≡ true) ⊎ (b ≡ true)
or_cases true b h = inl refl
or_cases false b h = inr h

pub or_right : (a b : Bool) → b ≡ true → (a || b) ≡ true
or_right true b h = refl
or_right false b h = h

module _ (tr oth : ℕ → List ℕ) (nodes : ℕ → TrigAw) (next : ℕ) where
  -- The first node of the rest is visited: it is taken from the list of the package that awaits.
  pub unlink-IsLinked :
      (n a : ℕ) (rest owners : List ℕ)
      → (nodes n).aw ≡ some a
      → IsLinked tr oth nodes next (n ∷ rest) owners
      → IsLinked (put tr a (unlink n (tr a))) oth nodes next rest owners
  unlink-IsLinked n a rest owners e h = record {
    rest_apart = h.rest_apart.1;
    rest_only = λ m p k. h.rest_only m p (later m k);
    other_apart = h.other_apart;
    awaited_apart = λ x. elim (Bool-cases (a == x)) [
      | inl q ↦ rw q (NoDup-unlink n (tr a) (h.awaited_apart a))
      | inr q ↦ rw q (h.awaited_apart x)
    ];
    owner = h.owner;
    rest_linked = λ m x k f. keeps m x (apart m k) (h.rest_linked m x (later m k) f);
    other_linked = λ m p x k f. keeps m x (elsewhere m p k) (h.other_linked m p x k f);
    awaited_aw = λ m x k. h.awaited_aw m x (was m x k).0;
    awaited_live = λ m x k. live m x (was m x k);
    owned = h.owned;
    rest_old = λ m k. h.rest_old m (later m k);
    other_old = h.other_old;
  }
    where
      later : (m : ℕ) → has m rest ≡ true → has m (n ∷ rest) ≡ true
      later m k = elim (Bool-cases (m == n)) [ inl q ↦ rw q refl | inr q ↦ rw q k ]

      apart : (m : ℕ) → has m rest ≡ true → (n == m) ≡ false
      apart m k = elim (Bool-cases (n == m)) [
        | inl q ↦ absurd (clash (ap (λ t. has t rest) (sym (eq_path n m q)) ∙ h.rest_apart.0) k)
        | inr q ↦ q
      ]

      first : has n (n ∷ rest) ≡ true
      first = ground arith

      elsewhere : (m p : ℕ) → has m (oth p) ≡ true → (n == m) ≡ false
      elsewhere m p k = elim (Bool-cases (n == m)) [
        | inl q ↦
            absurd (clash (ap (λ t. has t (oth p)) (sym (eq_path n m q)) ∙ h.rest_only n p first) k)
        | inr q ↦ q
      ]

      keeps :
          (m x : ℕ)
          → (n == m) ≡ false
          → has m (tr x) ≡ true
          → has m (put tr a (unlink n (tr a)) x) ≡ true
      keeps m x d k = elim (Bool-cases (a == x)) [
        | inl q ↦ rw q (has-unlink m n (tr a) d ∙ ap (λ t. has m (tr t)) (eq_path a x q) ∙ k)
        | inr q ↦ rw q k
      ]

      here :
          (m x : ℕ)
          → (a == x) ≡ true
          → has m (unlink n (tr a)) ≡ true
          → ((n == m) ≡ true) ⊎ ((n == m) ≡ false)
          → (has m (tr x) ≡ true) × ((n == m) ≡ false)
      here m x q k (inl d) = absurd (
          clash
            (ap (λ t. has t (unlink n (tr a))) (sym (eq_path n m d))
              ∙ has-unlink_gone n (tr a) (h.awaited_apart a))
            k)
      here m x q k (inr d) =
          (ap (λ t. has m (tr t)) (sym (eq_path a x q)) ∙ sym (has-unlink m n (tr a) d) ∙ k, d)

      there :
          (m x : ℕ)
          → (a == x) ≡ false
          → has m (tr x) ≡ true
          → ((n == m) ≡ true) ⊎ ((n == m) ≡ false)
          → (n == m) ≡ false
      there m x q k (inr d) = d
      there m x q k (inl d) =
          let both : some a ≡ some x =
            sym e ∙ ap (λ t. (nodes t).aw) (eq_path n m d) ∙ h.awaited_aw m x k in
          let same : a ≡ x = some_inj both in absurd (ground (arith, q, same))

      -- A node that is still awaited was awaited before, and is not the one taken.
      was :
          (m x : ℕ)
          → has m (put tr a (unlink n (tr a)) x) ≡ true
          → (has m (tr x) ≡ true) × ((n == m) ≡ false)
      was m x k = elim (Bool-cases (a == x)) [
        | inl q ↦ here m x q (rw q at k) (Bool-cases (n == m))
        | inr q ↦ (rw q at k, there m x q (rw q at k) (Bool-cases (n == m)))
      ]

      shorter : (m : ℕ) → (n == m) ≡ false → has m (n ∷ rest) ≡ true → has m rest ≡ true
      shorter m d r = let other : (m == n) ≡ false = ground (arith, d) in rw other at r

      live :
          (m x : ℕ)
          → (has m (tr x) ≡ true) × ((n == m) ≡ false)
          → (has m rest ≡ true) ⊎ (has m (oth (nodes m).pend) ≡ true)
      live m x (k, d) = elim (h.awaited_live m x k) [ inl r ↦ inl (shorter m d r) | inr r ↦ inr r ]

  -- The first node of the rest is skipped: it is forgotten.
  pub skip-IsLinked :
      (n : ℕ) (rest owners : List ℕ)
      → (nodes n).aw ≡ none
      → IsLinked tr oth nodes next (n ∷ rest) owners
      → IsLinked tr oth nodes next rest owners
  skip-IsLinked n rest owners e h = record {
    rest_apart = h.rest_apart.1;
    rest_only = λ m p k. h.rest_only m p (later m k);
    other_apart = h.other_apart;
    awaited_apart = h.awaited_apart;
    owner = h.owner;
    rest_linked = λ m x k f. h.rest_linked m x (later m k) f;
    other_linked = h.other_linked;
    awaited_aw = h.awaited_aw;
    awaited_live = λ m x k. live m x k (h.awaited_live m x k) (Bool-cases (m == n));
    owned = h.owned;
    rest_old = λ m k. h.rest_old m (later m k);
    other_old = h.other_old;
  }
    where
      later : (m : ℕ) → has m rest ≡ true → has m (n ∷ rest) ≡ true
      later m k = elim (Bool-cases (m == n)) [ inl q ↦ rw q refl | inr q ↦ rw q k ]

      live :
          (m x : ℕ)
          → has m (tr x) ≡ true
          → (has m (n ∷ rest) ≡ true) ⊎ (has m (oth (nodes m).pend) ≡ true)
          → ((m == n) ≡ true) ⊎ ((m == n) ≡ false)
          → (has m rest ≡ true) ⊎ (has m (oth (nodes m).pend) ≡ true)
      live m x k r (inl q) =
          absurd
            (none-some (sym e ∙ ap (λ t. (nodes t).aw) (sym (eq_path m n q)) ∙ h.awaited_aw m x k))
      live m x k (inl r) (inr q) = inl (rw q at r)
      live m x k (inr r) q = inr r
