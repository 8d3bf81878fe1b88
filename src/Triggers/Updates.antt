-- ===== src/Triggers/Updates.antt =====
-- lib/dpkg/triglib.c and lib/dpkg/dbmodify.c: nodes added to the lists, and nodes forgotten.
use mathlib.Core.Path.{subst}
use dpkg.Triggers.{TrigAw, forget, has, put}
use dpkg.Triggers.Linked.{IsLinked, clash, eq_path, none-some, some_inj}
use dpkg.Triggers.Lists.{NoDup-snoc, has-append}
use dpkg.Base.{
  Bool, Bool-cases, List, [], ap, arith, false, inl, inr, refl, some, suc, sym, true, ℕ, ◌++◌, ◌<◌,
  ◌==◌, ◌||◌, ◌∙◌, ◌∷◌, ◌≡◌, ◌⊎◌,
}

same_owner : (ns : List ℕ) (nodes : ℕ → TrigAw) (n : ℕ) → (forget ns nodes n).pend ≡ (nodes n).pend
same_owner ns nodes n = elim (Bool-cases (has n ns)) [ inl q ↦ rw q refl | inr q ↦ rw q refl ]

or_false : (b : Bool) → (b || false) ≡ b
or_false true = refl
or_false false = refl

-- A property of the new node and of every other one.
by_new :
    (P : ℕ → Type 0) (next : ℕ) → P next → ((m : ℕ) → (m == next) ≡ false → P m) → (m : ℕ) → P m
by_new P next new old m = elim (Bool-cases (m == next)) [
  | inl d ↦ subst P (sym (eq_path m next d)) new
  | inr d ↦ old m d
]

module _ (tr oth : ℕ → List ℕ) (nodes : ℕ → TrigAw) (next : ℕ) where
  -- A package that is removed awaits nothing.
  pub forget-IsLinked :
      (p : ℕ) (rest owners : List ℕ)
      → IsLinked tr oth nodes next rest owners
      → IsLinked (put tr p []) oth (forget (tr p) nodes) next rest owners
  forget-IsLinked p rest owners h = record {
    rest_apart = h.rest_apart;
    rest_only = h.rest_only;
    other_apart = h.other_apart;
    awaited_apart =
        λ x. elim (Bool-cases (p == x)) [ inl q ↦ rw q tt | inr q ↦ rw q (h.awaited_apart x) ];
    owner = λ n q k. same_owner (tr p) nodes n ∙ h.owner n q k;
    rest_linked = λ n a k f. linked n a f (Bool-cases (has n (tr p))) (λ g. h.rest_linked n a k g);
    other_linked =
        λ n q a k f. linked n a f (Bool-cases (has n (tr p))) (λ g. h.other_linked n q a k g);
    awaited_aw = λ n a k. stays n a (was n a k (Bool-cases (p == a)));
    awaited_live = λ n a k.
        rw (same_owner (tr p) nodes n) (h.awaited_live n a (was n a k (Bool-cases (p == a))).0);
    owned = h.owned;
    rest_old = h.rest_old;
    other_old = h.other_old;
  }
    where
      linked :
          (n a : ℕ)
          → (forget (tr p) nodes n).aw ≡ some a
          → (has n (tr p) ≡ true) ⊎ (has n (tr p) ≡ false)
          → ((nodes n).aw ≡ some a → has n (tr a) ≡ true)
          → has n (put tr p [] a) ≡ true
      linked n a f (inl q) g = absurd (none-some (rw q at f))
      linked n a f (inr q) g =
          let k : has n (tr a) ≡ true = g (rw q at f) in
          elim (Bool-cases (p == a)) [
            | inl d ↦
                let e : p ≡ a = ground (arith, d) in
                absurd (clash (sym (ap (λ t. has n (tr t)) e) ∙ q) k)
            | inr d ↦ rw d k
          ]

      was :
          (n a : ℕ)
          → has n (put tr p [] a) ≡ true
          → ((p == a) ≡ true) ⊎ ((p == a) ≡ false)
          → (has n (tr a) ≡ true) × ((p == a) ≡ false)
      was n a k (inl d) = absurd (clash (rw d refl) k)
      was n a k (inr d) = ((rw d at k), d)

      stays :
          (n a : ℕ)
          → (has n (tr a) ≡ true) × ((p == a) ≡ false)
          → (forget (tr p) nodes n).aw ≡ some a
      stays n a (k, d) = elim (Bool-cases (has n (tr p))) [
        | inl q ↦
            let e : p ≡ a = some_inj (sym (h.awaited_aw n p q) ∙ h.awaited_aw n a k) in
            absurd (ground (arith, d, e))
        | inr q ↦ rw q (h.awaited_aw n a k)
      ]

  -- A new node is behind the others of the awaiting package, and before those of the pending one.
  pub note-IsLinked :
      (pend aw : ℕ) (rest owners : List ℕ)
      → has pend owners ≡ true
      → IsLinked tr oth nodes next rest owners
      → IsLinked
          (put tr aw (tr aw ++ next ∷ []))
          (put oth pend (next ∷ oth pend))
          (put nodes next (record { aw = some aw; pend = pend }))
          (suc next)
          rest
          owners
  note-IsLinked pend aw rest owners o h = record {
    rest_apart = h.rest_apart;
    rest_only = λ m q k. in_other m q (old_rest m k) ∙ h.rest_only m q k;
    other_apart = λ q. elim (Bool-cases (pend == q)) [
      | inl d ↦ rw d (fresh_other pend, h.other_apart pend)
      | inr d ↦ rw d (h.other_apart q)
    ];
    awaited_apart = λ a. elim (Bool-cases (aw == a)) [
      | inl d ↦ rw d (NoDup-snoc (tr aw) next (h.awaited_apart aw) (fresh_awaited aw))
      | inr d ↦ rw d (h.awaited_apart a)
    ];
    owner = λ m q.
        by_new (λ m. has m (others q) ≡ true → (both m).pend ≡ q) next
          (λ k. ap TrigAw.pend both_new ∙ eq_path pend q (sym (new_other q) ∙ k))
          (λ m d k. ap TrigAw.pend (both_old m d) ∙ h.owner m q (sym (in_other m q d) ∙ k)) m;
    rest_linked = λ m a k f.
        let d = old_rest m k in
        in_awaited m a d ∙ h.rest_linked m a k (sym (ap TrigAw.aw (both_old m d)) ∙ f);
    other_linked = λ m q a.
        by_new (λ m. has m (others q) ≡ true → (both m).aw ≡ some a → has m (awaiting a) ≡ true)
          next
          (λ k f.
            let e : aw ≡ a = some_inj (sym (ap TrigAw.aw both_new) ∙ f) in
            new_awaited a ∙ ground (arith, e))
          (λ m d k f.
            in_awaited m a d
            ∙ h.other_linked m q a (sym (in_other m q d) ∙ k)
                (sym (ap TrigAw.aw (both_old m d)) ∙ f))
          m;
    awaited_aw = λ m a.
        by_new (λ m. has m (awaiting a) ≡ true → (both m).aw ≡ some a) next
          (λ k. ap TrigAw.aw both_new ∙ ap some (eq_path aw a (sym (new_awaited a) ∙ k)))
          (λ m d k. ap TrigAw.aw (both_old m d) ∙ h.awaited_aw m a (sym (in_awaited m a d) ∙ k)) m;
    awaited_live = λ m a.
        by_new
          (λ m.
            has m (awaiting a) ≡ true → (has m rest ≡ true) ⊎ (has m (others (both m).pend) ≡ true))
          next (λ k. inr (new_other (both next).pend ∙ rw both_new (ground arith)))
          (λ m d k. elim (h.awaited_live m a (sym (in_awaited m a d) ∙ k)) [
            | inl r ↦ inl r
            | inr r ↦ inr (in_other m (both m).pend d ∙ rw (both_old m d) r)
          ])
          m;
    owned = λ q k. elim (Bool-cases (pend == q)) [
      | inl d ↦ absurd (clash k (ap (λ t. has t owners) (sym (eq_path pend q d)) ∙ o))
      | inr d ↦ rw d (h.owned q k)
    ];
    rest_old = λ m k. omega (arith, h.rest_old m k);
    other_old = λ m q.
        by_new (λ m. has m (others q) ≡ true → m < suc next) next (λ k. omega arith)
          (λ m d k. omega (arith, h.other_old m q (sym (in_other m q d) ∙ k))) m;
  }
    where
      awaiting : ℕ → List ℕ
      awaiting = put tr aw (tr aw ++ next ∷ [])

      others : ℕ → List ℕ
      others = put oth pend (next ∷ oth pend)

      both : ℕ → TrigAw
      both = put nodes next (record { aw = some aw; pend = pend })

      both_new : both next ≡ record { aw = some aw; pend = pend }
      both_new = let d : (next == next) ≡ true = ground arith in rw d refl

      both_old : (m : ℕ) → (m == next) ≡ false → both m ≡ nodes m
      both_old m d = let e : (next == m) ≡ false = ground (arith, d) in rw e refl

      old_rest : (m : ℕ) → has m rest ≡ true → (m == next) ≡ false
      old_rest m k = let e : m < next = h.rest_old m k in ground (arith, e)

      fresh_rest : has next rest ≡ false
      fresh_rest = elim (Bool-cases (has next rest)) [
        | inl k ↦ absurd (omega (arith, h.rest_old next k))
        | inr k ↦ k
      ]

      fresh_other : (q : ℕ) → has next (oth q) ≡ false
      fresh_other q = elim (Bool-cases (has next (oth q))) [
        | inl k ↦ absurd (omega (arith, h.other_old next q k))
        | inr k ↦ k
      ]

      fresh_awaited : (a : ℕ) → has next (tr a) ≡ false
      fresh_awaited a = elim (Bool-cases (has next (tr a))) [
        | inl k ↦ absurd (elim (h.awaited_live next a k) [
          | inl r ↦ clash fresh_rest r
          | inr r ↦ clash (fresh_other (nodes next).pend) r
        ])
        | inr k ↦ k
      ]

      in_other : (m q : ℕ) → (m == next) ≡ false → has m (others q) ≡ has m (oth q)
      in_other m q d = elim (Bool-cases (pend == q)) [
        | inl e ↦ rw (e, d) (ap (λ t. has m (oth t)) (eq_path pend q e))
        | inr e ↦ rw e refl
      ]

      in_awaited : (m a : ℕ) → (m == next) ≡ false → has m (awaiting a) ≡ has m (tr a)
      in_awaited m a d = elim (Bool-cases (aw == a)) [
        | inl e ↦
            rw (e, has-append m (tr aw) (next ∷ []), d)
              (or_false (has m (tr aw)) ∙ ap (λ t. has m (tr t)) (eq_path aw a e))
        | inr e ↦ rw e refl
      ]

      new_other : (q : ℕ) → has next (others q) ≡ (pend == q)
      new_other q = elim (Bool-cases (pend == q)) [
        | inl e ↦ rw e (ground arith)
        | inr e ↦ rw e (fresh_other q)
      ]

      new_awaited : (a : ℕ) → has next (awaiting a) ≡ (aw == a)
      new_awaited a = elim (Bool-cases (aw == a)) [
        | inl e ↦
            let d : (next == next) ≡ true = ground arith in
            rw (e, has-append next (tr aw) (next ∷ []), fresh_awaited aw, d) refl
        | inr e ↦ rw e (fresh_awaited a)
      ]
