-- ===== src/Alternatives/Best.antt =====
-- utils/update-alternatives.c: which choice `alternative_get_best` takes.
use dpkg.Base.{
  CString, str_eq, str_eq-eq, ◌≡◌, refl, sym, ap, ◌∙◌, ◌≢◌, ◌⊎◌, inl, inr, Bool, true, false, List,
  [], ◌∷◌, ◌++◌, Option, none, some, arith, Bool-cases, Option-cases, All, All-right,
}
use dpkg.Alternatives.{
  Fileset, above, best_of, first_of, current_choice, best_from, best_choice, find_fileset,
}

-- An item of a list, with what stands before and behind it.
pub record Occurs {ℓ} {A : Type ℓ} (x : A) (xs : List A) : Type ℓ where
  pub before : List A
  pub behind : List A
  pub splits : xs ≡ before ++ x ∷ behind

Occurs-head {ℓ} : {A : Type ℓ} (x : A) (xs : List A) → Occurs x (x ∷ xs)
Occurs-head x xs = record { before = []; behind = xs; splits = refl }

Occurs-cons {ℓ} : {A : Type ℓ} (x y : A) (xs : List A) → Occurs x xs → Occurs x (y ∷ xs)
Occurs-cons x y xs o = record {
  before = y ∷ o.before;
  behind = o.behind;
  splits = ap (◌∷◌ y) o.splits;
}

-- No choice has a priority above that of `b`.
abbrev pub IsTop : Fileset → List Fileset → Type 0
IsTop b = All (λ (fs : Fileset). above fs.priority b.priority ≡ false)

IsTop-eq : (f g : Fileset) (xs : List Fileset) → f ≡ g → IsTop g xs → IsTop f xs
IsTop-eq f g xs e t = rw e t

record Scanned (start : Fileset) (rest : List Fileset) (b : Fileset) : Type 0 where
  from : (b ≡ start) ⊎ Occurs b rest
  start_below : above start.priority b.priority ≡ false
  top : IsTop b rest
  kept : IsTop start rest → b ≡ start

above_refl : (fs : Fileset) → above fs.priority fs.priority ≡ false
above_refl fs = ground arith

above_chain :
    (a b c : Fileset)
    → above b.priority a.priority ≡ true
    → above b.priority c.priority ≡ false
    → above a.priority c.priority ≡ false
above_chain a b c h k = ground arith

best_of-Scanned : (start : Fileset) (rest : List Fileset) → Scanned start rest (best_of start rest)
unfolding best_of
best_of-Scanned start [] = record {
  from = inl refl;
  start_below = above_refl start;
  top = tt;
  kept = λ h. refl;
}
best_of-Scanned start (fs ∷ rest) = elim (Bool-cases (above fs.priority start.priority)) [
  | inl h ↦
      let k = best_of-Scanned fs rest in
      rw h (record {
        from = inr (later (best_of fs rest) fs rest k.from);
        start_below = above_chain start fs (best_of fs rest) h k.start_below;
        top = (k.start_below, k.top);
        kept = λ t. absurd (differ (t.0) h);
      })
  | inr h ↦
      let k = best_of-Scanned start rest in
      rw h (record {
        from = keep (best_of start rest) start fs rest k.from;
        start_below = k.start_below;
        top = (below start fs (best_of start rest) h k.start_below, k.top);
        kept = λ t. k.kept t.1;
      })
]
  where
    later : (b fs : Fileset) (rest : List Fileset) → (b ≡ fs) ⊎ Occurs b rest → Occurs b (fs ∷ rest)
    later b fs rest (inl e) = rw e (Occurs-head fs rest)
    later b fs rest (inr o) = Occurs-cons b fs rest o

    keep :
        (b start fs : Fileset) (rest : List Fileset)
        → (b ≡ start) ⊎ Occurs b rest
        → (b ≡ start) ⊎ Occurs b (fs ∷ rest)
    keep b start fs rest (inl e) = inl e
    keep b start fs rest (inr o) = inr (Occurs-cons b fs rest o)

    differ : {b : Bool} → b ≡ false → b ≡ true → ⊥
    differ e h = cc

    below :
        (a b c : Fileset)
        → above b.priority a.priority ≡ false
        → above a.priority c.priority ≡ false
        → above b.priority c.priority ≡ false
    below a b c h k = ground arith

find_fileset-Occurs :
    (xs : List Fileset) (file : CString) {fs : Fileset}
    → find_fileset xs file ≡ some fs
    → Occurs fs xs × (fs.master_file ≡ file)
unfolding find_fileset
find_fileset-Occurs [] file {fs} h = cc
find_fileset-Occurs (x ∷ xs) file {fs} h = elim (Bool-cases (str_eq x.master_file file)) [
  | inl e ↦
      let same : ◌≡◌ {A = Option Fileset} (some x) (some fs) = rw e at h in
      let is_x : fs ≡ x = cc in
      (rw is_x (Occurs-head x xs), rw is_x (str_eq-eq x.master_file file e))
  | inr e ↦ let k = find_fileset-Occurs xs file (rw e at h) in (Occurs-cons fs x xs k.0, k.1)
]

All-Occurs {ℓ κ} :
    {A : Type ℓ} (P : A → Type κ) (x : A) (xs : List A) → All P xs → Occurs x xs → P x
All-Occurs P x xs h o = (All-right P o.before (x ∷ o.behind) (rw (o.splits) at h)).0

-- The best choice, and what the current link has to do with it.
pub record IsBest (choices : List Fileset) (current : Option CString) (b : Fileset) : Type 0 where
  pub occurs : Occurs b choices
  pub top : IsTop b choices
  pub current_kept :
      (fs : Fileset) → current_choice choices current ≡ some fs → IsTop fs choices → b ≡ fs

current_choice-Occurs :
    (choices : List Fileset) (current : Option CString) {fs : Fileset}
    → current_choice choices current ≡ some fs
    → Occurs fs choices
unfolding current_choice
current_choice-Occurs choices none {fs} h = cc
current_choice-Occurs choices (some file) {fs} h = (find_fileset-Occurs choices file h).0

best_of-Occurs : (fs : Fileset) (xs : List Fileset) → Occurs fs xs → Occurs (best_of fs xs) xs
best_of-Occurs fs xs o = either (best_of-Scanned fs xs).from
  where
    either : {b : Fileset} → (b ≡ fs) ⊎ Occurs b xs → Occurs b xs
    either (inl e) = rw e o
    either (inr p) = p

-- Among some choices one is taken, it occurs among them, none has a higher priority, and it is the
-- current choice if that one is known and none has a higher priority than it.
pub best_choice-IsBest :
    (choices : List Fileset) (current : Option CString)
    → choices ≢ []
    → (b : Fileset) × (best_choice choices current ≡ some b) × IsBest choices current b
unfolding best_choice best_from first_of
best_choice-IsBest [] current n = absurd (n refl)
best_choice-IsBest (x ∷ xs) current n = elim (Option-cases (current_choice (x ∷ xs) current)) [
  | inl e ↦ (
    best_of x (x ∷ xs),
    rw e refl,
    record {
      occurs = best_of-Occurs x (x ∷ xs) (Occurs-head x xs);
      top = (best_of-Scanned x (x ∷ xs)).top;
      current_kept = λ g f t. absurd (none_some (sym e ∙ f));
    },
  )
  | inr (fs, e) ↦ (
    best_of fs (x ∷ xs),
    rw e refl,
    record {
      occurs = best_of-Occurs fs (x ∷ xs) (current_choice-Occurs (x ∷ xs) current e);
      top = (best_of-Scanned fs (x ∷ xs)).top;
      current_kept = λ g f t.
          let same = some_inj (sym e ∙ f) in
          (best_of-Scanned fs (x ∷ xs)).kept (IsTop-eq fs g (x ∷ xs) same t) ∙ same;
    },
  )
]
  where
    none_some : {fs : Fileset} → ◌≡◌ {A = Option Fileset} none (some fs) → ⊥
    none_some h = cc

    some_inj : {f g : Fileset} → ◌≡◌ {A = Option Fileset} (some f) (some g) → f ≡ g
    some_inj h = cc
