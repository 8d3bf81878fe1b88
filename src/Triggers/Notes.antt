-- ===== src/Triggers/Notes.antt =====
-- lib/dpkg/dbmodify.c and lib/dpkg/triglib.c: `modstatdb_note` and `trig_clear_awaiters`, which call
-- each other.
use mathlib.Core.Path.{subst, fun_ext}
use dpkg.Triggers.{
  Outcome, Package, TrigAw, World, done, has, internerr, is_awaited, is_nil, keeps_pending, put,
  put_pkg, set_status, settled, stuck, undefined, unlink, w_status_ok, ◌>>=◌,
}
use dpkg.Triggers.Linked.{IsLinked, clash, eq_path}
use dpkg.Pkg.{
  PkgStatus, configfiles, halfconfigured, halfinstalled, installed, notinstalled, triggersawaited,
  triggerspending, unpacked,
}
use dpkg.Base.{
  Bool, Bool-cases, CString, List, [], ap, false, if◌then◌else◌, inl, inr, not, refl, sym, true, ℕ,
  ◌&&◌, ◌==◌, ◌∙◌, ◌∷◌, ◌≡◌,
}

-- The call ends with a value of which the predicate holds.
abbrev pub Ends : {A : Type 0} → (A → Type 0) → Outcome A → Type 0
Ends P (done a) = P a
Ends P internerr = ⊥
Ends P undefined = ⊥
Ends P stuck = ⊥

pub Ends-bind :
    {A B : Type 0} (P : A → Type 0) (Q : B → Type 0) (o : Outcome A) (f : A → Outcome B)
    → Ends P o
    → ((a : A) → P a → Ends Q (f a))
    → Ends Q (o >>= f)
Ends-bind P Q (done a) f h g = g a h
Ends-bind P Q internerr f h g = elim h [ ]
Ends-bind P Q undefined f h g = elim h [ ]
Ends-bind P Q stuck f h g = elim h [ ]

abbrev pub awaiting : World → ℕ → List ℕ
awaiting w p = (w.pkgs p).trigaw

abbrev pub others : World → ℕ → List ℕ
others w p = (w.pkgs p).othertrigaw

-- The pending triggers of a package that count: those that its status allows.
abbrev pub pending : World → ℕ → List CString
pending w p = (settled (w.pkgs p)).trigpend

-- The lists of a world belong together.
abbrev pub IsConsistent : World → List ℕ → List ℕ → Type 0
IsConsistent w rest owners = IsLinked (awaiting w) (others w) w.nodes w.next_node rest owners

-- Every package can be written once it is settled.
abbrev pub IsReady : World → Type 0
IsReady w = (q : ℕ) → w_status_ok (settled (w.pkgs q)) ≡ true

-- What a note leaves: the lists belong together, every package can be written, no package has become
-- awaited, and the pending triggers of every package are the same.
pub record IsKept (w : World) (rest owners : List ℕ) (x : World) : Type 0 where
  pub consistent : IsConsistent x rest owners
  pub ready : IsReady x
  pub unawaited : (q : ℕ) → others w q ≡ [] → others x q ≡ []
  pub pending_kept : (q : ℕ) → pending x q ≡ pending w q

pub put_other :
    {A : Type 0} (f : Package → A) (g : ℕ → Package) (p : ℕ) (v : Package)
    → ◌≡◌ {A = ℕ → A} (λ q. f (put g p v q)) (put (λ q. f (g q)) p (f v))
put_other f g p v =
    fun_ext λ q. elim (Bool-cases (p == q)) [ inl d ↦ rw d refl | inr d ↦ rw d refl ]

pub put_same :
    {A : Type 0} (f : Package → A) (g : ℕ → Package) (p : ℕ) (v : Package)
    → f v ≡ f (g p)
    → ◌≡◌ {A = ℕ → A} (λ q. f (put g p v q)) (λ q. f (g q))
put_same f g p v e = fun_ext λ q. elim (Bool-cases (p == q)) [
  | inl d ↦ rw d (e ∙ ap (λ t. f (g t)) (eq_path p q d))
  | inr d ↦ rw d refl
]

-- The same lists in another world.
pub IsLinked-same :
    {tr tr2 oth oth2 : ℕ → List ℕ} {nodes : ℕ → TrigAw} {next : ℕ} {rest owners : List ℕ}
    → tr2 ≡ tr
    → oth2 ≡ oth
    → IsLinked tr oth nodes next rest owners
    → IsLinked tr2 oth2 nodes next rest owners
IsLinked-same {tr} {tr2} {oth} {oth2} {nodes} {next} {rest} {owners} e f h =
    subst (λ t. IsLinked t oth2 nodes next rest owners) (sym e)
      (subst (λ o. IsLinked tr o nodes next rest owners) (sym f) h)

pub IsReady-put :
    (w : World) (p : ℕ) (v : Package)
    → IsReady w
    → w_status_ok (settled v) ≡ true
    → IsReady (put_pkg w p v)
IsReady-put w p v h k q = elim (Bool-cases (p == q)) [ inl d ↦ rw d k | inr d ↦ rw d (h q) ]

abbrev pub cleared : ℕ → Package → Package
cleared n v = record v { trigaw = unlink n v.trigaw }

-- What the loop makes of a package that awaits nothing more.
abbrev pub awoken : Package → Package
awoken u = set_status (if is_nil u.trigpend then installed else triggerspending) u

pub and_left : (a b : Bool) → (a && b) ≡ true → a ≡ true
and_left true b h = refl
and_left false b h = absurd (clash refl h)

pub and_right : (a b : Bool) → (a && b) ≡ true → b ≡ true
and_right true b h = h
and_right false b h = absurd (clash refl h)

pub awoken-ready :
    (n : ℕ) (v : Package)
    → (is_nil (unlink n v.trigaw) && is_awaited v.status) ≡ true
    → w_status_ok (settled (awoken (cleared n v))) ≡ true
unfolding set_status
awoken-ready n v e =
    by_status v.status v.status_dirty v.trigpend v.trigaw v.othertrigaw
      (and_left (is_nil (unlink n v.trigaw)) (is_awaited v.status) e)
      (and_right (is_nil (unlink n v.trigaw)) (is_awaited v.status) e)
  where
    by_status :
        (s : PkgStatus) (d : Bool) (t : List CString) (a o : List ℕ)
        → is_nil (unlink n a) ≡ true
        → is_awaited s ≡ true
        → w_status_ok (
            settled (
              awoken (
                cleared n (record {
                  status = s;
                  status_dirty = d;
                  trigpend = t;
                  trigaw = a;
                  othertrigaw = o;
                }))))
          ≡ true
    by_status triggersawaited d [] a o e f = e
    by_status triggersawaited d (t ∷ ts) a o e f = e
    by_status notinstalled d t a o e f = absurd (clash refl f)
    by_status configfiles d t a o e f = absurd (clash refl f)
    by_status halfinstalled d t a o e f = absurd (clash refl f)
    by_status unpacked d t a o e f = absurd (clash refl f)
    by_status halfconfigured d t a o e f = absurd (clash refl f)
    by_status triggerspending d t a o e f = absurd (clash refl f)
    by_status installed d t a o e f = absurd (clash refl f)

pub awoken_pending :
    (n : ℕ) (v : Package)
    → (is_nil (unlink n v.trigaw) && is_awaited v.status) ≡ true
    → (settled (awoken (cleared n v))).trigpend ≡ (settled v).trigpend
unfolding set_status
awoken_pending n v e =
    by_status v.status v.status_dirty v.trigpend v.trigaw v.othertrigaw
      (and_right (is_nil (unlink n v.trigaw)) (is_awaited v.status) e)
  where
    by_status :
        (s : PkgStatus) (d : Bool) (t : List CString) (a o : List ℕ)
        → is_awaited s ≡ true
        → let v : Package = record {
          status = s;
          status_dirty = d;
          trigpend = t;
          trigaw = a;
          othertrigaw = o;
        } in
          (settled (awoken (cleared n v))).trigpend ≡ (settled v).trigpend
    by_status triggersawaited d [] a o f = refl
    by_status triggersawaited d (t ∷ ts) a o f = refl
    by_status notinstalled d t a o f = absurd (clash refl f)
    by_status configfiles d t a o f = absurd (clash refl f)
    by_status halfinstalled d t a o f = absurd (clash refl f)
    by_status unpacked d t a o f = absurd (clash refl f)
    by_status halfconfigured d t a o f = absurd (clash refl f)
    by_status triggerspending d t a o f = absurd (clash refl f)
    by_status installed d t a o f = absurd (clash refl f)

pub settled_pending : (v : Package) → (settled (settled v)).trigpend ≡ (settled v).trigpend
settled_pending v = elim (Bool-cases (keeps_pending v.status)) [
  | inl e ↦ rw e refl
  | inr e ↦ rw e refl
]

pub pending_put :
    (w : World) (p : ℕ) (v : Package)
    → (settled v).trigpend ≡ pending w p
    → (q : ℕ) → pending (put_pkg w p v) q ≡ pending w q
pending_put w p v e q = ap (λ f. f q) (put_same (λ u. (settled u).trigpend) w.pkgs p v e)

nil_has : (n : ℕ) (a : List ℕ) → is_nil a ≡ true → has n a ≡ true → ⊥
nil_has n [] e h = clash refl h
nil_has n (x ∷ a) e h = clash refl e

pub cleared-ready :
    (n : ℕ) (v : Package)
    → w_status_ok (settled v) ≡ true
    → has n v.trigaw ≡ true
    → (is_nil (unlink n v.trigaw) && is_awaited v.status) ≡ false
    → w_status_ok (settled (cleared n v)) ≡ true
cleared-ready n v = by_status v.status v.status_dirty v.trigpend v.trigaw v.othertrigaw
  where
    by_status :
        (s : PkgStatus) (d : Bool) (t : List CString) (a o : List ℕ)
        → let v : Package = record {
          status = s;
          status_dirty = d;
          trigpend = t;
          trigaw = a;
          othertrigaw = o;
        } in
          w_status_ok (settled v) ≡ true
          → has n a ≡ true
          → (is_nil (unlink n a) && is_awaited s) ≡ false
          → w_status_ok (settled (cleared n v)) ≡ true
    by_status triggersawaited d t a o h k e = not_nil (is_nil (unlink n a)) e
      where
        not_nil : (b : Bool) → (b && true) ≡ false → not b ≡ true
        not_nil true e = absurd (clash e refl)
        not_nil false e = refl
    by_status triggerspending d t a o h k e =
        absurd (nil_has n a (and_right (not (is_nil t)) (is_nil a) h) k)
    by_status installed d t a o h k e = absurd (nil_has n a h k)
    by_status notinstalled d t a o h k e = refl
    by_status configfiles d t a o h k e = refl
    by_status halfinstalled d t a o h k e = refl
    by_status unpacked d t a o h k e = refl
    by_status halfconfigured d t a o h k e = refl
