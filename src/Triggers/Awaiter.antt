-- ===== src/Triggers/Awaiter.antt =====
-- lib/dpkg/triglib.c: the awaiting package of an activation.
use mathlib.Core.Path.{fun_ext, subst}
use dpkg.Triggers.{
  Package, World, awaits, has, is_noted, put, put_pkg, record_awaiter, set_status, settled,
  trig_note_aw, w_status_ok,
}
use dpkg.Triggers.Linked.{clash, eq_path}
use dpkg.Triggers.Updates.{note-IsLinked}
use dpkg.Triggers.Notes.{Ends, IsLinked-same, awaiting, others, pending, put_other, put_same}
use dpkg.Triggers.Calls.{set_status_awaiting, set_status_others}
use dpkg.Triggers.Activation.{IsFollowed, IsValid, ifwrite-IsFollowed, same-IsFollowed}
use dpkg.Pkg.{
  PkgStatus, configfiles, halfconfigured, halfinstalled, installed, notinstalled, status_rank,
  triggersawaited, triggerspending, unpacked,
}
use dpkg.Base.{
  Bool, Bool-cases, CString, List, [], ap, arith, if◌then◌else◌, inl, inr, length, ltb, refl, some,
  suc, sym, true, ℕ, ◌++◌, ◌<◌, ◌==◌, ◌∙◌, ◌∷◌, ◌≡◌,
}

-- The package that awaits, once its new node is linked.
abbrev awaits_also : ℕ → Package → Package
awaits_also n u = record u { trigaw = u.trigaw ++ n ∷ [] }

abbrev lowered : Package → Package
lowered v =
    if ltb (status_rank triggersawaited) (status_rank v.status)
    then set_status triggersawaited v
    else v

lowered-ready :
    (n : ℕ) (u : Package)
    → w_status_ok (settled u) ≡ true
    → w_status_ok (settled (lowered (awaits_also n u))) ≡ true
unfolding set_status
lowered-ready n u = by_status u.status u.status_dirty u.trigpend u.trigaw u.othertrigaw
  where
    by_status :
        (s : PkgStatus) (d : Bool) (t : List CString) (a o : List ℕ)
        → let v : Package = record {
          status = s;
          status_dirty = d;
          trigpend = t;
          trigaw = a;
          othertrigaw = o;
        } in
          w_status_ok (settled v) ≡ true → w_status_ok (settled (lowered (awaits_also n v))) ≡ true
    by_status triggersawaited d t [] o e = refl
    by_status triggersawaited d t (a ∷ more) o e = refl
    by_status triggerspending d t [] o e = refl
    by_status triggerspending d t (a ∷ more) o e = refl
    by_status installed d t [] o e = refl
    by_status installed d t (a ∷ more) o e = refl
    by_status notinstalled d t a o e = refl
    by_status configfiles d t a o e = refl
    by_status halfinstalled d t a o e = refl
    by_status unpacked d t a o e = refl
    by_status halfconfigured d t a o e = refl

lowered_lossless :
    (n : ℕ) (t : CString) (u : Package)
    → is_noted t (settled u).trigpend ≡ true
    → is_noted t (settled (lowered (awaits_also n u))).trigpend ≡ true
unfolding set_status is_noted
lowered_lossless n t u = by_status u.status u.status_dirty u.trigpend u.trigaw u.othertrigaw
  where
    by_status :
        (s : PkgStatus) (d : Bool) (ts : List CString) (a o : List ℕ)
        → let v : Package = record {
          status = s;
          status_dirty = d;
          trigpend = ts;
          trigaw = a;
          othertrigaw = o;
        } in
          is_noted t (settled v).trigpend ≡ true
          → is_noted t (settled (lowered (awaits_also n v))).trigpend ≡ true
    by_status triggersawaited d ts a o e = e
    by_status triggerspending d ts a o e = e
    by_status installed d ts a o e = absurd (clash refl e)
    by_status notinstalled d ts a o e = absurd (clash refl e)
    by_status configfiles d ts a o e = absurd (clash refl e)
    by_status halfinstalled d ts a o e = absurd (clash refl e)
    by_status unpacked d ts a o e = absurd (clash refl e)
    by_status halfconfigured d ts a o e = absurd (clash refl e)

lowered_others : (v : Package) → (lowered v).othertrigaw ≡ v.othertrigaw
lowered_others v = elim (Bool-cases (ltb (status_rank triggersawaited) (status_rank v.status))) [
  | inl d ↦ rw d (set_status_others triggersawaited v)
  | inr d ↦ rw d refl
]

lowered_awaiting : (v : Package) → (lowered v).trigaw ≡ v.trigaw
lowered_awaiting v = elim (Bool-cases (ltb (status_rank triggersawaited) (status_rank v.status))) [
  | inl d ↦ rw d (set_status_awaiting triggersawaited v)
  | inr d ↦ rw d refl
]

pub record_awaiter-IsFollowed :
    (fuel : ℕ) (owners : List ℕ)
    → length owners < fuel
    → (pend aw : ℕ) (w : World) → has pend owners ≡ true
    → IsValid owners w
    → Ends (IsFollowed owners w) (record_awaiter fuel pend aw w)
unfolding record_awaiter trig_note_aw
record_awaiter-IsFollowed fuel owners l pend aw w o h =
    elim (Bool-cases (awaits w.nodes pend (awaiting w aw))) [
      | inl d ↦ rw d (same-IsFollowed owners w h)
      | inr d ↦ rw d (
          ifwrite-IsFollowed fuel owners l aw w (real (x.pkgs aw))
            (subst (IsFollowed owners w) (sym same) next))
    ]
  where
    ta : ℕ
    ta = w.next_node

    linked : ℕ → Package
    linked = put w.pkgs pend (record (w.pkgs pend) { othertrigaw = ta ∷ others w pend })

    u : Package
    u = linked aw

    v : Package
    v = awaits_also ta u

    x : World
    x = record w {
      pkgs = put linked aw v;
      nodes = put w.nodes ta (record { aw = some aw; pend = pend });
      next_node = suc ta;
    }

    y : World
    y = record x { pkgs = put linked aw (lowered v) }

    -- The world as the code builds it, from the package that it reads again.
    real : Package → World
    real z =
        if ltb (status_rank triggersawaited) (status_rank z.status)
        then put_pkg x aw (set_status triggersawaited z)
        else x

    twice : (z : Package) → put (put linked aw v) aw z ≡ put linked aw z
    twice z = fun_ext λ q. elim (Bool-cases (aw == q)) [ inl d ↦ rw d refl | inr d ↦ rw d refl ]

    same : real (x.pkgs aw) ≡ y
    same =
        let self : (aw == aw) ≡ true = ground arith in
        let read : x.pkgs aw ≡ v = rw self refl in
        ap real read
        ∙ elim (Bool-cases (ltb (status_rank triggersawaited) (status_rank v.status))) [
          | inl d ↦ rw d (ap (λ f. record x { pkgs = f }) (twice (set_status triggersawaited v)))
          | inr d ↦ rw d refl
        ]

    linked_ready : (q : ℕ) → w_status_ok (settled (linked q)) ≡ true
    linked_ready q = elim (Bool-cases (pend == q)) [
      | inl d ↦ rw d (h.ready pend)
      | inr d ↦ rw d (h.ready q)
    ]

    unlowered : ◌≡◌ {A = ℕ → List ℕ} (λ q. (linked q).trigaw) (awaiting w)
    unlowered = put_same Package.trigaw w.pkgs pend _ refl

    valid : IsValid owners y
    valid = record {
      consistent =
          IsLinked-same
            (put_other Package.trigaw linked aw (lowered v)
              ∙ ap (put (λ q. (linked q).trigaw) aw)
                  (lowered_awaiting v ∙ ap (λ f. f aw ++ ta ∷ []) unlowered)
              ∙ ap (λ f. put f aw (awaiting w aw ++ ta ∷ [])) unlowered)
            (put_same Package.othertrigaw linked aw (lowered v) (lowered_others v)
              ∙ put_other Package.othertrigaw w.pkgs pend _)
            (note-IsLinked (awaiting w) (others w) w.nodes w.next_node pend aw [] owners o
              h.consistent);
      ready = λ q. elim (Bool-cases (aw == q)) [
        | inl d ↦ rw d (lowered-ready ta u (linked_ready aw))
        | inr d ↦ rw d (linked_ready q)
      ];
    }

    linked_pending : (q : ℕ) → (settled (linked q)).trigpend ≡ pending w q
    linked_pending q = elim (Bool-cases (pend == q)) [
      | inl d ↦ rw (d, pending) (ap (λ r. (settled (w.pkgs r)).trigpend) (eq_path pend q d))
      | inr d ↦ rw (d, pending) refl
    ]

    lossless :
        (q : ℕ) (t : CString) → is_noted t (pending w q) ≡ true → is_noted t (pending y q) ≡ true
    lossless q t k = elim (Bool-cases (aw == q)) [
      | inl d ↦
          rw (d, pending)
            (lowered_lossless ta t u (
              ap (is_noted t) (linked_pending aw)
              ∙ ap (λ r. is_noted t (pending w r)) (eq_path aw q d)
              ∙ k))
      | inr d ↦ rw (d, pending) (ap (is_noted t) (linked_pending q) ∙ k)
    ]

    next : IsFollowed owners w y
    next = record { valid = valid; lossless = lossless }
