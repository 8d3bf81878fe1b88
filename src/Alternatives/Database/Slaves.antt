-- ===== src/Alternatives/Database/Slaves.antt =====
-- utils/update-alternatives.c: the slave links in the file of a group, as they are read.
use mathlib.Core.List.{append-nil, append_assoc, map}
use dpkg.Alternatives.Saving.{slave_lines}
use dpkg.Base.{
  All, All-zip, Bool-cases, CString, Distinct, List, Option, [], ap, arith, false, inl, inr, length,
  none, refl, some, str_eq, str_eq_comm, suc, sym, zero, ℕ, ◌++◌, ◌<◌, ◌∙◌, ◌∷◌, ◌≡◌,
}
use dpkg.Alternatives.{
  Alternative, SlaveLink, alternative_add_slave, alternative_get_slave, find_slave, put_link,
}
use dpkg.Alternatives.Database.{
  Read, alternative_parse_slave, has_link, is_empty, parse_slave_link, parse_slaves, same_link,
}
use dpkg.Alternatives.Database.Lines.{IsLine, altdb_get_line-line, unlines}

-- A slave link as it is loaded.
abbrev pub fresh : SlaveLink → SlaveLink
fresh sl = record { name = sl.name; link = sl.link; updated = false }

-- What the file says of a slave, beside the group's link.
pub record IsSlave (master_link : CString) (sl : SlaveLink) : Type 0 where
  pub name_line : IsLine sl.name
  pub name_set : is_empty sl.name ≡ false
  pub link_line : IsLine sl.link
  pub own_link : str_eq sl.link master_link ≡ false

find_slave-snoc :
    (done : List SlaveLink) (sl : SlaveLink) (name : CString)
    → find_slave done name ≡ none
    → str_eq sl.name name ≡ false
    → find_slave (done ++ sl ∷ []) name ≡ none
unfolding find_slave
find_slave-snoc [] sl name h k = rw k refl
find_slave-snoc (x ∷ done) sl name h k = elim (Bool-cases (str_eq x.name name)) [
  | inl e ↦ let bad : ◌≡◌ {A = Option SlaveLink} (some x) none = rw e at h in cc
  | inr e ↦ rw e (find_slave-snoc done sl name (rw e at h) k)
]

has_link-snoc :
    (done : List SlaveLink) (sl : SlaveLink) (link : CString)
    → has_link done link ≡ false
    → str_eq link sl.link ≡ false
    → has_link (done ++ sl ∷ []) link ≡ false
unfolding has_link
has_link-snoc [] sl link h k = rw k refl
has_link-snoc (x ∷ done) sl link h k = ground (arith, has_link-snoc done sl link)

put_link-snoc :
    (done : List SlaveLink) (name link : CString)
    → find_slave done name ≡ none
    → put_link done name link ≡ done ++ record { name = name; link = link; updated = false } ∷ []
unfolding put_link find_slave
put_link-snoc [] name link h = refl
put_link-snoc (x ∷ done) name link h = elim (Bool-cases (str_eq x.name name)) [
  | inl e ↦ let bad : ◌≡◌ {A = Option SlaveLink} (some x) none = rw e at h in cc
  | inr e ↦ rw e (ap (◌∷◌ x) (put_link-snoc done name link (rw e at h)))
]

other_link :
    (master : Option CString) (link other : CString)
    → master ≡ some link
    → str_eq other link ≡ false
    → same_link master other ≡ false
other_link none link other m h = cc
other_link (some l) link other m h = unfold same_link in let e : l ≡ link = cc in rw e h

-- One slave.
parse_slave-lines :
    (a : Alternative) (link : CString) (sl : SlaveLink) (rest : CString)
    → a.master_link ≡ some link
    → IsSlave link sl
    → find_slave a.slaves sl.name ≡ none
    → has_link a.slaves sl.link ≡ false
    → alternative_parse_slave a (sl.name ++ 10 ∷ (sl.link ++ 10 ∷ rest))
      ≡ Read.ok (some (record a { slaves = a.slaves ++ fresh sl ∷ [] })) rest
unfolding alternative_parse_slave parse_slave_link alternative_get_slave alternative_add_slave
parse_slave-lines a link sl rest m v f g =
    rw
      (
        altdb_get_line-line sl.name (sl.link ++ 10 ∷ rest) v.name_line,
        v.name_set,
        f,
        altdb_get_line-line sl.link rest v.link_line,
        other_link a.master_link link sl.link m v.own_link,
        g,
      )
      (ap (λ k. Read.ok (some (record a { slaves = k })) rest)
        (put_link-snoc a.slaves sl.name sl.link f))

pub empty-IsLine : IsLine []
empty-IsLine = record { no_newline = refl; fits = omega arith }

parse_slave-end :
    (a : Alternative) (rest : CString) → alternative_parse_slave a (10 ∷ rest) ≡ Read.ok none rest
unfolding alternative_parse_slave
parse_slave-end a rest = rw (altdb_get_line-line [] rest empty-IsLine) refl

-- The slaves that are not in a list yet, by name and by link.
abbrev pub AreNew : List SlaveLink → List SlaveLink → Type 0
AreNew done todo =
    All (λ (sl : SlaveLink). find_slave done sl.name ≡ none) todo
    × All (λ (sl : SlaveLink). has_link done sl.link ≡ false) todo

AreNew-snoc :
    (done : List SlaveLink) (sl : SlaveLink) (todo : List SlaveLink)
    → AreNew done todo
    → All (λ (x : SlaveLink). str_eq sl.name x.name ≡ false) todo
    → All (λ (x : SlaveLink). str_eq sl.link x.link ≡ false) todo
    → AreNew (done ++ fresh sl ∷ []) todo
AreNew-snoc done sl todo h p q = (
  All-zip _ _ _ todo (λ x n k. find_slave-snoc done (fresh sl) x.name n k) h.0 p,
  All-zip _ _ _ todo
      (λ x n k. has_link-snoc done (fresh sl) x.link n (str_eq_comm x.link sl.link ∙ k)) h.1 q,
)

pub parse_slaves-lines :
    (f : ℕ) (a : Alternative) (link : CString) (todo : List SlaveLink) (lines : List CString)
    → length todo < f
    → a.master_link ≡ some link
    → All (IsSlave link) todo
    → AreNew a.slaves todo
    → Distinct (λ (sl : SlaveLink). sl.name) todo
    → Distinct (λ (sl : SlaveLink). sl.link) todo
    → parse_slaves f a (unlines (slave_lines todo ++ [] ∷ lines))
      ≡ Read.ok (record a { slaves = a.slaves ++ map fresh todo }) (unlines lines)
unfolding parse_slaves unlines slave_lines
parse_slaves-lines zero a link todo lines l m v n d e = absurd (omega arith)
parse_slaves-lines (suc f) a link [] lines l m v n d e =
    rw (parse_slave-end a (unlines lines))
      (ap (λ k. Read.ok (record a { slaves = k }) (unlines lines)) (sym (append-nil a.slaves)))
parse_slaves-lines (suc f) a link (sl ∷ todo) lines l m v n d e =
    rw
      (parse_slave-lines a link sl (unlines (slave_lines todo ++ [] ∷ lines)) m v.0 (n.0).0 (n.1).0)
      (parse_slaves-lines f (record a { slaves = a.slaves ++ fresh sl ∷ [] }) link todo lines
          (omega arith) m v.1 (AreNew-snoc a.slaves sl todo ((n.0).1, (n.1).1) d.0 e.0) d.1 e.1
        ∙ ap (λ k. Read.ok (record a { slaves = k }) (unlines lines))
            (append_assoc a.slaves (fresh sl ∷ []) (map fresh todo)))
