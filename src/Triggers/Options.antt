-- ===== src/Triggers/Options.antt =====
-- lib/dpkg/triglib.c: the kinds of triggers, and the options behind their names.
use mathlib.Core.List.{append-nil}
use dpkg.Names.{pkg_name_is_invalid}
use dpkg.Base.{
  Bool, CString, Option, [], arith, codes, false, if◌then◌else◌, in_set, none, not, peek, refl,
  some, str_eq, true, ◌&&◌, ◌++◌, ◌==◌, ◌||◌, ◌∷◌, ◌≡◌,
}

pub data TrigKind : Type 0 where
  tki_explicit tki_file tki_unknown : TrigKind

-- Whether no slash of a path is followed by another slash or the end.
unfoldable pub file_parts : CString → Bool
file_parts [] = true
file_parts (c ∷ s) =
    let rest = file_parts s in
    if c == b'/' then not (peek s == 0 || peek s == b'/') && rest else rest

unfoldable pub trig_classify_byname : CString → TrigKind
unfolding file_parts
trig_classify_byname name =
    if peek name == b'/'
    then (if file_parts name then tki_file else tki_unknown)
    else elim (pkg_name_is_invalid name) [
      | none ↦ if in_set b'_' name then tki_unknown else tki_explicit
      | some problem ↦ tki_unknown
    ]

pub data TrigOptions : Type 0 where
  trig_await trig_noawait : TrigOptions

-- The text before the first slash, and the one behind it.
unfoldable pub split_slash : CString → CString × Option CString
split_slash [] = ([], none)
split_slash (c ∷ s) =
    let (name, rest) = split_slash s in if c == b'/' then ([], some s) else (c ∷ name, rest)

unfoldable pub option_of : Option CString → TrigOptions
option_of none = trig_await
option_of (some word) =
    if str_eq (codes "noawait") word
    then trig_noawait
    else if str_eq (codes "await") word
    then trig_await
    else trig_await

unfoldable pub trig_parse_trigger_options : CString → CString × TrigOptions
unfolding split_slash option_of
trig_parse_trigger_options trigger =
    let (name, word) = split_slash trigger in (name, option_of word)

unfoldable pub trig_dump_trigger_options : TrigOptions → CString
trig_dump_trigger_options trig_noawait = codes "/noawait"
trig_dump_trigger_options trig_await = []

split_slash-none : (name : CString) → in_set b'/' name ≡ false → split_slash name ≡ (name, none)
unfolding split_slash
split_slash-none [] h = refl
split_slash-none (c ∷ name) h =
    let other : (c == b'/') ≡ false = ground (arith, h) in
    let later : in_set b'/' name ≡ false = ground (arith, h) in
    rw (split_slash-none name later, other) refl

split_slash-some :
    (name word : CString)
    → in_set b'/' name ≡ false
    → split_slash (name ++ b'/' ∷ word) ≡ (name, some word)
unfolding split_slash
split_slash-some [] word h = refl
split_slash-some (c ∷ name) word h =
    let other : (c == b'/') ≡ false = ground (arith, h) in
    let later : in_set b'/' name ≡ false = ground (arith, h) in
    rw (split_slash-some name word later, other) refl

pub trig_parse-dump :
    (name : CString) (options : TrigOptions)
    → in_set b'/' name ≡ false
    → trig_parse_trigger_options (name ++ trig_dump_trigger_options options) ≡ (name, options)
unfolding trig_parse_trigger_options trig_dump_trigger_options option_of str_eq
trig_parse-dump name trig_noawait h = rw (split_slash-some name (codes "noawait") h) refl
trig_parse-dump name trig_await h = rw (append-nil name, split_slash-none name h) refl
