-- ===== src/StrVec.antt =====
-- lib/dpkg/strvec.c: vectors of strings, without their capacity.
pub mod Join
use dpkg.Base.{Bool, CString, List, Option, [], false, none, some, true, ℕ, ◌++◌, ◌==◌, ◌∷◌}

-- The strings of a vector that are in use.
abbrev pub StrVec : Type 0
StrVec = List CString

abbrev pub strvec_push : StrVec → CString → StrVec
strvec_push sv str = sv ++ str ∷ []

abbrev pub strvec_peek : StrVec → Option CString
strvec_peek [] = none
strvec_peek (s ∷ []) = some s
strvec_peek (s ∷ t ∷ sv) = strvec_peek (t ∷ sv)

abbrev pub strvec_drop : StrVec → StrVec
strvec_drop [] = []
strvec_drop (s ∷ []) = []
strvec_drop (s ∷ t ∷ sv) = s ∷ strvec_drop (t ∷ sv)

abbrev pub strvec_pop : StrVec → Option CString × StrVec
strvec_pop sv = (strvec_peek sv, strvec_drop sv)

-- The part at hand and those behind it. With `skip`, the separators that follow another one are passed
-- over, which `run` stands for.
abbrev pub split_loop : Bool → ℕ → Bool → CString → CString × StrVec
split_loop skip sep run [] = ([], [])
split_loop skip sep run (c ∷ str) = elim (c == sep) [
  | false ↦ let (part, rest) = split_loop skip sep false str in (c ∷ part, rest)
  | true ↦ elim run [
    | true ↦ split_loop skip sep true str
    | false ↦ let (part, rest) = split_loop skip sep skip str in ([], part ∷ rest)
  ]
]

unfoldable pub strvec_split : CString → ℕ → Bool → StrVec
strvec_split str sep skip = let (part, rest) = split_loop skip sep false str in part ∷ rest

unfoldable pub strvec_join : StrVec → ℕ → CString
strvec_join [] sep = []
strvec_join (s ∷ []) sep = s
strvec_join (s ∷ t ∷ sv) sep = s ++ sep ∷ strvec_join (t ∷ sv) sep
