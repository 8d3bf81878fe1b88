-- ===== src/Varbuf.antt =====
-- lib/dpkg/varbuf.c: buffers of variable length. A byte is a number below 256, the buffer is the list
-- of its bytes, and a `size_t` has 64 bits.
pub mod Memory
pub mod Room
pub mod Commands
pub mod Overflow
pub mod Suffix
pub mod Prefix
use dpkg.Base.{
  Bool, CString, List, Option, [], drop, false, get_or, if◌then◌else◌, leb, length, ltb, none, not,
  some, str_eq, suc, take, true, zero, ℕ, ◌%◌, ◌&&◌, ◌*◌, ◌+◌, ◌-◌, ◌==◌, ◌^◌, ◌||◌, ◌∷◌,
}

-- How a call ends: with a value, by `internerr`, by `ohshit`, or with an access outside the buffer.
pub data Outcome {ℓ} (A : Type ℓ) : Type ℓ where
  done : A → Outcome A
  internerr : Outcome A
  ohshit : Outcome A
  undefined : Outcome A

infixl 5 ◌>>=◌
abbrev pub ◌>>=◌ : {A B : Type 0} → Outcome A → (A → Outcome B) → Outcome B
done a >>= f = f a
internerr >>= f = internerr
ohshit >>= f = ohshit
undefined >>= f = undefined

abbrev pub Bytes : Type 0
Bytes = List ℕ

-- `buf` is `none` for a null pointer.
pub record Varbuf : Type 0 where
  pub used : ℕ
  pub size : ℕ
  pub buf : Option Bytes

abbrev pub word : ℕ → ℕ
word n = n % 2 ^ 64

abbrev pub varbuf_zero : Varbuf
varbuf_zero = record { used = 0; size = 0; buf = none }

-- Bytes written from an offset of the buffer.
unfoldable pub poke : ℕ → Bytes → Bytes → Option Bytes
poke zero [] mem = some mem
poke zero (x ∷ xs) [] = none
poke zero (x ∷ xs) (m ∷ mem) = elim (poke zero xs mem) [ none ↦ none | some r ↦ some (x ∷ r) ]
poke (suc n) xs [] = none
poke (suc n) xs (m ∷ mem) = elim (poke n xs mem) [ none ↦ none | some r ↦ some (m ∷ r) ]

abbrev pub written : Varbuf → Option Bytes → Outcome Varbuf
written v none = undefined
written v (some mem) = done (record v { buf = some mem })

-- A write to the buffer of `v`; of a null pointer it is no write at all, or a fault.
unfoldable pub write : ℕ → Bytes → Varbuf → Outcome Varbuf
unfolding poke
write at xs v = elim v.buf [ none ↦ undefined | some mem ↦ written v (poke at xs mem) ]

unfoldable pub varbuf_trunc : Varbuf → ℕ → Outcome Varbuf
unfolding write
varbuf_trunc v used_size = if ltb v.size used_size then internerr else elim v.buf [
  | none ↦ done (record v { used = used_size })
  | some mem ↦ write used_size (0 ∷ []) (record v { used = used_size })
]

unfoldable pub varbuf_reset : Varbuf → Outcome Varbuf
unfolding write
varbuf_reset v = elim v.buf [
  | none ↦ done (record v { used = 0 })
  | some mem ↦ write 0 (0 ∷ []) (record v { used = 0 })
]

abbrev pub old_bytes : Option Bytes → Bytes
old_bytes none = []
old_bytes (some mem) = mem

abbrev pub replicate : ℕ → ℕ → Bytes
replicate zero c = []
replicate (suc n) c = c ∷ replicate n c

-- The byte before the end, which is read where some are in use.
abbrev pub ends_slash : Varbuf → Bool
ends_slash v = get_or (old_bytes v.buf) (v.used - 1) 0 == b'/'

-- Bytes put behind the ones in use, and the NUL behind them.
unfoldable pub append : Bytes → Varbuf → Outcome Varbuf
unfolding write
append s v = do
  w ← write v.used s v
  let end = word (v.used + length s)
  write end (0 ∷ []) (record w { used = end })

-- `uninit` gives the bytes that an allocation leaves as they are. An allocation that fails ends the
-- program.
module _ (uninit : ℕ → ℕ) where
  unfoldable pub m_realloc : ℕ → ℕ → Bytes → Bytes
  m_realloc k zero old = []
  m_realloc k (suc n) [] = uninit k ∷ m_realloc (suc k) n []
  m_realloc k (suc n) (m ∷ old) = m ∷ m_realloc (suc k) n old

  unfoldable pub varbuf_init : ℕ → Outcome Varbuf
  unfolding m_realloc write
  varbuf_init size = elim size [
    | zero ↦ done varbuf_zero
    | suc n ↦
        write 0 (0 ∷ []) (record { used = 0; size = suc n; buf = some (m_realloc 0 (suc n) []) })
  ]

  unfoldable pub varbuf_grow : Varbuf → ℕ → Outcome Varbuf
  unfolding m_realloc
  varbuf_grow v need_size =
      let new_size = word (word (v.size + need_size) * 2) in
      if ltb v.size v.used
      then internerr
      else if leb need_size (v.size - v.used)
      then done v
      else if ltb new_size v.size
      then ohshit
      else done (record v { size = new_size; buf = some (m_realloc 0 new_size (old_bytes v.buf)) })

  unfoldable pub varbuf_add_buf : Varbuf → Bytes → Outcome Varbuf
  unfolding varbuf_grow append
  varbuf_add_buf v [] = done v
  varbuf_add_buf v (c ∷ t) = varbuf_grow v (word (length (c ∷ t) + 1)) >>= append (c ∷ t)

  unfoldable pub varbuf_add_char : Varbuf → ℕ → Outcome Varbuf
  unfolding varbuf_grow append
  varbuf_add_char v c = varbuf_grow v 2 >>= append (c ∷ [])

  unfoldable pub varbuf_dup_char : Varbuf → ℕ → ℕ → Outcome Varbuf
  unfolding varbuf_grow append
  varbuf_dup_char v c zero = done v
  varbuf_dup_char v c (suc n) = varbuf_grow v (word (suc n + 1)) >>= append (replicate (suc n) c)

  unfoldable pub varbuf_set_buf : Varbuf → Bytes → Outcome Varbuf
  unfolding varbuf_reset varbuf_add_buf
  varbuf_set_buf v s = varbuf_reset v >>= λ w. varbuf_add_buf w s

  unfoldable pub varbuf_add_dir : Varbuf → CString → Outcome Varbuf
  unfolding varbuf_add_buf varbuf_add_char
  varbuf_add_dir v dirname = varbuf_add_buf v dirname >>= λ w.
      if w.used == 0 || not (ends_slash w) then varbuf_add_char w b'/' else done w

  -- `other` is another buffer; what it holds in use is copied.
  unfoldable pub varbuf_add_varbuf : Varbuf → Varbuf → Outcome Varbuf
  unfolding varbuf_grow append
  varbuf_add_varbuf v other =
      varbuf_grow v (word (other.used + 1)) >>= append (take other.used (old_bytes other.buf))

  unfoldable pub varbuf_set_varbuf : Varbuf → Varbuf → Outcome Varbuf
  unfolding varbuf_set_buf
  varbuf_set_varbuf v other = varbuf_set_buf v (take other.used (old_bytes other.buf))

-- The loop over the first `n` bytes.
unfoldable pub map_bytes : ℕ → ℕ → ℕ → Bytes → Bytes
map_bytes zero c_src c_dst mem = mem
map_bytes (suc n) c_src c_dst [] = []
map_bytes (suc n) c_src c_dst (m ∷ mem) =
    (if m == c_src then c_dst else m) ∷ map_bytes n c_src c_dst mem

unfoldable pub varbuf_map_char : Varbuf → ℕ → ℕ → Varbuf
unfolding map_bytes
varbuf_map_char v c_src c_dst = elim v.buf [
  | none ↦ v
  | some mem ↦ record v { buf = some (map_bytes v.used c_src c_dst mem) }
]

-- How many of the first `len` bytes are `prefix`.
unfoldable pub prefix_run : ℕ → ℕ → Bytes → ℕ
prefix_run prefix zero mem = 0
prefix_run prefix (suc len) [] = 0
prefix_run prefix (suc len) (m ∷ mem) =
    let rest = prefix_run prefix len mem in if m == prefix then suc rest else 0

-- The loop reads the first byte before it tests the length.
unfoldable pub varbuf_trim_char_prefix : Varbuf → ℕ → Outcome Varbuf
unfolding prefix_run varbuf_trunc write
varbuf_trim_char_prefix v prefix = elim v.buf [
  | none ↦ undefined
  | some mem ↦
      let k = prefix_run prefix v.used mem in
      if k == 0
      then done v
      else (write 0 (take (v.used - k) (drop k mem)) v >>= λ w. varbuf_trunc w (v.used - k))
]

-- `strncmp` on the first `n` bytes.
unfoldable pub same_bytes : ℕ → Bytes → Bytes → Bool
same_bytes zero a b = true
same_bytes (suc n) (x ∷ a) (y ∷ b) = let rest = same_bytes n a b in x == y && (x == 0 || rest)
same_bytes (suc n) a b = false

unfoldable pub varbuf_has_prefix : Varbuf → Varbuf → Bool
unfolding same_bytes
varbuf_has_prefix v prefix =
    if ltb v.used prefix.used
    then false
    else if prefix.used == 0
    then true
    else if v.used == 0
    then false
    else same_bytes prefix.used (old_bytes v.buf) (old_bytes prefix.buf)

-- The string at the start of some bytes.
unfoldable pub string_at : Bytes → CString
string_at [] = []
string_at (m ∷ mem) = let rest = string_at mem in if m == 0 then [] else m ∷ rest

unfoldable pub varbuf_has_suffix : Varbuf → Varbuf → Bool
unfolding string_at
varbuf_has_suffix v suffix =
    if ltb v.used suffix.used
    then false
    else if suffix.used == 0
    then true
    else if v.used == 0
    then false
    else str_eq (string_at (drop (v.used - suffix.used) (old_bytes v.buf)))
        (string_at (old_bytes suffix.buf))

unfoldable pub varbuf_trim_varbuf_prefix : Varbuf → Varbuf → Outcome Varbuf
unfolding varbuf_has_prefix varbuf_trunc write
varbuf_trim_varbuf_prefix v prefix =
    if varbuf_has_prefix v prefix
    then (write 0 (take (v.used - prefix.used) (drop prefix.used (old_bytes v.buf))) v >>= λ w.
        varbuf_trunc w (v.used - prefix.used))
    else done v

-- A snapshot is the length in use.
unfoldable pub varbuf_snapshot : Varbuf → ℕ
varbuf_snapshot v = v.used

unfoldable pub varbuf_rollback : Varbuf → ℕ → Outcome Varbuf
unfolding varbuf_trunc
varbuf_rollback v used = varbuf_trunc v used

unfoldable pub varbuf_rollback_len : Varbuf → ℕ → Outcome ℕ
varbuf_rollback_len v used = if ltb v.used used then internerr else done (v.used - used)

-- The bytes that the caller gets; those of a null pointer are the empty string.
unfoldable pub varbuf_detach : Varbuf → Bytes × Varbuf
varbuf_detach v = (elim v.buf [ none ↦ 0 ∷ [] | some mem ↦ mem ], varbuf_zero)

abbrev pub varbuf_destroy : Varbuf → Varbuf
varbuf_destroy v = varbuf_zero
