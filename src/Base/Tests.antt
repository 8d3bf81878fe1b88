-- ===== src/Base/Tests.antt =====
-- Boolean tests on the native numbers, the conditional, and checks over a bounded range.
use Prim.Native.Nat.{ℕ, zero, suc, ◌<◌, compare, Ordering}
use mathlib.Core.Path.{◌≡◌, refl}
use mathlib.Core.Logic.{◌↔◌, ◌⊎◌, inl, inr}
use mathlib.Core.Bool.{Bool, true, false, ◌&&◌}
use mathlib.Core.Option.{Option, none, some}
use native.Mathlib.Omega.{arith}

abbrev pub ltb : ℕ → ℕ → Bool
ltb a b = elim (compare a b) [ Ordering.lt ↦ true | _ ↦ false ]

abbrev pub leb : ℕ → ℕ → Bool
leb a b = elim (compare a b) [ Ordering.gt ↦ false | _ ↦ true ]

infix 50 ◌==◌
abbrev pub ◌==◌ : ℕ → ℕ → Bool
a == b = elim (compare a b) [ Ordering.eq ↦ true | _ ↦ false ]

infix 1 if◌then◌else◌
abbrev pub if◌then◌else◌ {ℓ} : {A : Type ℓ} → Bool → A → A → A
if true then x else y = x
if false then x else y = y

pub ==_iff : (a b : ℕ) → ((a == b) ≡ true) ↔ (a ≡ b)
==_iff a b = ground arith

pub Bool-cases : (b : Bool) → (b ≡ true) ⊎ (b ≡ false)
Bool-cases true = inl refl
Bool-cases false = inr refl

pub Option-cases {ℓ} : {A : Type ℓ} (o : Option A) → (o ≡ none) ⊎ ((a : A) × (o ≡ some a))
Option-cases none = inl refl
Option-cases (some a) = inr (a, refl)

-- Both Booleans are true at once.
pub iff : Bool → Bool → Bool
iff true b = b
iff false true = false
iff false false = true

pub iff-eq : (a b : Bool) → iff a b ≡ true → a ≡ b
unfolding iff
iff-eq true b h = ground arith
iff-eq false b h = ground arith

-- A test passes at every number below a bound.
unfoldable pub passes_below : (ℕ → Bool) → ℕ → Bool
unfolding iff
passes_below test zero = true
passes_below test (suc k) = passes_below test k && test k

pub passes_below_at :
    (test : ℕ → Bool) (k : ℕ) {c : ℕ} → c < k → passes_below test k ≡ true → test c ≡ true
unfolding passes_below
passes_below_at test zero {c} below h = absurd (omega (arith, below))
passes_below_at test (suc k) {c} below h = elim (Bool-cases (ltb c k)) [
  | inl earlier ↦ passes_below_at test k (ground arith) (ground arith)
  | inr last ↦ let is_k : c ≡ k = ground arith in rw is_k (ground arith)
]
