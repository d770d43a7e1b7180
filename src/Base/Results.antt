-- ===== src/Base/Results.antt =====
-- Results of calls that may throw. An error keeps the exception's class (of @nestjs/common, or of the
-- repository), which fixes the HTTP status; the texts of messages are left out.
use mathlib.Core.Path.{◌≡◌, refl}
use mathlib.Core.Logic.{◌⊎◌, inl, inr}
use mathlib.Core.Bool.{Bool, true, false}
use mathlib.Core.Option.{Option, none, some}

pub data Error : Type 0 where
  bad_request not_found conflict forbidden unauthorized invalid_state_transition internal : Error
  missing_tenant_context tenant_write_violation : Error

pub data Result {ℓ} (Val : Type ℓ) : Type ℓ where
  ok : Val → Result Val
  err : Error → Result Val

-- `await` of a call, and the rest of the body.
infixl 5 ◌>>=◌ ◌>>◌
abbrev pub ◌>>=◌ {κ ℓ} :
    {Val : Type κ} {Out : Type ℓ} → Result Val → (Val → Result Out) → Result Out
call >>= rest = elim call [ ok v ↦ rest v | err thrown ↦ err thrown ]

abbrev pub ◌>>◌ {κ ℓ} : {Val : Type κ} {Out : Type ℓ} → Result Val → Result Out → Result Out
call >> rest = call >>= λ _. rest

-- `if (test) throw error`
abbrev pub throw_if : Bool → Error → Result (Unit {0})
throw_if test thrown = elim test [ true ↦ err thrown | false ↦ ok tt ]

-- `if (!value) throw error`
abbrev pub or_throw {ℓ} : {Val : Type ℓ} → Option Val → Error → Result Val
or_throw value thrown = elim value [ some v ↦ ok v | none ↦ err thrown ]

pub Result-cases {ℓ} :
    {Val : Type ℓ} (call : Result Val)
    → ((thrown : Error) × (call ≡ err thrown)) ⊎ ((v : Val) × (call ≡ ok v))
Result-cases (err thrown) = inl (thrown, refl)
Result-cases (ok v) = inr (v, refl)

-- The call returns, and throws nothing.
abbrev pub Returns {ℓ} : {Val : Type ℓ} → Result Val → Type 0
Returns (ok v) = Unit
Returns (err thrown) = ⊥

-- A body that returns has had a value from its first call.
pub bind_returns {κ ℓ} :
    {Val : Type κ} {Out : Type ℓ} (call : Result Val) (rest : Val → Result Out) {out : Out}
    → (call >>= rest) ≡ ok out
    → (v : Val) × (call ≡ ok v) × (rest v ≡ ok out)
bind_returns (err thrown) rest returned = cc
bind_returns (ok v) rest returned = (v, refl, returned)

pub ok_injective : {Val : Type 0} (a b : Val) → ok a ≡ ok b → a ≡ b
ok_injective a b h = cc

pub or_throw-some {ℓ} :
    {Val : Type ℓ} (o : Option Val) (thrown : Error) (v : Val)
    → or_throw o thrown ≡ ok v
    → o ≡ some v
or_throw-some none thrown v h = cc
or_throw-some (some a) thrown v h = cc

-- A guard that passes has failed its test.
pub throw_if_passed :
    (test : Bool) (thrown : Error) (u : Unit {0}) → throw_if test thrown ≡ ok u → test ≡ false
throw_if_passed true thrown u h = cc
throw_if_passed false thrown u h = refl
