-- ===== src/Prelude/Results.antt =====
-- Python's exceptions as values: a function returns a value or raises one of the program's errors.
use mathlib.Core.Path.{◌≡◌, refl}
use mathlib.Core.Logic.{◌⊎◌, inl, inr}
use mathlib.Core.Bool.{Bool, true, false}
use mathlib.Core.Option.{Option, none, some}

-- The exception classes that the modelled code raises.
pub data Error : Type 0 where
  type_error value_error storage_error idempotency_conflict integrity_error : Error
  ownership_error not_found state_conflict sync_error resync_required key_error attribute_error :
      Error
  runtime_error timeout_error overflow_error : Error

-- What a call gives back: its value, or the exception that it raises.
pub data Result {ℓr} (V : Type ℓr) : Type ℓr where
  ok : V → Result V
  err : Error → Result V

-- `value if value is not None else raise error`
abbrev pub or_raise {ℓr} : {V : Type ℓr} → Option V → Error → Result V
or_raise (some value) error = ok value
or_raise none error = err error

infixl 5 ◌>>=◌ ◌>>◌
-- The next statement runs unless an exception is under way.
abbrev pub ◌>>=◌ {ℓr ℓs} : {V : Type ℓr} {W : Type ℓs} → Result V → (V → Result W) → Result W
err error >>= rest = err error
ok value >>= rest = rest value

-- `if not condition: raise error`
abbrev pub guard : Bool → Error → Result (Unit {0})
guard false error = err error
guard true error = ok tt

abbrev pub ◌>>◌ {ℓs} : {W : Type ℓs} → Result (Unit {0}) → Result W → Result W
checked >> rest = checked >>= λ done. rest

-- Two calls in a row succeed only if both do.
pub >>=-eq-ok {ℓr ℓs} :
    {V : Type ℓr} {W : Type ℓs} (call : Result V) (rest : V → Result W) {answer : W}
    → call >>= rest ≡ ok answer
    → (value : V) × (call ≡ ok value) × (rest value ≡ ok answer)
>>=-eq-ok (err error) rest answered = cc
>>=-eq-ok (ok value) rest answered = (value, refl, answered)

pub guard-eq-ok : (b : Bool) (e : Error) {u : Unit {0}} → guard b e ≡ ok u → b ≡ true
guard-eq-ok true e h = refl
guard-eq-ok false e h = cc

-- A statement after a check succeeds only if the check passes.
pub guarded {ℓ} :
    {W : Type ℓ} {w : W} (b : Bool) (error : Error) (rest : Result W)
    → (guard b error >> rest) ≡ ok w
    → (b ≡ true) × (rest ≡ ok w)
guarded true error rest h = (refl, h)
guarded false error rest h = absurd (cc)

pub or_raise-eq-ok {ℓ} :
    {A : Type ℓ} (o : Option A) (e : Error) {a : A} → or_raise o e ≡ ok a → o ≡ some a
or_raise-eq-ok none e h = cc
or_raise-eq-ok (some b) e h = cc

pub ok-injective {ℓ} : {A : Type ℓ} {a b : A} → ok a ≡ ok b → a ≡ b
ok-injective h = cc

-- A call either returns or raises.
pub Result-cases {ℓ} :
    {V : Type ℓ} (call : Result V)
    → ((value : V) × (call ≡ ok value)) ⊎ ((error : Error) × (call ≡ err error))
Result-cases (ok value) = inl (value, refl)
Result-cases (err error) = inr (error, refl)
