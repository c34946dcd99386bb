-- ===== src/Jit/Outcome.antt =====
-- What a Python call comes to in the model of paw_kit/jit: a value, or an exception by its class.
use paw_toolkit.Prelude.{String, ◌≡◌, refl, subst}

pub data Error : Type 0 where
  operational_error value_error pool_exhausted deadline_exceeded validation_error : Error
  -- Any other class, by its name.
  other : String → Error

-- `type(exc).__name__`
abbrev pub type_name : Error → String
type_name operational_error = "OperationalError"
type_name value_error = "ValueError"
type_name pool_exhausted = "PoolExhausted"
type_name deadline_exceeded = "DeadlineExceeded"
type_name validation_error = "ValidationError"
type_name (other name) = name

pub data Result {ℓ} (A : Type ℓ) : Type ℓ where
  ok : A → Result A
  raised : Error → Result A

-- A call and what is done with its value; an exception ends both.
infixl 10 ◌>>=◌
abbrev pub ◌>>=◌ {κ ℓ} : {T : Type κ} {S : Type ℓ} → Result T → (T → Result S) → Result S
raised error >>= next = raised error
ok value >>= next = next value

-- What holds of the value, where there is one.
abbrev pub IfOk {ℓ κ} : {A : Type ℓ} → (A → Type κ) → Result A → Type κ
IfOk P (ok a) = P a
IfOk P (raised e) = Unit

pub >>=-IfOk {ℓ κ ℓ' κ'} :
    {A : Type ℓ} {B : Type κ} (P : A → Type ℓ') (Q : B → Type κ') (m : Result A) (f : A → Result B)
    → IfOk P m
    → ((a : A) → P a → IfOk Q (f a))
    → IfOk Q (m >>= f)
>>=-IfOk P Q (ok a) f p q = q a p
>>=-IfOk P Q (raised e) f p q = tt

pub IfOk-ok {ℓ κ} : {A : Type ℓ} (P : A → Type κ) (m : Result A) (a : A) → IfOk P m → m ≡ ok a → P a
IfOk-ok P m a p h = subst (IfOk P) h p

-- A sequence, where nothing is asked of the first value.
pub >>=-IfOk_any {ℓ κ κ'} :
    {A : Type ℓ} {B : Type κ} (Q : B → Type κ') (m : Result A) (f : A → Result B)
    → ((a : A) → IfOk Q (f a))
    → IfOk Q (m >>= f)
>>=-IfOk_any Q (ok a) f q = q a
>>=-IfOk_any Q (raised e) f q = tt

pub IfOk-self {ℓ} : {A : Type ℓ} (m : Result A) → IfOk (λ a. m ≡ ok a) m
IfOk-self (ok a) = refl
IfOk-self (raised e) = tt

pub ok_injective {ℓ} : {A : Type ℓ} {a b : A} → Result.ok a ≡ Result.ok b → a ≡ b
ok_injective h = cc

pub IfOk-with_eq {ℓ κ} :
    {A : Type ℓ} (P : A → Type κ) (m : Result A) → IfOk P m → IfOk (λ a. (m ≡ ok a) × P a) m
IfOk-with_eq P (ok a) p = (refl, p)
IfOk-with_eq P (raised e) p = tt
