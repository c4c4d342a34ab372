-- ===== src/Common/Run.antt =====
-- The outcome of a call of C code: a result, undefined behaviour, or a loop bound used up.
use mathlib.Core.Path.{◌≡◌, refl}
use mathlib.Core.Bool.{Bool, true, false}
use mathlib.Core.Logic.{◌≢◌}
use jdepends.Common.Tests.{if◌then◌else◌}

-- `fault` is a read or write outside an object; `out_of_fuel` is a loop bound of the model.
pub data Run {ℓ} (A : Type ℓ) : Type ℓ where
  ok : A → Run A
  fault : Run A
  out_of_fuel : Run A

module _ {ℓ κ} {A : Type ℓ} {B : Type κ} where
  infixl 5 ◌>>=◌
  -- The rest of the code runs on a result only.
  abbrev pub ◌>>=◌ : Run A → (A → Run B) → Run B
  out_of_fuel >>= rest = out_of_fuel
  fault >>= rest = fault
  ok result >>= rest = rest result

-- The call does not run out of fuel.
abbrev pub Ends {ℓ} : {A : Type ℓ} → Run A → Type 0
Ends (ok a) = Unit {0}
Ends fault = Unit {0}
Ends out_of_fuel = ⊥

pub >>=-Ends {ℓ κ} :
    {A : Type ℓ} {B : Type κ} (r : Run A) (f : A → Run B)
    → Ends r
    → ((a : A) → Ends (f a))
    → Ends (r >>= f)
>>=-Ends (ok a) f h k = k a
>>=-Ends fault f h k = tt
>>=-Ends out_of_fuel f h k = h

pub ne_out_of_fuel {ℓ} : {A : Type ℓ} (r : Run A) → Ends r → r ≢ out_of_fuel
ne_out_of_fuel (ok a) h e = cc
ne_out_of_fuel fault h e = cc
ne_out_of_fuel out_of_fuel h e = h

-- A result, where there is one, has the property.
abbrev pub Ensures {ℓ} : {A : Type ℓ} → (A → Type 0) → Run A → Type 0
Ensures P (ok a) = P a
Ensures P fault = Unit {0}
Ensures P out_of_fuel = Unit {0}

pub >>=-Ensures {ℓ κ} :
    {A : Type ℓ} {B : Type κ} (P : A → Type 0) (Q : B → Type 0) (r : Run A) (f : A → Run B)
    → Ensures P r
    → ((a : A) → P a → Ensures Q (f a))
    → Ensures Q (r >>= f)
>>=-Ensures P Q (ok a) f h k = k a h
>>=-Ensures P Q fault f h k = tt
>>=-Ensures P Q out_of_fuel f h k = tt

-- The same, where nothing of the first result matters
pub then-Ensures {ℓ κ} :
    {A : Type ℓ} {B : Type κ} (Q : B → Type 0) (r : Run A) (f : A → Run B)
    → ((a : A) → Ensures Q (f a))
    → Ensures Q (r >>= f)
then-Ensures Q (ok a) f k = k a
then-Ensures Q fault f k = tt
then-Ensures Q out_of_fuel f k = tt

pub if-Ensures {ℓ} :
    {A : Type ℓ} (Q : A → Type 0) (b : Bool) (x y : Run A)
    → Ensures Q x
    → Ensures Q y
    → Ensures Q (if b then x else y)
if-Ensures Q true x y h k = h
if-Ensures Q false x y h k = k

pub if-holds {ℓ} :
    {A : Type ℓ} (Q : A → Type 0) (b : Bool) (x y : A) → Q x → Q y → Q (if b then x else y)
if-holds Q true x y h k = h
if-holds Q false x y h k = k

-- Two ways to go on that agree on what is given
pub >>=-agree {ℓ κ} :
    {A : Type ℓ} {B : Type κ} (P : A → Type 0) (r : Run A) (f g : A → Run B)
    → Ensures P r
    → ((a : A) → P a → f a ≡ g a)
    → (r >>= f) ≡ (r >>= g)
>>=-agree P (ok a) f g h k = k a h
>>=-agree P fault f g h k = refl
>>=-agree P out_of_fuel f g h k = refl

pub then-agree {ℓ κ} :
    {A : Type ℓ} {B : Type κ} (r : Run A) (f g : A → Run B)
    → ((a : A) → f a ≡ g a)
    → (r >>= f) ≡ (r >>= g)
then-agree (ok a) f g k = k a
then-agree fault f g k = refl
then-agree out_of_fuel f g k = refl
