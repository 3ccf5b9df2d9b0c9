-- ===== src/Prelude/Outcomes.antt =====
-- The outcome of code that can throw, or whose behaviour the language leaves undefined.
use mathlib.Core.Path.{◌≡◌, refl, sym, subst}
use mathlib.Core.Bool.{Bool, true, false}

-- `runtime_error`: an exception leaves the function. `out_of_range`: so does `std::out_of_range`.
-- `undefined`: an access that C++ gives no meaning. `out_of_fuel`: a loop of the model did not end.
pub data Fault : Type 0 where
  runtime_error out_of_range undefined out_of_fuel : Fault

pub data Exec {ℓ} (A : Type ℓ) : Type ℓ where
  ok : A → Exec A
  fault : Fault → Exec A

infixl 5 ◌>>=◌ ◌>>◌
abbrev pub ◌>>=◌ {ℓ κ} : {A : Type ℓ} {B : Type κ} → Exec A → (A → Exec B) → Exec B
ok a >>= f = f a
fault e >>= f = fault e

abbrev pub ◌>>◌ {ℓ} : {B : Type ℓ} → Exec (Unit {0}) → Exec B → Exec B
m >> k = m >>= λ _. k

abbrev pub guard : Bool → Fault → Exec (Unit {0})
guard true e = ok tt
guard false e = fault e

-- The code returns, and the result satisfies `P`.
abbrev pub Ensures {ℓ} : {A : Type ℓ} → (A → Type 0) → Exec A → Type 0
Ensures P (ok a) = P a
Ensures P (fault e) = ⊥

pub Ensures-bind {ℓ κ} :
    {A : Type ℓ} {B : Type κ} (P : A → Type 0) (Q : B → Type 0) (m : Exec A) (f : A → Exec B)
    → Ensures P m
    → ((a : A) → P a → Ensures Q (f a))
    → Ensures Q (m >>= f)
Ensures-bind P Q (ok a) f p q = q a p
Ensures-bind P Q (fault e) f p q = absurd p

pub Ensures-of_eq {ℓ} :
    {A : Type ℓ} (P : A → Type 0) (m : Exec A) (a : A) → m ≡ ok a → P a → Ensures P m
Ensures-of_eq P m a e p = subst (Ensures P) (sym e) p

pub Ensures-to_ok {ℓ} :
    {A : Type ℓ} (P : A → Type 0) (m : Exec A) → Ensures P m → (a : A) × (m ≡ ok a) × P a
Ensures-to_ok P (ok a) p = (a, refl, p)
Ensures-to_ok P (fault e) p = absurd p

-- What holds of the result, if the code returns.
abbrev pub Holds : {A : Type 0} → (A → Type 0) → Exec A → Type 0
Holds P (ok a) = P a
Holds P (fault e) = Unit

pub Holds-bind :
    {A B : Type 0} (P : A → Type 0) (Q : B → Type 0) (m : Exec A) (k : A → Exec B)
    → Holds P m
    → ((a : A) → P a → Holds Q (k a))
    → Holds Q (m >>= k)
Holds-bind P Q (ok a) k h next = next a h
Holds-bind P Q (fault e) k h next = tt

pub Holds-map :
    {A : Type 0} (P Q : A → Type 0) (m : Exec A) → Holds P m → ((a : A) → P a → Q a) → Holds Q m
Holds-map P Q (ok a) h f = f a h
Holds-map P Q (fault e) h f = tt

pub Holds-ok : {A : Type 0} (P : A → Type 0) (m : Exec A) (a : A) → Holds P m → m ≡ ok a → P a
Holds-ok P m a h e = subst (Holds P) e h

pub Holds-any : {A : Type 0} (m : Exec A) → Holds (λ _. Unit {0}) m
Holds-any (ok a) = tt
Holds-any (fault e) = tt
