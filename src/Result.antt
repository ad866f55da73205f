-- ===== src/Result.antt =====
-- A promise that has settled: what it resolved to, or what it was rejected with. `stuck` is a loop
-- whose fuel ran out; the theorems say when it does not happen.
use mathlib.Core.Path.{◌≡◌, refl}
use mathlib.Core.Bool.{Bool, true, false}
use instructed.Errors.{Thrown}

pub data Result {ℓ} (A : Type ℓ) : Type ℓ where
  ok : A → Result A
  throw : Thrown → Result A
  stuck : Result A

infixl 5 ◌>>=◌ ◌>>◌
abbrev pub ◌>>=◌ {ℓ κ} : {A : Type ℓ} {B : Type κ} → Result A → (A → Result B) → Result B
ok a >>= f = f a
throw e >>= f = throw e
stuck >>= f = stuck

abbrev pub ◌>>◌ {ℓ} : {B : Type ℓ} → Result (Unit {0}) → Result B → Result B
m >> k = m >>= λ _. k

abbrev pub throw_if : Bool → Thrown → Result (Unit {0})
throw_if true e = throw e
throw_if false e = ok tt

-- A chain that has resolved: what its first part gave, and that the rest went on from there.
pub record Resolves {ℓ κ} {A : Type ℓ} {B : Type κ} (first : Result A) (rest : A → Result B) (b : B)
    : Type (ℓ ⊔ κ) where
  pub given : A
  pub first_ok : first ≡ ok given
  pub rest_ok : rest given ≡ ok b

pub resolved {ℓ κ} :
    {A : Type ℓ} {B : Type κ} {b : B} (rest : A → Result B) (first : Result A)
    → (first >>= rest) ≡ ok b
    → Resolves first rest b
resolved rest (throw e) chain = cc
resolved rest stuck chain = cc
resolved rest (ok given) chain = record { given = given; first_ok = refl; rest_ok = chain }
