-- ===== src/Prelude/Lists.antt =====
-- Lists measured and cut by native numbers, under the library's names, and runs of numbered rows.
use Prim.Native.Nat.{ℕ, zero, suc, ◌+◌, ◌-◌, ◌≤◌, min}
use mathlib.Core.Path.{◌≡◌, refl, sym, ap}
use mathlib.Core.Bool.{Bool}
use mathlib.Core.List.{List, [], ◌∷◌, ◌++◌, map}
use native.Mathlib.Omega.{arith}
use instructed.Prelude.Tests.{if◌then◌else◌, leb}

suc-add : (a b : ℕ) → suc a + b ≡ suc (a + b)
suc-add a b = omega arith

zero-add : (b : ℕ) → 0 + b ≡ b
zero-add b = omega arith

add-zero : (b : ℕ) → b + 0 ≡ b
add-zero b = omega arith

add-suc_left : (a b : ℕ) → a + suc b ≡ suc a + b
add-suc_left a b = omega arith

module _ {ℓ} {A : Type ℓ} where
  abbrev pub length : List A → ℕ
  length [] = 0
  length (x ∷ xs) = suc (length xs)

  abbrev pub take : ℕ → List A → List A
  take zero xs = []
  take (suc n) [] = []
  take (suc n) (x ∷ xs) = x ∷ take n xs

  abbrev pub drop : ℕ → List A → List A
  drop zero xs = xs
  drop (suc n) [] = []
  drop (suc n) (x ∷ xs) = drop n xs

  -- The elements that a Boolean test accepts, in order.
  unfoldable pub select : (A → Bool) → List A → List A
  select p [] = []
  select p (x ∷ xs) = let rest = select p xs in if p x then x ∷ rest else rest

  pub length-append : (xs ys : List A) → length (xs ++ ys) ≡ length xs + length ys
  length-append [] ys = omega arith
  length-append (x ∷ xs) ys = omega (arith, length-append xs ys)

  pub length-take : (n : ℕ) (xs : List A) → length (take n xs) ≡ min n (length xs)
  length-take zero xs = omega arith
  length-take (suc n) [] = omega arith
  length-take (suc n) (x ∷ xs) = omega (arith, length-take n xs)

  pub length-drop : (n : ℕ) (xs : List A) → length (drop n xs) ≡ length xs - n
  length-drop zero xs = omega arith
  length-drop (suc n) [] = omega arith
  length-drop (suc n) (x ∷ xs) = omega (arith, length-drop n xs)

  pub take-append : (n : ℕ) (xs ys : List A) → n ≤ length xs → take n (xs ++ ys) ≡ take n xs
  take-append zero xs ys h = refl
  take-append (suc n) [] ys h = absurd (omega arith)
  take-append (suc n) (x ∷ xs) ys h = ap (λ l. x ∷ l) (take-append n xs ys (omega arith))

  pub take-all : (n : ℕ) (xs : List A) → length xs ≤ n → take n xs ≡ xs
  take-all zero [] h = refl
  take-all zero (x ∷ xs) h = absurd (omega arith)
  take-all (suc n) [] h = refl
  take-all (suc n) (x ∷ xs) h = ap (λ l. x ∷ l) (take-all n xs (omega arith))

  pub drop-all : (n : ℕ) (xs : List A) → length xs ≤ n → drop n xs ≡ []
  drop-all zero [] h = refl
  drop-all zero (x ∷ xs) h = absurd (omega arith)
  drop-all (suc n) [] h = refl
  drop-all (suc n) (x ∷ xs) h = drop-all n xs (omega arith)

  take-length-take : (q : ℕ) (xs : List A) → take (length (take q xs)) xs ≡ take q xs
  take-length-take zero xs = refl
  take-length-take (suc q) [] = refl
  take-length-take (suc q) (x ∷ xs) = ap (λ l. x ∷ l) (take-length-take q xs)

  -- A prefix, and the next piece after it, make the longer prefix.
  pub take-add :
      (v q : ℕ) (xs : List A)
      → v ≤ length xs
      → take v xs ++ take q (drop v xs) ≡ take (v + length (take q (drop v xs))) xs
  take-add zero q xs h = rw zero-add (sym (take-length-take q xs))
  take-add (suc v) q [] h = absurd (omega arith)
  take-add (suc v) q (x ∷ xs) h = rw suc-add (ap (λ l. x ∷ l) (take-add v q xs (omega arith)))

  pub select-append :
      (p : A → Bool) (xs ys : List A) → select p (xs ++ ys) ≡ select p xs ++ select p ys
  unfolding select
  select-append p [] ys = refl
  select-append p (x ∷ xs) ys = ground (arith, select-append p xs ys)

  -- Rows that are numbered one after the other, the first with `base + 1`.
  abbrev pub Run : (A → ℕ) → ℕ → List A → Type 0
  Run f base [] = Unit
  Run f base (x ∷ xs) = (f x ≡ suc base) × Run f (suc base) xs

  pub Run-append :
      (f : A → ℕ) (base next : ℕ) (xs ys : List A)
      → next ≡ base + length xs
      → Run f base xs
      → Run f next ys
      → Run f base (xs ++ ys)
  Run-append f base next [] ys e h k = rw (let same : next ≡ base = omega arith in same) at k
  Run-append f base next (x ∷ xs) ys e h k =
      (h.0, Run-append f (suc base) next xs ys (omega arith) h.1 k)

  -- In a run, the rows numbered `base + 1 + k` or more are those after the first `k`.
  select-Run_all :
      (f : A → ℕ) (from base : ℕ) (xs : List A)
      → Run f base xs
      → from ≤ suc base
      → select (λ x. leb from (f x)) xs ≡ xs
  unfolding select
  select-Run_all f from base [] h k = refl
  select-Run_all f from base (x ∷ xs) h k = ground (arith, select-Run_all f from (suc base) xs h.1)

  pub select-Run :
      (f : A → ℕ) (from k base : ℕ) (xs : List A)
      → from ≡ suc (base + k)
      → Run f base xs
      → select (λ x. leb from (f x)) xs ≡ drop k xs
  unfolding select
  select-Run f from zero base xs e h = select-Run_all f from base xs h (omega arith)
  select-Run f from (suc k) base [] e h = refl
  select-Run f from (suc k) base (x ∷ xs) e h =
      ground (arith, select-Run f from k (suc base) xs (omega arith) h.1)

  -- The number of the last row, or `base` of an empty run.
  abbrev pub last_number : (A → ℕ) → ℕ → List A → ℕ
  last_number f base [] = base
  last_number f base (x ∷ xs) = last_number f (f x) xs

  pub last_number-Run :
      (f : A → ℕ) (base : ℕ) (xs : List A)
      → Run f base xs
      → last_number f base xs ≡ base + length xs
  last_number-Run f base [] h = omega arith
  last_number-Run f base (x ∷ xs) h = rw h.0 (omega (arith, last_number-Run f (suc base) xs h.1))

  pub Run-drop :
      (f : A → ℕ) (base k next : ℕ) (xs : List A)
      → next ≡ base + k
      → Run f base xs
      → k ≤ length xs
      → Run f next (drop k xs)
  Run-drop f base zero next xs e h le = rw (let same : next ≡ base = omega arith in same) h
  Run-drop f base (suc k) next [] e h le = absurd (omega arith)
  Run-drop f base (suc k) next (x ∷ xs) e h le =
      Run-drop f (suc base) k next xs (omega arith) h.1 (omega arith)

  pub Run-take : (f : A → ℕ) (base k : ℕ) (xs : List A) → Run f base xs → Run f base (take k xs)
  Run-take f base zero xs h = tt
  Run-take f base (suc k) [] h = tt
  Run-take f base (suc k) (x ∷ xs) h = (h.0, Run-take f (suc base) k xs h.1)

pub length-map {ℓ κ} :
    {A : Type ℓ} {B : Type κ} (f : A → B) (xs : List A) → length (map f xs) ≡ length xs
length-map f [] = refl
length-map f (x ∷ xs) = ap suc (length-map f xs)
