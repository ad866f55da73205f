-- ===== src/Errors/Version.antt =====
-- `parseWrongExpectedVersion` (sdks/typescript/src/errors/map-pg-error.ts): the search for
-- /actual\s+(-?\d+),\s*expected\s+(-?\d+)/ in a server message, over its code points.
use Prim.Native.Char.{code}
use instructed.Prelude.{
  ℕ, suc, ◌+◌, ◌-◌, ◌*◌, String, Bool, ◌&&◌, ◌||◌, Option, none, some, List, [], ◌∷◌, leb, beq,
  if◌then◌else◌,
}
use instructed.Prelude.Int.{ℤ, pos, negsuc}

abbrev pub codes : String → List ℕ
codes String.[] = []
codes (String.◌∷◌ c s) = code c ∷ codes s

abbrev pub is_digit : ℕ → Bool
is_digit c = leb 48 c && leb c 57

-- The characters that `\s` matches.
abbrev pub is_space : ℕ → Bool
is_space c =
    beq c 32
    || leb 9 c && leb c 13
    || beq c 160
    || beq c 5760
    || leb 8192 c && leb c 8202
    || beq c 8232
    || beq c 8233
    || beq c 8239
    || beq c 8287
    || beq c 12288
    || beq c 65279

infixl 5 ◌>>=◌
abbrev ◌>>=◌ : {A B : Type 0} → Option A → (A → Option B) → Option B
none >>= f = none
some a >>= f = f a

-- What is left after a literal prefix.
abbrev pub expect : List ℕ → List ℕ → Option (List ℕ)
expect [] rest = some rest
expect (l ∷ ls) [] = none
expect (l ∷ ls) (c ∷ cs) = let rest = expect ls cs in if beq l c then rest else none

-- `\s*`
abbrev pub skip_spaces : List ℕ → List ℕ
skip_spaces [] = []
skip_spaces (c ∷ cs) = let rest = skip_spaces cs in if is_space c then rest else c ∷ cs

-- `\s+`
abbrev pub some_spaces : List ℕ → Option (List ℕ)
some_spaces [] = none
some_spaces (c ∷ cs) = if is_space c then some (skip_spaces cs) else none

abbrev pub digits : ℕ → List ℕ → ℕ × List ℕ
digits n [] = (n, [])
digits n (c ∷ cs) =
    let more = digits (n * 10 + (c - 48)) cs in if is_digit c then more else (n, c ∷ cs)

-- `\d+`
abbrev pub some_digits : List ℕ → Option (ℕ × List ℕ)
some_digits [] = none
some_digits (c ∷ cs) = if is_digit c then some (digits (c - 48) cs) else none

abbrev pub negate : ℕ → ℤ
negate ℕ.zero = pos 0
negate (suc n) = negsuc n

-- `-?\d+`
abbrev pub integer : List ℕ → Option (ℤ × List ℕ)
integer [] = none
integer (c ∷ cs) =
    if beq c 45
    then (some_digits cs >>= λ (n, rest). some (negate n, rest))
    else (some_digits (c ∷ cs) >>= λ (n, rest). some (pos n, rest))

match_at : List ℕ → Option (ℤ × ℤ)
match_at cs = do
  cs ← expect (codes "actual") cs
  cs ← some_spaces cs
  (actual, cs) ← integer cs
  cs ← expect (codes ",") cs
  cs ← expect (codes "expected") (skip_spaces cs)
  cs ← some_spaces cs
  (expected, _) ← integer cs
  some (actual, expected)

-- The leftmost match.
search_from : List ℕ → Option (ℤ × ℤ)
search_from [] = none
search_from (c ∷ cs) =
    let later = search_from cs in elim (match_at (c ∷ cs)) [ some m ↦ some m | none ↦ later ]

unfoldable pub parse_wrong_expected_version : Option String → Option ℤ × Option ℤ
unfolding search_from match_at
parse_wrong_expected_version none = (none, none)
parse_wrong_expected_version (some message) = elim (search_from (codes message)) [
  | none ↦ (none, none)
  | some (actual, expected) ↦ (some actual, some expected)
]
