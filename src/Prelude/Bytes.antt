-- ===== src/Prelude/Bytes.antt =====
-- Bytes and characters as numbers, and a property checked over a range.
use Prim.Native.Nat.{ℕ, zero, suc, ◌<◌, bit_and}
use mathlib.Core.Path.{◌≡◌}
use mathlib.Core.Bool.{Bool, true, false, ◌&&◌, ◌||◌}
use mathlib.Core.List.{List, [], ◌∷◌}
use native.Mathlib.Omega.{arith}
use asr_2pass.Prelude.Tests.{◌==◌, leb}

-- `(b & mask) == value`
abbrev pub has_bits : ℕ → ℕ → ℕ → Bool
has_bits b mask value = bit_and b mask == value

abbrev pub within : ℕ → ℕ → ℕ → Bool
within lo hi c = leb lo c && leb c hi

-- <ctype.h> in the "C" locale.
abbrev pub isalpha : ℕ → Bool
isalpha c = within 65 90 c || within 97 122 c

abbrev pub isdigit : ℕ → Bool
isdigit c = within 48 57 c

abbrev pub isalnum : ℕ → Bool
isalnum c = isalpha c || isdigit c

abbrev pub ispunct : ℕ → Bool
ispunct c = within 33 47 c || within 58 64 c || within 91 96 c || within 123 126 c

abbrev pub isblank : ℕ → Bool
isblank c = c == 32 || c == 9

-- A test that is run on each number under a bound.
unfoldable pub passes : (ℕ → Bool) → ℕ → Bool
passes test zero = true
passes test (suc bound) = let rest = passes test bound in test bound && rest

pub passes_lem :
    (test : ℕ → Bool) (bound v : ℕ) → v < bound → passes test bound ≡ true → test v ≡ true
unfolding passes
passes_lem test zero v under ok = absurd (omega arith)
passes_lem test (suc bound) v under ok = ground (arith, passes_lem test bound v)

-- Two byte strings are the same.
abbrev pub same_bytes : List ℕ → List ℕ → Bool
same_bytes [] [] = true
same_bytes (x ∷ xs) (y ∷ ys) = x == y && same_bytes xs ys
same_bytes _ _ = false
