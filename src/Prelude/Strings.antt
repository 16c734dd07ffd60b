-- ===== src/Prelude/Strings.antt =====
-- Python's `str` methods on lists of code points.
use Prim.Native.Nat.{ℕ}
use mathlib.Core.Bool.{Bool, true, false, ◌&&◌, ◌||◌}
use mathlib.Core.List.{List, [], ◌∷◌}
use django_smart_ratelimit.Prelude.Tests.{leb, nat_beq, if◌then◌else◌}
use django_smart_ratelimit.Prelude.Keys.{Text}

-- The code points that `strip()` removes.
unfoldable pub is_space : ℕ → Bool
is_space c =
    (leb 9 c && leb c 13)
    || (leb 28 c && leb c 32)
    || nat_beq c 133
    || nat_beq c 160
    || nat_beq c 5760
    || (leb 8192 c && leb c 8202)
    || nat_beq c 8232
    || nat_beq c 8233
    || nat_beq c 8239
    || nat_beq c 8287
    || nat_beq c 12288

unfoldable pub lstrip : Text → Text
unfolding is_space
lstrip [] = []
lstrip (c ∷ t) = let rest = lstrip t in if is_space c then rest else c ∷ t

unfoldable pub rstrip : Text → Text
unfolding is_space
rstrip [] = []
rstrip (c ∷ t) =
    let rest = rstrip t in elim rest [ [] ↦ if is_space c then [] else c ∷ [] | d ∷ r ↦ c ∷ d ∷ r ]

unfoldable pub strip : Text → Text
unfolding lstrip rstrip
strip t = rstrip (lstrip t)

-- A piece goes before the first of the others.
abbrev pub onto_first : ℕ → List Text → List Text
onto_first c [] = (c ∷ []) ∷ []
onto_first c (piece ∷ pieces) = (c ∷ piece) ∷ pieces

-- Split at each code point that passes a test: `split(",")`, `splitlines()`.
unfoldable pub split_by : (ℕ → Bool) → Text → List Text
split_by at [] = [] ∷ []
split_by at (c ∷ t) =
    let pieces = split_by at t in if at c then [] ∷ pieces else onto_first c pieces

unfoldable pub starts_with : Text → Text → Bool
starts_with t [] = true
starts_with [] (p ∷ prefix) = false
starts_with (c ∷ t) (p ∷ prefix) = nat_beq c p && starts_with t prefix

-- `c in text`
unfoldable pub has_char : ℕ → Text → Bool
has_char c [] = false
has_char c (d ∷ t) = nat_beq d c || has_char c t

abbrev pub is_empty : Text → Bool
is_empty [] = true
is_empty (c ∷ t) = false
