-- ===== src/Prelude/Keys.antt =====
-- Text as the list of its code points, with its equality test.
use Prim.Native.Nat.{ℕ}
use Prim.Native.Char.{code}
use Prim.Native.String.{String}
use mathlib.Core.Path.{◌≡◌, refl}
use mathlib.Core.Logic.{◌↔◌}
use mathlib.Core.Bool.{Bool, true, false, ◌&&◌}
use mathlib.Core.List.{List, [], ◌∷◌}
use native.Mathlib.Omega.{arith}
use django_smart_ratelimit.Prelude.Tests.{Key, nat_beq}

abbrev pub Text : Type 0
Text = List ℕ

abbrev pub codes : String → Text
codes String.[] = []
codes (String.◌∷◌ c s) = code c ∷ codes s

abbrev pub text_beq : Text → Text → Bool
text_beq [] [] = true
text_beq (x ∷ xs) (y ∷ ys) = nat_beq x y && text_beq xs ys
text_beq _ _ = false

text_beq-eq : (s t : Text) → text_beq s t ≡ true → s ≡ t
text_beq-eq [] [] h = refl
text_beq-eq (x ∷ xs) (y ∷ ys) h = ground (arith, text_beq-eq xs ys)
text_beq-eq _ _ h = ground arith

text_beq_refl : (s t : Text) → s ≡ t → text_beq s t ≡ true
text_beq_refl [] [] h = refl
text_beq_refl (x ∷ xs) (y ∷ ys) h = ground (arith, text_beq_refl xs ys)
text_beq_refl _ _ h = ground arith

pub text_beq_iff : (s t : Text) → (text_beq s t ≡ true) ↔ (s ≡ t)
text_beq_iff s t = (text_beq-eq s t, text_beq_refl s t)

instance abbrev pub text_key : Key Text
text_key = record { same = text_beq; same_iff = text_beq_iff }

pub text_pair_beq_iff :
    (p q : Text × Text) → ((text_beq p.0 q.0 && text_beq p.1 q.1) ≡ true) ↔ (p ≡ q)
text_pair_beq_iff (a, b) (c, d) = ground (arith, text_beq_iff a c, text_beq_iff b d)

instance abbrev pub text_pair_key : Key (Text × Text)
text_pair_key = record {
  same = λ (p q : Text × Text). text_beq p.0 q.0 && text_beq p.1 q.1;
  same_iff = text_pair_beq_iff;
}
