-- ===== src/Base/Strings.antt =====
-- Go strings: sequences of bytes, ordered byte by byte.
use Prim.Native.Nat.{ℕ}
use Prim.Native.Char.{code}
use Prim.Native.String.{String}
use mathlib.Core.Path.{◌≡◌, refl}
use mathlib.Core.Bool.{Bool, true, false}
use mathlib.Core.List.{List, [], ◌∷◌}
use native.Mathlib.Omega.{arith}
use native.Mathlib.Decide.{ℕ_discrete}
use godj.Base.Tests.{Eq, if◌then◌else◌, ltb}

abbrev pub GoString : Type 0
GoString = List ℕ

-- The bytes of an ASCII literal.
abbrev pub bytes : String → GoString
bytes String.[] = []
bytes (String.◌∷◌ c s) = code c ∷ bytes s

unfoldable pub GoString-discrete : Discrete GoString
unfolding ℕ_discrete
GoString-discrete = hlevel ℕ_discrete

instance abbrev pub string_eq : Eq GoString
string_eq = record { dec = GoString-discrete }

-- `left < right`
unfoldable pub string_less : GoString → GoString → Bool
string_less left [] = false
string_less [] (y ∷ right) = true
string_less (x ∷ left) (y ∷ right) =
    let rest = string_less left right in if ltb x y then true else if ltb y x then false else rest

pub string_less_irrefl : (s : GoString) → string_less s s ≡ false
unfolding string_less
string_less_irrefl [] = refl
string_less_irrefl (x ∷ s) = ground (arith, string_less_irrefl s)

pub string_less_trans :
    (a b c : GoString) → string_less a b ≡ true → string_less b c ≡ true → string_less a c ≡ true
unfolding string_less
string_less_trans [] [] c h k = ground arith
string_less_trans (x ∷ a) [] c h k = ground arith
string_less_trans [] (y ∷ b) [] h k = ground arith
string_less_trans [] (y ∷ b) (z ∷ c) h k = refl
string_less_trans (x ∷ a) (y ∷ b) [] h k = ground arith
string_less_trans (x ∷ a) (y ∷ b) (z ∷ c) h k = ground (arith, string_less_trans a b c)

-- Two strings neither of which is less are equal.
pub string_less_total : (a b : GoString) → string_less a b ≡ false → string_less b a ≡ false → a ≡ b
unfolding string_less
string_less_total [] [] h k = refl
string_less_total [] (y ∷ b) h k = ground arith
string_less_total (x ∷ a) [] h k = ground arith
string_less_total (x ∷ a) (y ∷ b) h k = ground (arith, string_less_total a b)
