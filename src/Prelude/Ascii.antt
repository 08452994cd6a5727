-- ===== src/Prelude/Ascii.antt =====
-- String.prototype.trim and toLowerCase on ASCII texts; other characters are left as they are.
use Prim.Native.Nat.{ℕ, ◌+◌, ◌<◌, compare, Ordering}
use Prim.Native.Char.{Char, char, code, IsScalar}
use Prim.Native.String.{String, [], ◌∷◌}
use mathlib.Core.Path.{◌≡◌, refl}
use mathlib.Core.Logic.{dite}
use mathlib.Core.Bool.{Bool, ◌&&◌, ◌||◌}
use native.Mathlib.Decide.{dec_lt}
use native.Mathlib.Omega.{arith}
use text.Mathlib.Text.{◌==◌}
use lodestar_server.Prelude.Tests.{eqb, leb, if◌then◌else◌}

is_space : ℕ → Bool
is_space c = eqb c 32 || (leb 9 c && leb c 13)

trim_start : String → String
trim_start [] = []
trim_start (c ∷ s) = if is_space (code c) then trim_start s else c ∷ s

trim_end : String → String
trim_end [] = []
trim_end (c ∷ s) = let rest = trim_end s in if rest == "" && is_space (code c) then [] else c ∷ rest

unfoldable pub trim : String → String
unfolding trim_start trim_end is_space
trim s = trim_end (trim_start s)

IsScalar_of_small : (n : ℕ) → n < 256 → IsScalar n
IsScalar_of_small n h = let below : compare n 55296 ≡ Ordering.lt = ground arith in rw below tt

unfoldable pub lower : Char → Char
unfolding dec_lt IsScalar_of_small
lower c =
    dite (dec_lt (code c) 91)
      (λ h.
        dite (dec_lt 64 (code c))
          (λ _. char (code c + 32) (IsScalar_of_small (code c + 32) (omega arith))) (λ _. c))
      (λ _. c)

unfoldable pub to_lower_case : String → String
unfolding lower
to_lower_case [] = []
to_lower_case (c ∷ s) = lower c ∷ to_lower_case s

email_norm : to_lower_case (trim "  Bob@Example.COM ") ≡ "bob@example.com"
unfolding to_lower_case trim
email_norm = refl
