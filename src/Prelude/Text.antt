-- ===== src/Prelude/Text.antt =====
-- Whole texts: equality, emptiness, concatenation, and `{}` of a number.
use Prim.Native.Nat.{ℕ, zero, suc, ◌+◌, ◌/◌, ◌%◌}
use Prim.Native.String.{String, ◌++◌ as str_append}
use Prim.Native.Char.{code}
use mathlib.Core.List.{List, [], ◌∷◌}
use mathlib.Core.Bool.{Bool, true, false, ◌&&◌, ◌||◌}
use swarm_intelligence_engin.Prelude.Tests.{ltb, leb, ◌==◌, if◌then◌else◌}
use swarm_intelligence_engin.Prelude.Lists.{All}
use mathlib.Core.Path.{◌≡◌}
use swarm_intelligence_engin.Prelude.Int.{ℤ, pos, negsuc}
pub use text.Mathlib.Text.{◌==◌ as str_eq}
pub use text.Mathlib.TextEquality.{eq_iff}
pub use text.Mathlib.TextPositions.{eq_refl}

abbrev pub append : String → String → String
append s t = str_append s t

-- The code points of a text.
abbrev pub codes : String → List ℕ
codes String.[] = []
codes (String.◌∷◌ c s) = code c ∷ codes s

-- `str::is_empty`.
abbrev pub str_is_empty : String → Bool
str_is_empty String.[] = true
str_is_empty (String.◌∷◌ _ _) = false

abbrev digit : ℕ → String
digit n =
    if n == 0
    then "0"
    else if n == 1
    then "1"
    else if n == 2
    then "2"
    else if n == 3
    then "3"
    else if n == 4
    then "4"
    else if n == 5
    then "5"
    else if n == 6
    then "6"
    else if n == 7
    then "7"
    else if n == 8
    then "8"
    else "9"

-- The decimal digits of `n`, on fuel for their number: `n` itself is enough.
decimal : ℕ → ℕ → String
decimal zero n = digit n
decimal (suc f) n =
    let more = append (decimal f (n / 10)) (digit (n % 10)) in if ltb n 10 then digit n else more

-- `{}` of an `i32`.
unfoldable pub display_i32 : ℤ → String
unfolding decimal
display_i32 (pos n) = decimal n n
display_i32 (negsuc n) = append "-" (decimal (suc n) (suc n))

-- No text occurs twice in the list.
abbrev pub IsUnique : List String → Type 0
IsUnique [] = Unit
IsUnique (i ∷ rest) = All (λ j. str_eq j i ≡ false) rest × IsUnique rest

-- `char::is_whitespace`: White_Space of Unicode.
abbrev is_whitespace : ℕ → Bool
is_whitespace c =
    (leb 9 c && leb c 13)
    || (c == 32
        || (c == 133
            || (c == 160
                || (c == 5760
                    || ((leb 8192 c && leb c 8202)
                        || (c == 8232
                            || (c == 8233 || (c == 8239 || (c == 8287 || c == 12288)))))))))

-- `trim().is_empty()`.
unfoldable pub is_blank : String → Bool
is_blank String.[] = true
is_blank (String.◌∷◌ c s) = is_whitespace (code c) && is_blank s

-- The bytes of the UTF-8 form of a code point.
abbrev utf8_width : ℕ → ℕ
utf8_width c = if ltb c 128 then 1 else if ltb c 2048 then 2 else if ltb c 65536 then 3 else 4

-- `str::len`: the bytes of the UTF-8 form.
unfoldable pub byte_length : String → ℕ
byte_length String.[] = 0
byte_length (String.◌∷◌ c s) = utf8_width (code c) + byte_length s
