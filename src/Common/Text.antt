-- ===== src/Common/Text.antt =====
-- What the program's f-strings print: texts put together, and whole numbers in decimal.
use Prim.Native.Nat.{ℕ, zero, suc, ◌+◌, ◌/◌, ◌%◌}
use Prim.Native.String.{String, ◌++◌}
use mathlib.Core.Option.{Option, none, some}
use text.Mathlib.Text.{◌==◌ as str_eq}
use ai_modrator.Common.Tests.{ltb, ◌==◌, if◌then◌else◌}
use ai_modrator.Common.Int.{ℤ, pos, negsuc}

unfoldable pub digit : ℕ → String
digit n =
    if n == 0
    then "0"
    else if n == 1
    then "1"
    else if n == 2
    then "2"
    else if n == 3
    then "3"
    else if n == 4
    then "4"
    else if n == 5
    then "5"
    else if n == 6
    then "6"
    else if n == 7
    then "7"
    else if n == 8
    then "8"
    else "9"

-- The number of digits is at most the number itself, so `suc n` rounds print all of `n`.
unfoldable pub digits_of : ℕ → ℕ → String
digits_of zero n = ""
digits_of (suc f) n =
    let rest = digits_of f (n / 10) in if ltb n 10 then digit n else rest ++ digit (n % 10)

-- `str(n)` of Python.
unfoldable pub decimal : ℤ → String
unfolding digit digits_of
decimal (pos n) = digits_of (suc n) n
decimal (negsuc n) = "-" ++ digits_of (suc (n + 1)) (n + 1)

-- An f-string is the concatenation of its parts, with a colon between them.
infixr 60 ◌⊕◌
unfoldable pub ◌⊕◌ : String → String → String
s ⊕ t = s ++ (":" ++ t)

-- Python's `key or default` on an optional text: both `None` and the empty text are falsy.
abbrev pub or_text : Option String → String → String
or_text none d = d
or_text (some s) d = if str_eq s "" then d else s
