-- ===== src/Common/Split.antt =====
-- Python's `str.split()` and the size of `set(text)` and `set(words)`.
use Prim.Native.Nat.{ℕ, ◌+◌}
use Prim.Native.Char.{Char, code}
use Prim.Native.String.{String, ◌∷◌ as cons, [] as nil}
use mathlib.Core.Bool.{Bool, false, ◌||◌}
use mathlib.Core.List.{List, [], ◌∷◌}
use text.Mathlib.Text.{◌==◌ as str_eq}
use ai_modrator.Common.Tests.{◌==◌, if◌then◌else◌}
use ai_modrator.Common.Strip.{is_space}

-- The first word, which begins before `c`, gets `c` in front.
unfoldable pub add_to_first : Char → List String → List String
add_to_first c [] = cons c nil ∷ []
add_to_first c (w ∷ ws) = cons c w ∷ ws

-- `c` is no space and stands before `text`, whose words are `ws`.
unfoldable pub add_char : Char → String → List String → List String
add_char c nil ws = cons c nil ∷ ws
add_char c (cons d text) ws = if is_space d then cons c nil ∷ ws else add_to_first c ws

unfoldable pub split : String → List String
split nil = []
split (cons c text) = let ws = split text in if is_space c then ws else add_char c text ws

unfoldable pub has_char : Char → String → Bool
has_char c nil = false
has_char c (cons d text) = code c == code d || has_char c text

unfoldable pub distinct_chars : String → ℕ
distinct_chars nil = 0
distinct_chars (cons c text) =
    let rest = distinct_chars text in if has_char c text then rest else rest + 1

unfoldable pub has_word : String → List String → Bool
has_word w [] = false
has_word w (v ∷ vs) = str_eq w v || has_word w vs

unfoldable pub distinct_words : List String → ℕ
distinct_words [] = 0
distinct_words (w ∷ ws) = let rest = distinct_words ws in if has_word w ws then rest else rest + 1
