-- ===== src/Common/Search.antt =====
-- Python's searches for one text in another.
use Prim.Native.Char.{code}
use Prim.Native.String.{String, ◌∷◌ as cons, [] as nil}
use mathlib.Core.Bool.{Bool, true, false, ◌||◌}
use ai_modrator.Common.Tests.{◌==◌, if◌then◌else◌}

-- Python's `text.startswith(part)`.
unfoldable pub starts_with : String → String → Bool
starts_with nil text = true
starts_with (cons c part) nil = false
starts_with (cons c part) (cons d text) =
    let rest = starts_with part text in if code c == code d then rest else false

-- Python's `part in text`.
unfoldable pub contains : String → String → Bool
contains part nil = starts_with part nil
contains part (cons d text) =
    let rest = contains part text in starts_with part (cons d text) || rest
