-- ===== src/Common/Strip.antt =====
-- Python's `str.strip`: the characters of `str.isspace` are taken off both ends.
use Prim.Native.Nat.{ℕ}
use Prim.Native.Char.{Char, code}
use Prim.Native.String.{String, [], ◌∷◌}
use mathlib.Core.Path.{◌≡◌, refl}
use mathlib.Core.Logic.{inl, inr}
use mathlib.Core.Bool.{Bool, false, ◌&&◌, ◌||◌}
use ai_modrator.Common.Tests.{leb, ◌==◌, if◌then◌else◌, Bool-cases}

within : ℕ → ℕ → ℕ → Bool
within lo hi n = leb lo n && leb n hi

unfoldable pub is_space : Char → Bool
unfolding within
is_space c =
    let n = code c in
    within 9 13 n
    || within 28 32 n
    || n == 133
    || n == 160
    || n == 5760
    || within 8192 8202 n
    || within 8232 8233 n
    || n == 8239
    || n == 8287
    || n == 12288

unfoldable pub lstrip : String → String
lstrip [] = []
lstrip (c ∷ s) = let rest = lstrip s in if is_space c then rest else c ∷ s

-- `is_blank c s` tells whether `c ∷ s` would leave nothing: `s` has been stripped already.
unfoldable pub keep : Char → String → String
keep c [] = if is_space c then [] else c ∷ []
keep c (d ∷ s) = c ∷ d ∷ s

unfoldable pub rstrip : String → String
unfolding keep
rstrip [] = []
rstrip (c ∷ s) = keep c (rstrip s)

unfoldable pub strip : String → String
unfolding lstrip rstrip is_space
strip s = rstrip (lstrip s)

keep_idem : (c : Char) (s : String) → rstrip s ≡ s → rstrip (keep c s) ≡ keep c s
unfolding rstrip keep
keep_idem c [] h = elim (Bool-cases (is_space c)) [
  | inl e ↦ rw (e, keep)
  | inr e ↦ rw (e, keep) (rw (e, keep))
]
keep_idem c (d ∷ s) h = rw h

rstrip_idem : (s : String) → rstrip (rstrip s) ≡ rstrip s
unfolding rstrip
rstrip_idem [] = refl
rstrip_idem (c ∷ s) = keep_idem c (rstrip s) (rstrip_idem s)

lstrip-keep : (c : Char) (s : String) → is_space c ≡ false → lstrip (keep c s) ≡ keep c s
unfolding lstrip keep
lstrip-keep c [] e = rw (e, keep) (rw (e, lstrip))
lstrip-keep c (d ∷ s) e = rw (e, lstrip)

lstrip-strip : (s : String) → lstrip (rstrip (lstrip s)) ≡ rstrip (lstrip s)
unfolding lstrip rstrip
lstrip-strip [] = refl
lstrip-strip (c ∷ s) = elim (Bool-cases (is_space c)) [
  | inl e ↦ rw (e, lstrip) (lstrip-strip s)
  | inr e ↦ rw (e, lstrip) (lstrip-keep c (rstrip s) e)
]

pub strip_idem : (s : String) → strip (strip s) ≡ strip s
unfolding strip
strip_idem s = rw lstrip-strip (rstrip_idem (lstrip s))
