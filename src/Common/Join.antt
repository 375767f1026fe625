-- ===== src/Common/Join.antt =====
-- A joined text is not empty, so Python's `or` keeps it.
use Prim.Native.Char.{Char}
use Prim.Native.String.{String, ◌++◌, ◌∷◌, []}
use mathlib.Core.Path.{◌≡◌, refl}
use mathlib.Core.Logic.{inl, inr}
use mathlib.Core.Bool.{false}
use mathlib.Core.Option.{some}
use native.Mathlib.Omega.{arith}
use text.Mathlib.Text.{◌==◌ as str_eq}
use text.Mathlib.TextEquality.{eq_iff}
use text.Mathlib.TextLemmas.{nil-append, cons-append, cons-ne-nil}
use ai_modrator.Common.Tests.{Bool-cases}
use ai_modrator.Common.Text.{◌⊕◌, or_text}

cons-str_eq : (c : Char) (s : String) → str_eq (c ∷ s) "" ≡ false
cons-str_eq c s = elim (Bool-cases (str_eq (c ∷ s) "")) [
  | inl e ↦ elim (cons-ne-nil c s (ground (arith, e, eq_iff (c ∷ s) ""))) [ ]
  | inr e ↦ e
]

join-str_eq : (s t : String) → str_eq (s ⊕ t) "" ≡ false
unfolding ◌⊕◌
join-str_eq [] t = rw (nil-append (":" ++ t), cons-append ":" "" t) (cons-str_eq ":" ("" ++ t))
join-str_eq (c ∷ s) t = rw (cons-append c s (":" ++ t)) (cons-str_eq c (s ++ (":" ++ t)))

pub or_text-join : (s t d : String) → or_text (some (s ⊕ t)) d ≡ s ⊕ t
or_text-join s t d = rw (join-str_eq s t) refl
