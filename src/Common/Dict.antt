-- ===== src/Common/Dict.antt =====
-- Python's dictionaries with text keys, as association lists.
use mathlib.Core.Path.{◌≡◌, refl}
use mathlib.Core.List.{List, [], ◌∷◌}
use mathlib.Core.Option.{Option, none, some}
use native.Mathlib.Omega.{arith}
use text.Mathlib.Text.{◌==◌ as str_eq}
use text.Mathlib.TextEquality.{eq_iff}
use Prim.Native.String.{String}
use ai_modrator.Common.Tests.{if◌then◌else◌}

-- `Dict A` is Python's `dict[str, A]`; the first entry of a key counts.
abbrev pub Dict {ℓ} : Type ℓ → Type ℓ
Dict A = List (String × A)

module _ {ℓ} {A : Type ℓ} where
  unfoldable pub lookup : String → Dict A → Option A
  lookup k [] = none
  lookup k ((j, a) ∷ d) = if str_eq j k then some a else lookup k d

  -- `d[k] = a`.
  unfoldable pub insert : String → A → Dict A → Dict A
  insert k a [] = (k, a) ∷ []
  insert k a ((j, b) ∷ d) = if str_eq j k then (j, a) ∷ d else (j, b) ∷ insert k a d

  -- `d.pop(k, None)`.
  unfoldable pub remove : String → Dict A → Dict A
  remove k [] = []
  remove k ((j, a) ∷ d) = let rest = remove k d in if str_eq j k then rest else (j, a) ∷ rest

  pub lookup-insert :
      (k j : String) (a : A) (d : Dict A)
      → lookup j (insert k a d) ≡ (if str_eq k j then some a else lookup j d)
  unfolding lookup insert
  lookup-insert k j a [] = refl
  lookup-insert k j a ((i, b) ∷ d) =
      ground (arith, eq_iff i k, eq_iff i j, eq_iff k j, lookup-insert k j a d)

  pub lookup-remove :
      (k j : String) (d : Dict A)
      → lookup j (remove k d) ≡ (if str_eq k j then none else lookup j d)
  unfolding lookup remove
  lookup-remove k j [] = ground arith
  lookup-remove k j ((i, b) ∷ d) =
      ground (arith, eq_iff i k, eq_iff i j, eq_iff k j, lookup-remove k j d)
