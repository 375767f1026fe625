-- ===== src/Common/Pairs.antt =====
-- Python's dictionaries whose keys are pairs of texts, as functions: the program only looks up and
-- writes single keys of them.
use Prim.Native.String.{String}
use mathlib.Core.Bool.{◌&&◌}
use mathlib.Core.Option.{Option, none, some}
use text.Mathlib.Text.{◌==◌ as str_eq}
use ai_modrator.Common.Tests.{if◌then◌else◌}

abbrev pub PairDict {ℓ} : Type ℓ → Type ℓ
PairDict A = String → String → Option A

abbrev pub no_pairs {ℓ} : {A : Type ℓ} → PairDict A
no_pairs a b = none

-- `d[(a, b)] = x`.
abbrev pub put_pair {ℓ} : {A : Type ℓ} → String → String → A → PairDict A → PairDict A
put_pair a b x d i j = if str_eq a i && str_eq b j then some x else d i j
