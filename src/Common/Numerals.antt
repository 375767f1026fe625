-- ===== src/Common/Numerals.antt =====
-- A reader of decimal numbers, and that it reads what `decimal` prints.
use Prim.Native.Nat.{ℕ, zero, suc, ◌+◌, ◌-◌, ◌*◌, ◌/◌, ◌%◌, ◌<◌}
use Prim.Native.Char.{code}
use Prim.Native.String.{String, ◌++◌, [], ◌∷◌}
use mathlib.Core.Path.{◌≡◌, refl}
use mathlib.Core.Option.{Option, some}
use native.Mathlib.Omega.{arith}
use text.Mathlib.TextLemmas.{nil-append, cons-append}
use ai_modrator.Common.Int.{ℤ, pos}
use ai_modrator.Common.Text.{digit, digits_of, decimal}

unfoldable pub value : ℕ → String → ℕ
value acc [] = acc
value acc (c ∷ s) = value (acc * 10 + (code c - 48)) s

-- Agrees with Python's `int` on the digits of a number.
unfoldable pub read_digits : String → Option ℤ
read_digits s = some (pos (value 0 s))

value-append : (s t : String) (acc : ℕ) → value acc (s ++ t) ≡ value (value acc s) t
unfolding value
value-append [] t acc = rw (nil-append t) refl
value-append (c ∷ s) t acc = rw (cons-append c s t) (value-append s t (acc * 10 + (code c - 48)))

literal_values :
    (acc : ℕ)
    → (value acc "0" ≡ acc * 10 + 0)
      × (value acc "1" ≡ acc * 10 + 1)
      × (value acc "2" ≡ acc * 10 + 2)
      × (value acc "3" ≡ acc * 10 + 3)
      × (value acc "4" ≡ acc * 10 + 4)
      × (value acc "5" ≡ acc * 10 + 5)
      × (value acc "6" ≡ acc * 10 + 6)
      × (value acc "7" ≡ acc * 10 + 7)
      × (value acc "8" ≡ acc * 10 + 8)
      × (value acc "9" ≡ acc * 10 + 9)
unfolding value
literal_values acc = (refl, refl, refl, refl, refl, refl, refl, refl, refl, refl)

value-digit : (acc n : ℕ) → n < 10 → value acc (digit n) ≡ acc * 10 + n
unfolding digit
value-digit acc n h = ground (arith, literal_values acc)

value-digits_of : (f n : ℕ) → n < f → value 0 (digits_of f n) ≡ n
unfolding digits_of
value-digits_of zero n h = ground arith
value-digits_of (suc f) n h = ground (
  arith,
  value-digit 0 n,
  value-append (digits_of f (n / 10)) (digit (n % 10)) 0,
  value-digits_of f (n / 10),
  value-digit (n / 10) (n % 10),
)

pub read_digits-decimal : (n : ℕ) → read_digits (decimal (pos n)) ≡ some (pos n)
unfolding read_digits decimal
read_digits-decimal n = ground (arith, value-digits_of (suc n) n)
