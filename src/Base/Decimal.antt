-- ===== src/Base/Decimal.antt =====
-- Decimal numerals: `%d`, and `strconv.ParseInt(s, 10, bits)` and `strconv.Atoi` as the program uses
-- them, on signed numbers. `negsuc n` is -(n + 1).
use Prim.Native.Nat.{ℕ, zero, suc, ◌+◌, ◌-◌, ◌*◌, ◌/◌, ◌%◌, ◌^◌, ◌<◌}
use Prim.Native.Char.{code}
use Prim.Native.String.{String, ◌++◌ as ◌<>◌}
use mathlib.Core.Path.{◌≡◌, refl, sym, ap, ◌∙◌}
use mathlib.Core.Logic.{inl, inr}
use mathlib.Core.Bool.{Bool, true, false, ◌&&◌}
use mathlib.Core.Option.{Option, none, some, some-injective}
use native.Mathlib.Omega.{arith}
use text.Mathlib.TextLemmas.{nil-append, cons-append}
use rke.Base.Tests.{ltb, leb, ◌==◌, Bool-cases, if◌then◌else◌}

pub data ℤ : Type 0 where
  pos : ℕ → ℤ
  negsuc : ℕ → ℤ

abbrev pub is_negative : ℤ → Bool
is_negative (pos n) = false
is_negative (negsuc n) = true

digit : ℕ → String
digit zero = "0"
digit (suc zero) = "1"
digit (suc (suc zero)) = "2"
digit (suc (suc (suc zero))) = "3"
digit (suc (suc (suc (suc zero)))) = "4"
digit (suc (suc (suc (suc (suc zero))))) = "5"
digit (suc (suc (suc (suc (suc (suc zero)))))) = "6"
digit (suc (suc (suc (suc (suc (suc (suc zero))))))) = "7"
digit (suc (suc (suc (suc (suc (suc (suc (suc zero)))))))) = "8"
digit _ = "9"

-- The digits of `n`, the last one behind those of `n / 10`; more fuel than `n` is enough.
numeral : ℕ → ℕ → String
unfolding digit
numeral zero n = ""
numeral (suc fuel) n =
    let rest = numeral fuel (n / 10) in if ltb n 10 then digit n else rest <> digit (n % 10)

-- `%d` of a number that is not negative.
unfoldable pub decimal : ℕ → String
unfolding numeral
decimal n = numeral (suc n) n

digits_from : ℕ → String → Option ℕ
digits_from acc String.[] = some acc
digits_from acc (String.◌∷◌ c s) =
    let d = code c in
    let rest = digits_from (acc * 10 + (d - 48)) s in if leb 48 d && leb d 57 then rest else none

-- A numeral with at least one digit and no sign.
unfoldable pub parse_digits : String → Option ℕ
unfolding digits_from
parse_digits String.[] = none
parse_digits (String.◌∷◌ c s) = digits_from 0 (String.◌∷◌ c s)

-- The signed number, if it fits `bits` bits: `limit` is 2 ^ (bits - 1).
abbrev positive_below : ℕ → Option ℕ → Option ℤ
positive_below limit none = none
positive_below limit (some n) = if ltb n limit then some (pos n) else none

abbrev negated : ℕ → ℤ
negated zero = pos 0
negated (suc n) = negsuc n

abbrev negative_to : ℕ → Option ℕ → Option ℤ
negative_to limit none = none
negative_to limit (some n) = if leb n limit then some (negated n) else none

parse_signed : ℕ → String → Option ℤ
unfolding parse_digits
parse_signed limit String.[] = none
parse_signed limit (String.◌∷◌ c s) =
    if code c == b'-'
    then negative_to limit (parse_digits s)
    else if code c == b'+'
    then positive_below limit (parse_digits s)
    else positive_below limit (parse_digits (String.◌∷◌ c s))

-- strconv.ParseInt(s, 10, bits), where an error is `none`.
unfoldable pub parse_int : ℕ → String → Option ℤ
unfolding parse_signed
parse_int bits s = parse_signed (2 ^ (bits - 1)) s

positive_below-lt :
    (limit : ℕ) (o : Option ℕ) (n : ℕ) → positive_below limit o ≡ some (pos n) → n < limit
positive_below-lt limit none n h = cc
positive_below-lt limit (some m) n h = ground arith

negative_to-lt :
    (limit : ℕ) (o : Option ℕ) (n : ℕ) → 0 < limit → negative_to limit o ≡ some (pos n) → n < limit
negative_to-lt limit none n p h = cc
negative_to-lt limit (some zero) n p h = ground arith
negative_to-lt limit (some (suc m)) n p h = ground arith

parse_signed-lt :
    (limit : ℕ) (s : String) (n : ℕ) → 0 < limit → parse_signed limit s ≡ some (pos n) → n < limit
unfolding parse_signed
parse_signed-lt limit String.[] n p h = cc
parse_signed-lt limit (String.◌∷◌ c s) n p h = elim (Bool-cases (code c == b'-')) [
  | inl minus ↦ negative_to-lt limit (parse_digits s) n p (rw minus at h)
  | inr other ↦ elim (Bool-cases (code c == b'+')) [
    | inl plus ↦ positive_below-lt limit (parse_digits s) n (rw (other, plus) at h)
    | inr none_of ↦
        positive_below-lt limit (parse_digits (String.◌∷◌ c s)) n (rw (other, none_of) at h)
  ]
]

-- A number read at 32 bits that is not negative is below 2 ^ 31.
pub parse_int32-lt : (s : String) (n : ℕ) → parse_int 32 s ≡ some (pos n) → n < 2 ^ 31
unfolding parse_int
parse_int32-lt s n h = parse_signed-lt (2 ^ 31) s n (omega arith) h

digits_from-digit : (acc d : ℕ) → d < 10 → digits_from acc (digit d) ≡ some (acc * 10 + d)
unfolding digits_from digit
digits_from-digit acc zero h = refl
digits_from-digit acc (suc zero) h = refl
digits_from-digit acc (suc (suc zero)) h = refl
digits_from-digit acc (suc (suc (suc zero))) h = refl
digits_from-digit acc (suc (suc (suc (suc zero)))) h = refl
digits_from-digit acc (suc (suc (suc (suc (suc zero))))) h = refl
digits_from-digit acc (suc (suc (suc (suc (suc (suc zero)))))) h = refl
digits_from-digit acc (suc (suc (suc (suc (suc (suc (suc zero))))))) h = refl
digits_from-digit acc (suc (suc (suc (suc (suc (suc (suc (suc zero)))))))) h = refl
digits_from-digit acc (suc (suc (suc (suc (suc (suc (suc (suc (suc n))))))))) h =
    let e : n ≡ 0 = omega arith in rw e refl

digits_from-append :
    (acc d : ℕ) (s : String) (n : ℕ)
    → d < 10
    → digits_from acc s ≡ some n
    → digits_from acc (s <> digit d) ≡ some (n * 10 + d)
unfolding digits_from
digits_from-append acc d String.[] n lt h =
    rw nil-append
      (digits_from-digit acc d lt ∙ ap (λ m. some (m * 10 + d)) (some-injective acc n h))
digits_from-append acc d (String.◌∷◌ c s) n lt h =
    rw cons-append (ground (arith, digits_from-append (acc * 10 + (code c - 48)) d s n lt))

digits_from-numeral : (fuel n : ℕ) → n < fuel → digits_from 0 (numeral fuel n) ≡ some n
unfolding numeral
digits_from-numeral zero n h = elim h [ ]
digits_from-numeral (suc fuel) n h = elim (Bool-cases (ltb n 10)) [
  | inl small ↦ rw small (digits_from-digit 0 n (ground arith) ∙ ap some (omega arith))
  | inr large ↦ rw large (
      digits_from-append 0 (n % 10) (numeral fuel (n / 10)) (n / 10) (omega arith)
        (digits_from-numeral fuel (n / 10) (ground arith))
      ∙ ap some (omega arith))
]

-- Reading back the digits of a number gives the number.
digits_from-decimal : (n : ℕ) → digits_from 0 (decimal n) ≡ some n
unfolding decimal
digits_from-decimal n = digits_from-numeral (suc n) n (omega arith)

-- Different numbers have different numerals.
pub decimal-injective : (m n : ℕ) → decimal m ≡ decimal n → m ≡ n
decimal-injective m n h =
    some-injective m n
      (sym (digits_from-decimal m) ∙ (ap (digits_from 0) h ∙ digits_from-decimal n))
