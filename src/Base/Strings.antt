-- ===== src/Base/Strings.antt =====
-- Texts as lists of code points, and the functions of string.h that the sources call.
use Prim.Native.Nat.{◌*◌, ◌-◌, ◌<◌, ◌≤◌, ℕ, zero, suc, ◌+◌, ◌/◌, ◌%◌}
use mathlib.Core.Logic.{◌≢◌, ◌↔◌, inl, inr}
use Prim.Native.Char.{code}
use Prim.Native.String.{String}
use mathlib.Core.Path.{◌≡◌, refl, subst, ◌∙◌}
use mathlib.Core.Bool.{Bool, true, false, ◌&&◌}
use mathlib.Core.Option.{Option, none, some}
use mathlib.Core.List.{List, [], ◌∷◌, ◌++◌}
use native.Mathlib.Omega.{arith}
use indoor_navigation_system.Base.Lists.{All}
use indoor_navigation_system.Base.Int.{ℤ, pos, negsuc}
use indoor_navigation_system.Base.Tests.{Bool-cases, ◌==◌, ltb, if◌then◌else◌}

abbrev pub Text : Type 0
Text = List ℕ

-- The code points of a literal.
abbrev pub codes : String → Text
codes String.[] = []
codes (String.◌∷◌ c s) = code c ∷ codes s

-- `!strcmp(a, b)`
unfoldable pub text_eq : Text → Text → Bool
text_eq [] [] = true
text_eq [] (_ ∷ _) = false
text_eq (_ ∷ _) [] = false
text_eq (a ∷ as') (b ∷ bs) = a == b && text_eq as' bs

pub text_eq_refl : (a : Text) → text_eq a a ≡ true
unfolding text_eq
text_eq_refl [] = refl
text_eq_refl (a ∷ as') = ground (arith, text_eq_refl as')

pub eq_of_text_eq : (a b : Text) → text_eq a b ≡ true → a ≡ b
unfolding text_eq
eq_of_text_eq [] [] h = refl
eq_of_text_eq [] (_ ∷ _) h = cc
eq_of_text_eq (_ ∷ _) [] h = cc
eq_of_text_eq (a ∷ as') (b ∷ bs) h = ground (arith, eq_of_text_eq as' bs)

pub text_eq_iff : (a b : Text) → (text_eq a b ≡ true) ↔ (a ≡ b)
text_eq_iff a b = (eq_of_text_eq a b, λ e. subst (λ t. text_eq a t ≡ true) e (text_eq_refl a))

-- `!strncmp(text, prefix, strlen(prefix))`
unfoldable pub starts_with : Text → Text → Bool
starts_with _ [] = true
starts_with [] (_ ∷ _) = false
starts_with (t ∷ ts) (p ∷ ps) = p == t && starts_with ts ps

-- `strstr(text, needle)`: the rest of the text from the first occurrence on.
unfoldable pub strstr : Text → Text → Option Text
unfolding starts_with
strstr [] needle = if starts_with [] needle then some [] else none
strstr (t ∷ ts) needle = if starts_with (t ∷ ts) needle then some (t ∷ ts) else strstr ts needle

decimal_digits : ℕ → ℕ → Text
decimal_digits zero n = []
decimal_digits (suc fuel) n =
    let rest = decimal_digits fuel (n / 10) in
    if ltb n 10 then (b'0' + n) ∷ [] else rest ++ ((b'0' + n % 10) ∷ [])

-- `%d` of a number that is not negative. `n + 1` rounds are enough: a quotient falls.
unfoldable pub decimal : ℕ → Text
unfolding decimal_digits
decimal n = decimal_digits (suc n) n

-- A text of a number is not empty and consists of digits.
abbrev pub IsNumeral : Text → Type 0
IsNumeral t = (t ≢ []) × All (λ c. b'0' ≤ c) t

IsNumeral-of_digit : (c : ℕ) → b'0' ≤ c → IsNumeral (c ∷ [])
IsNumeral-of_digit c h = (λ e. cc, (h, tt))

IsNumeral-snoc : (t : Text) (c : ℕ) → IsNumeral t → b'0' ≤ c → IsNumeral (t ++ (c ∷ []))
IsNumeral-snoc [] c n h = IsNumeral-of_digit c h
IsNumeral-snoc (d ∷ []) c n h = (λ e. cc, (n.1.0, (h, tt)))
IsNumeral-snoc (d ∷ e ∷ t) c n h =
    (λ e. cc, (n.1.0, (IsNumeral-snoc (e ∷ t) c (λ e. cc, n.1.1) h).1))

decimal_digits-IsNumeral : (fuel n : ℕ) → IsNumeral (decimal_digits (suc fuel) n)
unfolding decimal_digits
decimal_digits-IsNumeral zero n = elim (Bool-cases (ltb n 10)) [
  | inl less ↦ rw less (IsNumeral-of_digit (b'0' + n) (omega arith))
  | inr more ↦ rw more (IsNumeral-of_digit (b'0' + n % 10) (omega arith))
]
decimal_digits-IsNumeral (suc fuel) n = elim (Bool-cases (ltb n 10)) [
  | inl less ↦ rw less (IsNumeral-of_digit (b'0' + n) (omega arith))
  | inr more ↦ rw more (
      IsNumeral-snoc (decimal_digits (suc fuel) (n / 10)) (b'0' + n % 10)
        (decimal_digits-IsNumeral fuel (n / 10)) (omega arith))
]

pub decimal-IsNumeral : (n : ℕ) → IsNumeral (decimal n)
unfolding decimal
decimal-IsNumeral n = decimal_digits-IsNumeral n n

-- The number that digits stand for, behind a number read before.
abbrev pub value : ℕ → Text → ℕ
value n [] = n
value n (c ∷ t) = value (10 * n + (c - b'0')) t

value-snoc : (n : ℕ) (t : Text) (c : ℕ) → value n (t ++ (c ∷ [])) ≡ 10 * value n t + (c - b'0')
value-snoc n [] c = refl
value-snoc n (d ∷ t) c = value-snoc (10 * n + (d - b'0')) t c

value-decimal_digits : (fuel n : ℕ) → n < fuel → value 0 (decimal_digits fuel n) ≡ n
unfolding decimal_digits
value-decimal_digits zero n h = elim h [ ]
value-decimal_digits (suc fuel) n h = elim (Bool-cases (ltb n 10)) [
  | inl less ↦ rw less (omega arith)
  | inr more ↦ rw more (
      value-snoc 0 (decimal_digits fuel (n / 10)) (b'0' + n % 10)
      ∙ omega (arith, value-decimal_digits fuel (n / 10) (ground arith)))
]

pub value-decimal : (n : ℕ) → value 0 (decimal n) ≡ n
unfolding decimal
value-decimal n = value-decimal_digits (suc n) n (omega arith)

pub text_eq_comm : (a b : Text) → text_eq a b ≡ text_eq b a
unfolding text_eq
text_eq_comm [] [] = refl
text_eq_comm [] (_ ∷ _) = refl
text_eq_comm (_ ∷ _) [] = refl
text_eq_comm (a ∷ as') (b ∷ bs) = ground (arith, text_eq_comm as' bs)

-- `%d` of a signed number.
unfoldable pub print_ℤ : ℤ → Text
unfolding decimal
print_ℤ (pos n) = decimal n
print_ℤ (negsuc n) = b'-' ∷ decimal (suc n)

-- Texts with a separator between them.
unfoldable pub join : Text → List Text → Text
join separator [] = []
join separator (t ∷ []) = t
join separator (t ∷ u ∷ ts) = t ++ (separator ++ join separator (u ∷ ts))
