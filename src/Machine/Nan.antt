-- ===== src/Machine/Nan.antt =====
-- The arithmetic of Machine.Integers with a value that is not a number, which every operation passes
-- on and every comparison refuses.
use indoor_navigation_system.Base.{
  refl, zero, suc, negsuc, pos, true, ℤ, Text, Bool, false, Option, none, some, ◌≡◌, [],
}
use mathlib.Core.Option
use indoor_navigation_system.Machine.{Machine}
use indoor_navigation_system.Machine.Laws.{IsOrdered, IsContagious}
use indoor_navigation_system.Machine.Integers.{integers, integers-IsOrdered}

abbrev both : (ℤ → ℤ → ℤ) → Option ℤ → Option ℤ → Option ℤ
both f (some a) (some b) = some (f a b)
both f _ _ = none

-- A quotient by 0 is not a number.
abbrev quotient : Option ℤ → Option ℤ → Option ℤ
quotient a (some (pos zero)) = none
quotient a b = both integers.◌⊘◌ a b

abbrev holds : (ℤ → ℤ → Bool) → Option ℤ → Option ℤ → Bool
holds f (some a) (some b) = f a b
holds f _ _ = false

abbrev printed : Option ℤ → Text
printed none = []
printed (some a) = integers.to_string a

abbrev pub with_nan : Machine (Option ℤ) (Option ℤ)
with_nan = record {
  int_to_float = some;
  ◌⊕◌ = both integers.◌⊕◌;
  ◌⊖◌ = both integers.◌⊖◌;
  ◌⊗◌ = both integers.◌⊗◌;
  ◌⊘◌ = quotient;
  gt = holds integers.gt;
  powf = both integers.powf;
  widen = Option.map integers.widen;
  narrow = Option.map integers.narrow;
  int_to_double = λ a. some (integers.int_to_double a);
  tenth = some integers.tenth;
  double_gt = holds integers.double_gt;
  double_mul = both integers.double_mul;
  log10 = Option.map integers.log10;
  round = Option.map integers.round;
  strtof = λ t. some (integers.strtof t);
  to_string = printed;
}

abbrev pub IsNumber : Option ℤ → Type 0
IsNumber none = ⊥
IsNumber (some a) = Unit

gt_asymm : (a b : Option ℤ) → with_nan.gt a b ≡ true → with_nan.gt b a ≡ false
gt_asymm (some a) (some b) h = integers-IsOrdered.gt_asymm a b h
gt_asymm none b h = cc
gt_asymm (some a) none h = cc

le_trans :
    (a b c : Option ℤ)
    → IsNumber a
    → IsNumber b
    → IsNumber c
    → with_nan.gt a b ≡ false
    → with_nan.gt b c ≡ false
    → with_nan.gt a c ≡ false
le_trans (some a) (some b) (some c) na nb nc h k = integers-IsOrdered.le_trans a b c tt tt tt h k
le_trans none b c na nb nc h k = elim na [ ]
le_trans (some a) none c na nb nc h k = elim nb [ ]
le_trans (some a) (some b) none na nb nc h k = elim nc [ ]

tenth_one_side :
    (a : Option ℤ)
    → IsNumber a
    → with_nan.double_gt with_nan.tenth (with_nan.widen a) ≡ false
    → with_nan.double_gt (with_nan.widen a) with_nan.tenth ≡ true
tenth_one_side (some a) n h = integers-IsOrdered.tenth_one_side a tt h
tenth_one_side none n h = elim n [ ]

tenth_asymm :
    (a : Option ℤ)
    → with_nan.double_gt (with_nan.widen a) with_nan.tenth ≡ true
    → with_nan.double_gt with_nan.tenth (with_nan.widen a) ≡ false
tenth_asymm (some a) h = integers-IsOrdered.tenth_asymm a h
tenth_asymm none h = cc

pub with_nan-IsOrdered : IsOrdered with_nan IsNumber
with_nan-IsOrdered = record {
  gt_asymm = gt_asymm;
  le_trans = le_trans;
  tenth_one_side = tenth_one_side;
  tenth_asymm = tenth_asymm;
}

abbrev pub IsNone : Option ℤ → Type 0
IsNone none = Unit
IsNone (some a) = ⊥

both-none : (f : ℤ → ℤ → ℤ) (a b : Option ℤ) → IsNone b → IsNone (both f a b)
both-none f none none h = tt
both-none f (some a) none h = tt
both-none f a (some b) h = elim h [ ]

none-both : (f : ℤ → ℤ → ℤ) (a b : Option ℤ) → IsNone a → IsNone (both f a b)
none-both f none b h = tt
none-both f (some a) b h = elim h [ ]

not_above : (a b : Option ℤ) → IsNone b → with_nan.gt a b ≡ false
not_above none none h = refl
not_above (some a) none h = refl
not_above a (some b) h = elim h [ ]

not_below : (a b : Option ℤ) → IsNone b → with_nan.gt b a ≡ false
not_below a none h = refl
not_below a (some b) h = elim h [ ]

not_far : (a : Option ℤ) → IsNone a → with_nan.double_gt (with_nan.widen a) with_nan.tenth ≡ false
not_far none h = refl
not_far (some a) h = elim h [ ]

not_near : (a : Option ℤ) → IsNone a → with_nan.double_gt with_nan.tenth (with_nan.widen a) ≡ false
not_near none h = refl
not_near (some a) h = elim h [ ]

none-quotient : (a b : Option ℤ) → IsNone a → IsNone (quotient a b)
none-quotient none none h = tt
none-quotient none (some (pos zero)) h = tt
none-quotient none (some (pos (suc b))) h = tt
none-quotient none (some (negsuc b)) h = tt
none-quotient (some a) b h = elim h [ ]

pub with_nan-IsContagious : IsContagious with_nan IsNone
with_nan-IsContagious = record {
  not_above = not_above;
  not_below = not_below;
  not_far = not_far;
  not_near = not_near;
  add_left = none-both integers.◌⊕◌;
  add_right = both-none integers.◌⊕◌;
  sub_right = both-none integers.◌⊖◌;
  mul_left = none-both integers.◌⊗◌;
  div_left = none-quotient;
}
