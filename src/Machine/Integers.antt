-- ===== src/Machine/Integers.antt =====
-- An arithmetic that meets the laws, to run the model of server/src/WifiNode.c in the tests: `float`
-- is the integers, `double` the integers in tenths.
use indoor_navigation_system.Base.{ℤ, pos, ◌+ℤ◌, ◌-ℤ◌, ◌*ℤ◌, ◌/ℤ◌, gt_ℤ, arith, decimal, pos_part}
use indoor_navigation_system.Machine.{Machine}
use indoor_navigation_system.Machine.Laws.{IsOrdered}

abbrev tenths : ℤ → ℤ
tenths a = a *ℤ pos 10

abbrev pub integers : Machine ℤ ℤ
integers = record {
  int_to_float = λ a. a;
  ◌⊕◌ = ◌+ℤ◌;
  ◌⊖◌ = ◌-ℤ◌;
  ◌⊗◌ = ◌*ℤ◌;
  ◌⊘◌ = ◌/ℤ◌;
  gt = gt_ℤ;
  powf = λ a b. a;
  widen = tenths;
  narrow = λ a. a /ℤ pos 10;
  int_to_double = tenths;
  tenth = pos 1;
  double_gt = gt_ℤ;
  double_mul = λ a b. (a *ℤ b) /ℤ pos 10;
  log10 = λ a. pos 10;
  round = λ a. (a /ℤ pos 10) *ℤ pos 10;
  strtof = λ t. pos 0;
  to_string = λ a. decimal (pos_part a);
}

pub integers-IsOrdered : IsOrdered integers (λ a. Unit {0})
unfolding ◌*ℤ◌
integers-IsOrdered = record {
  gt_asymm = λ a b h. ground arith;
  le_trans = λ a b c _ _ _ h k. ground arith;
  tenth_one_side = λ a _ h. ground arith;
  tenth_asymm = λ a h. ground arith;
}
