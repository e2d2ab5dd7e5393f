-- ===== src/Machine/Laws.antt =====
-- What the theorems assume of the arithmetic, each where it is needed.
use indoor_navigation_system.Base.{◌≡◌, true, false}
use indoor_navigation_system.Machine.{Machine}

-- The comparisons that sort access points, at `float` values that are not NaN: `gt` is a strict
-- total preorder, and a `float` lies on one side of the `double` 0.1, which is no `float`.
pub record IsOrdered {F D : Type 0} (m : Machine F D) (IsNumber : F → Type 0) : Type 0 where
  pub gt_asymm : (a b : F) → m.gt a b ≡ true → m.gt b a ≡ false
  pub le_trans :
      (a b c : F)
      → IsNumber a
      → IsNumber b
      → IsNumber c
      → m.gt a b ≡ false
      → m.gt b c ≡ false
      → m.gt a c ≡ false
  pub tenth_one_side :
      (a : F)
      → IsNumber a
      → m.double_gt m.tenth (m.widen a) ≡ false
      → m.double_gt (m.widen a) m.tenth ≡ true
  pub tenth_asymm :
      (a : F) → m.double_gt (m.widen a) m.tenth ≡ true → m.double_gt m.tenth (m.widen a) ≡ false

-- What IEEE 754 says of values that are not numbers: no comparison with one holds, and the result of
-- an operation on one is one again.
pub record IsContagious {F D : Type 0} (m : Machine F D) (IsNan : F → Type 0) : Type 0 where
  pub not_above : (a b : F) → IsNan b → m.gt a b ≡ false
  pub not_below : (a b : F) → IsNan b → m.gt b a ≡ false
  pub not_far : (a : F) → IsNan a → m.double_gt (m.widen a) m.tenth ≡ false
  pub not_near : (a : F) → IsNan a → m.double_gt m.tenth (m.widen a) ≡ false
  pub add_left : (a b : F) → IsNan a → IsNan (m.◌⊕◌ a b)
  pub add_right : (a b : F) → IsNan b → IsNan (m.◌⊕◌ a b)
  pub sub_right : (a b : F) → IsNan b → IsNan (m.◌⊖◌ a b)
  pub mul_left : (a b : F) → IsNan a → IsNan (m.◌⊗◌ a b)
  pub div_left : (a b : F) → IsNan a → IsNan (m.◌⊘◌ a b)
