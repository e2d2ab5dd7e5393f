-- ===== src/Machine.antt =====
-- The `float` and `double` arithmetic of the C code (server/src/WifiNode.c and its callers): a
-- parameter, since it is the compiler's and libm's. `F` is `float` and `D` is `double`.
pub mod Laws
pub mod Integers
pub mod Nan
use indoor_navigation_system.Base.{Bool, ℤ, Text}

pub record Machine (F D : Type 0) : Type 0 where
  -- `float` values of integer constants and of `int32_t`, and `float` arithmetic
  pub int_to_float : ℤ → F
  pub ◌⊕◌ : F → F → F
  pub ◌⊖◌ : F → F → F
  pub ◌⊗◌ : F → F → F
  pub ◌⊘◌ : F → F → F
  -- `a > b` on `float`
  pub gt : F → F → Bool
  pub powf : F → F → F
  -- conversions between the two, and `double` arithmetic
  pub widen : F → D
  pub narrow : D → F
  pub int_to_double : ℤ → D
  -- the constant 0.1
  pub tenth : D
  pub double_gt : D → D → Bool
  pub double_mul : D → D → D
  pub log10 : D → D
  pub round : D → D
  -- `strtof` of a text, and `std::to_string` of a `double`
  pub strtof : Text → F
  pub to_string : D → Text
