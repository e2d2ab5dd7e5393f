-- ===== src/Base/Folds.antt =====
-- Folds whose steps commute, over lists that differ in their order.
use Prim.Native.Nat.{ℕ, suc, ◌+◌}
use native.Mathlib.Nat.{ℕ_set}
use native.Mathlib.Omega.{arith}
use indoor_navigation_system.Base.Lists.{length}
use mathlib.Core.Path.{◌≡◌, refl, ap, ◌∙◌, sym}
use mathlib.Core.List.{List, [], ◌∷◌, Perm, foldl, foldr}
use mathlib.Core.List.Perm

module _ {ℓ κ} {A : Type ℓ} {B : Type κ} (f : B → A → B)
    (comm : (b : B) (x y : A) → f (f b x) y ≡ f (f b y) x) where
  foldl-step : (b : B) (x : A) (xs : List A) → foldl f (f b x) xs ≡ f (foldl f b xs) x
  foldl-step b x [] = refl
  foldl-step b x (y ∷ xs) = ap (λ c. foldl f c xs) (comm b x y) ∙ foldl-step (f b y) x xs

  foldl-eq-foldr : (b : B) (xs : List A) → foldl f b xs ≡ foldr (λ x c. f c x) b xs
  foldl-eq-foldr b [] = refl
  foldl-eq-foldr b (x ∷ xs) = foldl-step b x xs ∙ ap (λ c. f c x) (foldl-eq-foldr b xs)

  pub foldl-Perm : IsSet B → (b : B) {xs ys : List A} → Perm xs ys → foldl f b xs ≡ foldl f b ys
  foldl-Perm set b {xs} {ys} p =
      foldl-eq-foldr b xs
      ∙ Perm.foldr-eq set (λ x c. f c x) (λ x y c. comm c y x) p b
      ∙ sym (foldl-eq-foldr b ys)

foldl-count {ℓ} : {A : Type ℓ} (k : ℕ) (xs : List A) → foldl (λ n _. suc n) k xs ≡ k + length xs
foldl-count k [] = omega arith
foldl-count k (x ∷ xs) = omega (arith, foldl-count (suc k) xs)

pub length-Perm {ℓ} : {A : Type ℓ} {xs ys : List A} → Perm xs ys → length xs ≡ length ys
length-Perm {xs = xs} {ys = ys} p =
    let same : foldl (λ n _. suc n) 0 xs ≡ foldl (λ n _. suc n) 0 ys =
      foldl-Perm (λ n _. suc n) (λ n x y. refl) ℕ_set 0 p in
    omega (arith, same, foldl-count 0 xs, foldl-count 0 ys)

empty_of_length {ℓ} : {A : Type ℓ} (xs : List A) → length xs ≡ 0 → xs ≡ []
empty_of_length [] e = refl
empty_of_length (x ∷ xs) e = ground arith

pub Perm-empty {ℓ} : {A : Type ℓ} {xs : List A} → Perm [] xs → xs ≡ []
Perm-empty {xs = xs} p = empty_of_length xs (sym (length-Perm p))
