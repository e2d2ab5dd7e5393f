-- ===== src/Base/Lists.antt =====
-- Lists measured and indexed by native numbers, under the library's names.
use mathlib.Core.Path.{subst, ◌≡◌, refl, ap}
use Prim.Native.Nat.{ℕ, zero, suc, ◌+◌, ◌<◌, ◌≤◌}
use mathlib.Core.Logic.{◌≢◌}
use mathlib.Core.List.{List, [], ◌∷◌, ◌++◌, map, foldl}
use mathlib.Core.Option.{Option, none, some}
use native.Mathlib.Omega.{arith}

module _ {ℓ} {A : Type ℓ} where
  abbrev pub length : List A → ℕ
  length [] = 0
  length (x ∷ xs) = suc (length xs)

  abbrev pub get_elem? : List A → ℕ → Option A
  get_elem? [] i = none
  get_elem? (x ∷ xs) zero = some x
  get_elem? (x ∷ xs) (suc i) = get_elem? xs i

  -- A write out of bounds changes nothing.
  abbrev pub set : List A → ℕ → A → List A
  set [] i v = []
  set (x ∷ xs) zero v = v ∷ xs
  set (x ∷ xs) (suc i) v = x ∷ set xs i v

  abbrev pub get_or : List A → ℕ → A → A
  get_or [] i d = d
  get_or (x ∷ xs) zero d = x
  get_or (x ∷ xs) (suc i) d = get_or xs i d

  abbrev pub take : ℕ → List A → List A
  take zero xs = []
  take (suc n) [] = []
  take (suc n) (x ∷ xs) = x ∷ take n xs

  abbrev pub drop : ℕ → List A → List A
  drop zero xs = xs
  drop (suc n) [] = []
  drop (suc n) (x ∷ xs) = drop n xs

  -- Shut, since the program's arrays hold thousands of elements.
  unfoldable pub replicate : ℕ → A → List A
  replicate zero a = []
  replicate (suc n) a = a ∷ replicate n a

  pub length-append : (xs ys : List A) → length (xs ++ ys) ≡ length xs + length ys
  length-append [] ys = omega arith
  length-append (x ∷ xs) ys = omega (arith, length-append xs ys)

  pub length-set : (xs : List A) (i : ℕ) (v : A) → length (set xs i v) ≡ length xs
  length-set [] i v = refl
  length-set (x ∷ xs) zero v = refl
  length-set (x ∷ xs) (suc i) v = ap suc (length-set xs i v)

  pub length-replicate : (n : ℕ) (a : A) → length (replicate n a) ≡ n
  unfolding replicate
  length-replicate zero a = refl
  length-replicate (suc n) a = ap suc (length-replicate n a)

  pub get_or-set_self :
      (xs : List A) (i : ℕ) (v d : A) → i < length xs → get_or (set xs i v) i d ≡ v
  get_or-set_self [] i v d h = elim h [ ]
  get_or-set_self (x ∷ xs) zero v d h = refl
  get_or-set_self (x ∷ xs) (suc i) v d h = get_or-set_self xs i v d (omega arith)

  pub get_or-set_ne :
      (xs : List A) (i j : ℕ) (v d : A) → i ≢ j → get_or (set xs i v) j d ≡ get_or xs j d
  get_or-set_ne [] i j v d h = refl
  get_or-set_ne (x ∷ xs) zero zero v d h = absurd (h refl)
  get_or-set_ne (x ∷ xs) zero (suc j) v d h = refl
  get_or-set_ne (x ∷ xs) (suc i) zero v d h = refl
  get_or-set_ne (x ∷ xs) (suc i) (suc j) v d h = get_or-set_ne xs i j v d (λ e. h (ap suc e))

  -- A predicate on every element.
  abbrev pub All {κ} : (A → Type κ) → List A → Type κ
  All P [] = Unit
  All P (x ∷ xs) = P x × All P xs

pub length-map {ℓ κ} :
    {A : Type ℓ} {B : Type κ} (f : A → B) (xs : List A) → length (map f xs) ≡ length xs
length-map f [] = refl
length-map f (x ∷ xs) = ap suc (length-map f xs)

module _ {ℓ} {A : Type ℓ} where
  pub drop-eq-cons :
      (xs : List A) (i : ℕ) (d : A) → i < length xs → drop i xs ≡ get_or xs i d ∷ drop (suc i) xs
  drop-eq-cons [] i d h = elim h [ ]
  drop-eq-cons (x ∷ xs) zero d h = refl
  drop-eq-cons (x ∷ xs) (suc i) d h = drop-eq-cons xs i d (omega arith)

  pub drop-eq-nil : (xs : List A) (i : ℕ) → length xs ≤ i → drop i xs ≡ []
  drop-eq-nil [] zero h = refl
  drop-eq-nil [] (suc i) h = refl
  drop-eq-nil (x ∷ xs) zero h = elim h [ ]
  drop-eq-nil (x ∷ xs) (suc i) h = drop-eq-nil xs i (omega arith)

  pub take-nil : (n : ℕ) → ◌≡◌ {A = List A} (take n []) []
  take-nil zero = refl
  take-nil (suc n) = refl

-- A fold over a stretch of an array takes the element at its start first.
pub foldl-take-suc {ℓ κ} :
    {A : Type ℓ} {B : Type κ} (f : B → A → B) (b : B) (xs : List A) (i n : ℕ) (d : A)
    → i < length xs
    → foldl f b (take (suc n) (drop i xs))
      ≡ foldl f (f b (get_or xs i d)) (take n (drop (suc i) xs))
foldl-take-suc f b xs i n d h = rw (drop-eq-cons xs i d h)

-- What `f` makes of `Q`, it makes throughout a list.
pub All-map {ℓ κ μ ν} :
    {A : Type ℓ} {B : Type κ} {Q : A → Type ν} (P : B → Type μ) (f : A → B)
    → ((a : A) → Q a → P (f a))
    → (xs : List A) → All Q xs
    → All P (map f xs)
All-map P f h [] qs = tt
All-map P f h (x ∷ xs) (q, qs) = (h x q, All-map P f h xs qs)

pub All-implies {ℓ κ μ} :
    {A : Type ℓ} {P : A → Type κ} {Q : A → Type μ}
    → ((a : A) → P a → Q a)
    → (xs : List A) → All P xs
    → All Q xs
All-implies h [] ps = tt
All-implies h (x ∷ xs) (p, ps) = (h x p, All-implies h xs ps)

pub All-replicate {ℓ κ} :
    {A : Type ℓ} (P : A → Type κ) (n : ℕ) (a : A) → P a → All P (replicate n a)
unfolding replicate
All-replicate P zero a p = tt
All-replicate P (suc n) a p = (p, All-replicate P n a p)

pub All-total {ℓ κ} : {A : Type ℓ} (P : A → Type κ) → ((a : A) → P a) → (xs : List A) → All P xs
All-total P h [] = tt
All-total P h (x ∷ xs) = (h x, All-total P h xs)

pub get_elem?-set_self {ℓ} :
    {A : Type ℓ} (xs : List A) (i : ℕ) {x : A} (y : A)
    → get_elem? xs i ≡ some x
    → get_elem? (set xs i y) i ≡ some y
get_elem?-set_self [] i y e = ground arith
get_elem?-set_self (x ∷ xs) zero y e = refl
get_elem?-set_self (x ∷ xs) (suc i) y e = get_elem?-set_self xs i y e

pub get_elem?-set_ne {ℓ} :
    {A : Type ℓ} (xs : List A) (i j : ℕ) (y : A) → j ≢ i → get_elem? (set xs i y) j ≡ get_elem? xs j
get_elem?-set_ne [] i j y h = refl
get_elem?-set_ne (x ∷ xs) zero zero y h = absurd (h refl)
get_elem?-set_ne (x ∷ xs) zero (suc j) y h = refl
get_elem?-set_ne (x ∷ xs) (suc i) zero y h = refl
get_elem?-set_ne (x ∷ xs) (suc i) (suc j) y h = get_elem?-set_ne xs i j y (λ e. h (ap suc e))

module _ {ℓ κ} {A : Type ℓ} (P : A → Type κ) where
  pub All-get_elem? : (xs : List A) (i : ℕ) {x : A} → All P xs → get_elem? xs i ≡ some x → P x
  All-get_elem? [] i ps e = cc
  All-get_elem? (x ∷ xs) zero (p, ps) e = subst P (cc) p
  All-get_elem? (x ∷ xs) (suc i) (p, ps) e = All-get_elem? xs i ps e

  pub All-set : (xs : List A) (i : ℕ) {y : A} → All P xs → P y → All P (set xs i y)
  All-set [] i ps q = tt
  All-set (x ∷ xs) zero (p, ps) q = (q, ps)
  All-set (x ∷ xs) (suc i) (p, ps) q = (p, All-set xs i ps q)

-- A write that keeps what `f` reads.
pub map-set {ℓ κ} :
    {A : Type ℓ} {B : Type κ} (f : A → B) (xs : List A) (i : ℕ) {x y : A}
    → get_elem? xs i ≡ some x
    → f y ≡ f x
    → map f (set xs i y) ≡ map f xs
map-set f [] i e same = refl
map-set f (x ∷ xs) zero e same = cc
map-set f (x ∷ xs) (suc i) e same = ap (◌∷◌ (f x)) (map-set f xs i e same)

pub set-set {ℓ} : {A : Type ℓ} (xs : List A) (i : ℕ) (y z : A) → set (set xs i y) i z ≡ set xs i z
set-set [] i y z = refl
set-set (x ∷ xs) zero y z = refl
set-set (x ∷ xs) (suc i) y z = ap (◌∷◌ x) (set-set xs i y z)

-- A front is no longer than it was asked for, and keeps what holds of all.
pub take_fits {ℓ} : {A : Type ℓ} (n : ℕ) (xs : List A) → length (take n xs) ≤ n
take_fits zero xs = omega arith
take_fits (suc n) [] = omega arith
take_fits (suc n) (x ∷ xs) = omega (arith, take_fits n xs)

pub All-take {ℓ κ} :
    {A : Type ℓ} (P : A → Type κ) (n : ℕ) (xs : List A) → All P xs → All P (take n xs)
All-take P zero xs ps = tt
All-take P (suc n) [] ps = tt
All-take P (suc n) (x ∷ xs) (p, ps) = (p, All-take P n xs ps)
