-- ===== src/WifiNode/Config/MacPath.antt =====
-- `findMacPath` of server/src/WifiNode.c answers with the first block that holds the address.
use indoor_navigation_system.Base.{
  subst, ℕ, zero, suc, ◌+◌, ◌≤◌, ◌<◌, ◌≡◌, refl, ap, ◌∙◌, ◌⊎◌, inl, inr, false, Text, text_eq,
  text_eq_iff, Option, none, some, ◌>>=◌, arith, Bool-cases, Option-cases,
}
use indoor_navigation_system.WifiNode.{no_floors, maximum_number_nodes}
use indoor_navigation_system.WifiNode.Config.{
  ConfigReader, lcfg_leaf_str, mac_leaf, search_blocks, or_next_floor, search_floors, find_mac_path,
}

module _ {F : Type 0} (reader : ConfigReader F) (mac : Text) where
  open reader use {get_string}

  -- The block holds the address.
  abbrev pub Holds : ℕ → ℕ → Type 0
  Holds i j = get_string (mac_leaf i j) ≡ some (some mac)

  -- The block holds another address.
  abbrev pub Differs : ℕ → ℕ → Type 0
  Differs i j = (a : Text) × (get_string (mac_leaf i j) ≡ some (some a)) × (text_eq a mac ≡ false)

  -- The block has no address that could be compared.
  abbrev pub Lacks : ℕ → ℕ → Type 0
  Lacks i j = (get_string (mac_leaf i j) ≡ none) ⊎ (get_string (mac_leaf i j) ≡ some none)

  -- The blocks of floor `i` from `j` up to `k` hold other addresses.
  abbrev pub Differ : ℕ → ℕ → ℕ → Type 0
  Differ i j k = (b : ℕ) → j ≤ b → b < k → Differs i b

  abbrev IsBlock : ℕ → ℕ → ℕ → Option (Option Text) → Type 0
  IsBlock i j k none = (b : ℕ) × (j ≤ b) × (b < k) × Lacks i b × Differ i j b
  IsBlock i j k (some none) = Differ i j k
  IsBlock i j k (some (some path)) =
      (b : ℕ) × (j ≤ b) × (b < k) × (path ≡ lcfg_leaf_str i b) × Holds i b × Differ i j b

  le_cases : (x y : ℕ) → x ≤ y → (x ≡ y) ⊎ (x + 1 ≤ y)
  le_cases x y l = grind arith

  Differ-here : (i j b : ℕ) → Differs i j → Differ i (j + 1) b → Differ i j b
  Differ-here i j b d ds c h k = elim (le_cases j c h) [
    | inl e ↦ subst (Differs i) e d
    | inr l ↦ ds c l k
  ]

  IsBlock-next :
      (i j k : ℕ) (r : Option (Option Text)) → Differs i j → IsBlock i (j + 1) k r → IsBlock i j k r
  IsBlock-next i j k none d (b, l, u, lacks, ds) =
      (b, omega arith, u, lacks, Differ-here i j b d ds)
  IsBlock-next i j k (some none) d ds = Differ-here i j k d ds
  IsBlock-next i j k (some (some path)) d (b, l, u, e, holds, ds) =
      (b, omega arith, u, e, holds, Differ-here i j b d ds)

  search_blocks-IsBlock :
      (i j rounds : ℕ) → IsBlock i j (j + rounds) (search_blocks reader mac i j rounds)
  unfolding search_blocks
  search_blocks-IsBlock i j zero = λ b l u. absurd (omega arith)
  search_blocks-IsBlock i j (suc rounds) = elim (Option-cases (get_string (mac_leaf i j))) [
    | inl e ↦ rw e (j, omega arith, omega arith, inl e, λ b l u. absurd (omega arith))
    | inr (temp, e) ↦ elim (Option-cases temp) [
      | inl null ↦
          let f : get_string (mac_leaf i j) ≡ some none = e ∙ ap some null in
          rw f (j, omega arith, omega arith, inr f, λ b l u. absurd (omega arith))
      | inr (a, text) ↦
          let f : get_string (mac_leaf i j) ≡ some (some a) = e ∙ ap some text in
          elim (Bool-cases (text_eq a mac)) [
            | inl same ↦
                rw (f, same)
                  (
                    j,
                    omega arith,
                    omega arith,
                    refl,
                    f ∙ ap (λ t. some (some t)) ((text_eq_iff a mac).0 same),
                    λ b l u. absurd (omega arith),
                  )
            | inr other ↦
                rw (f, other)
                  (IsBlock-next i j (j + suc rounds) _ (a, f, other)
                    (subst (λ k. IsBlock i (j + 1) k (search_blocks reader mac i (j + 1) rounds))
                      (omega arith) (search_blocks-IsBlock i (j + 1) rounds)))
          ]
    ]
  ]

  -- All blocks of the floors from `i` up to `k` hold other addresses.
  abbrev pub FloorsDiffer : ℕ → ℕ → Type 0
  FloorsDiffer i k = (a : ℕ) → i ≤ a → a < k → Differ a 1 (1 + maximum_number_nodes)

  -- What a search of the floors from `i` up to `k` answers: the path of the first block with the
  -- address, floor by floor; or that there is none; or it meets a block without an address before.
  abbrev pub IsMacPath : ℕ → ℕ → Option (Option Text) → Type 0
  IsMacPath i k none =
      (a b : ℕ) × (i ≤ a)
      × (a < k)
      × (1 ≤ b)
      × (b ≤ maximum_number_nodes)
      × Lacks a b
      × Differ a 1 b
      × FloorsDiffer i a
  IsMacPath i k (some none) = FloorsDiffer i k
  IsMacPath i k (some (some path)) =
      (a b : ℕ) × (i ≤ a)
      × (a < k)
      × (1 ≤ b)
      × (b ≤ maximum_number_nodes)
      × (path ≡ lcfg_leaf_str a b)
      × Holds a b
      × Differ a 1 b
      × FloorsDiffer i a

  FloorsDiffer-here :
      (i k : ℕ) → Differ i 1 (1 + maximum_number_nodes) → FloorsDiffer (i + 1) k → FloorsDiffer i k
  FloorsDiffer-here i k d ds a l u = elim (le_cases i a l) [
    | inl e ↦ subst (λ c. Differ c 1 (1 + maximum_number_nodes)) e d
    | inr m ↦ ds a m u
  ]

  or_next_floor-IsMacPath :
      (i k : ℕ) (r : Option (Option Text)) (rest : Option (Option Text))
      → i < k
      → IsBlock i 1 (1 + maximum_number_nodes) r
      → IsMacPath (i + 1) k rest
      → IsMacPath i k (r >>= λ path. or_next_floor reader path rest)
  or_next_floor-IsMacPath i k none rest h (b, l, u, lacks, ds) _ =
      (i, b, omega arith, h, l, omega arith, lacks, ds, λ a x y. absurd (omega arith))
  or_next_floor-IsMacPath i k (some (some path)) rest h (b, l, u, e, holds, ds) _ =
      (i, b, omega arith, h, l, omega arith, e, holds, ds, λ a x y. absurd (omega arith))
  or_next_floor-IsMacPath i k (some none) none h d (a, b, l, u, l', u', lacks, ds, fs) =
      (a, b, omega arith, u, l', u', lacks, ds, FloorsDiffer-here i a d fs)
  or_next_floor-IsMacPath i k (some none) (some none) h d fs = FloorsDiffer-here i k d fs
  or_next_floor-IsMacPath i k (some none) (some (some p)) h d
        (a, b, l, u, l', u', e, holds, ds, fs) =
      (a, b, omega arith, u, l', u', e, holds, ds, FloorsDiffer-here i a d fs)

  search_floors-IsMacPath :
      (i rounds : ℕ) → IsMacPath i (i + rounds) (search_floors reader mac i rounds)
  unfolding search_floors
  search_floors-IsMacPath i zero = λ a l u. absurd (omega arith)
  search_floors-IsMacPath i (suc rounds) =
      or_next_floor-IsMacPath i (i + suc rounds) (search_blocks reader mac i 1 maximum_number_nodes)
        (search_floors reader mac (i + 1) rounds) (omega arith)
        (search_blocks-IsBlock i 1 maximum_number_nodes)
        (subst (λ k. IsMacPath (i + 1) k (search_floors reader mac (i + 1) rounds)) (omega arith)
          (search_floors-IsMacPath (i + 1) rounds))

  -- Over three floors of fifteen blocks, `findMacPath` writes the path of the first block, floor by
  -- floor, that holds the address; or nothing if all blocks hold other addresses; or it compares a
  -- null text if it meets a block without an address before.
  pub find_mac_path-IsMacPath : IsMacPath 1 (1 + no_floors) (find_mac_path reader mac)
  unfolding find_mac_path
  find_mac_path-IsMacPath = search_floors-IsMacPath 1 no_floors
