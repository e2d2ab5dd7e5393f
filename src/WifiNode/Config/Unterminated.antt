-- ===== src/WifiNode/Config/Unterminated.antt =====
-- The text "powerAtArbitraryDistance" of server/src/WifiNode.c, which is read with "macAddress" at its
-- end, and what `findNode` of server/src/WifiAccessPointLocalConfig.c makes of it.
use indoor_navigation_system.Base.{
  ◌≡◌, refl, ap, ◌∙◌, sym, ◌≤◌, ◌⊎◌, inl, inr, zero, suc, ℕ, ◌==◌, ◌++◌, ◌&&◌, ◌∷◌, [], true, Text,
  codes, Option, none, some, starts_with, strstr, length, take, arith, Bool-cases, length-append,
}
use mathlib.Core.List.{append_assoc}
use indoor_navigation_system.Machine.{Machine}
use indoor_navigation_system.LocalConfig.{
  Xml, root_prefix, next_component, enter, fuel_of, find_step, find_loop, find_node,
  lcfg_get_float_parameter,
}
use indoor_navigation_system.WifiNode.Config.{leaf, read_leaf}
use indoor_navigation_system.WifiNode.Config.Reader.{lcfg_reader}

abbrev meant : Text
meant = codes "powerAtArbitraryDistance"

abbrev asked : Text
asked = codes "powerAtArbitraryDistancemacAddress"

starts_with-nil : (t : Text) → starts_with t [] ≡ true
unfolding starts_with
starts_with-nil [] = refl
starts_with-nil (c ∷ t) = refl

-- A short prefix does not see what is put behind the text.
starts_with-append : (t e p : Text) → length p ≤ length t → starts_with (t ++ e) p ≡ starts_with t p
unfolding starts_with
starts_with-append t e [] h = starts_with-nil (t ++ e) ∙ sym (starts_with-nil t)
starts_with-append [] e (c ∷ p) h = elim h [ ]
starts_with-append (d ∷ t) e (c ∷ p) h =
    ap (λ b. (c == d) && b) (starts_with-append t e p (omega arith))

asked_starts :
    (q name : Text)
    → length name ≤ 24
    → starts_with (q ++ asked) name ≡ starts_with (q ++ meant) name
asked_starts q name h =
    ap (λ t. starts_with t name) (sym (append_assoc q meant (codes "macAddress")))
    ∙ starts_with-append (q ++ meant) (codes "macAddress") name
        (omega (arith, length-append q meant))

starts_with-slash : (c : ℕ) (t : Text) → starts_with (c ∷ t) (codes "/") ≡ ((b'/' == c) && true)
unfolding starts_with
starts_with-slash c t = ap (λ b. (b'/' == c) && b) (starts_with-nil t)

module _ {N : Type 0} (xml : Xml N) where
  -- Both paths end behind no slash, or go on alike.
  abbrev GoesOn : Text → Type 0
  GoesOn q =
      ((next_component xml (q ++ asked) ≡ none) × (next_component xml (q ++ meant) ≡ none))
      ⊎ ((q' : Text) × (next_component xml (q ++ asked) ≡ some (q' ++ asked))
          × (next_component xml (q ++ meant) ≡ some (q' ++ meant)))

  asked-GoesOn : (q : Text) → GoesOn q
  unfolding next_component strstr
  asked-GoesOn [] = unfold starts_with in inl (refl, refl)
  asked-GoesOn (c ∷ q) = elim (Bool-cases ((b'/' == c) && true)) [
    | inl slash ↦
        rw (starts_with-slash c (q ++ asked), starts_with-slash c (q ++ meant), slash)
          (inr (q, refl, refl))
    | inr other ↦
        rw (starts_with-slash c (q ++ asked), starts_with-slash c (q ++ meant), other)
          (asked-GoesOn q)
  ]

  module _ (short : (n : N) → length (xml.element_name n) ≤ 24) where
    -- A round from the next sibling on, where the rounds behind it agree.
    round-asked :
        (fuel : ℕ) (sibling : Option N) (q : Text)
        → ((curr : Option N) (q : Text)
            → find_loop xml fuel curr (some (q ++ asked))
              ≡ find_loop xml fuel curr (some (q ++ meant)))
        → let (curr, path) = enter xml (q ++ asked) sibling in
          let (curr', path') = enter xml (q ++ meant) sibling in
          find_loop xml fuel curr path ≡ find_loop xml fuel curr' path'
    round-asked fuel none q rounds = rounds none q
    round-asked fuel (some n) q rounds =
        let same = asked_starts q (xml.element_name n) (short n) in
        elim (Bool-cases (starts_with (q ++ meant) (xml.element_name n))) [
          | inr other ↦ rw (same, other) (rounds (some n) q)
          | inl begins ↦ elim (asked-GoesOn q) [
            | inl (ended, ended') ↦ rw (same, begins, ended, ended') refl
            | inr (q', on, on') ↦ rw (same, begins, on, on') (rounds (xml.children n) q')
          ]
        ]

    find_loop-asked :
        (fuel : ℕ) (curr : Option N) (q : Text)
        → find_loop xml fuel curr (some (q ++ asked)) ≡ find_loop xml fuel curr (some (q ++ meant))
    unfolding find_loop find_step
    find_loop-asked zero none q = refl
    find_loop-asked (suc fuel) none q = refl
    find_loop-asked zero (some curr) q = refl
    find_loop-asked (suc fuel) (some curr) q =
        round-asked fuel (xml.next_element_sibling curr) q (find_loop-asked fuel)

    find_node-asked :
        (first : Option N) (q : Text)
        → find_node xml first (root_prefix ++ (q ++ asked))
          ≡ find_node xml first (root_prefix ++ (q ++ meant))
    unfolding find_node strstr starts_with
    find_node-asked first q = find_loop-asked (fuel_of xml first) first q

take_all : (n : ℕ) (t : Text) → length t ≤ n → take n t ≡ t
take_all zero [] h = refl
take_all zero (c ∷ t) h = elim h [ ]
take_all (suc n) [] h = refl
take_all (suc n) (c ∷ t) h = ap (◌∷◌ c) (take_all n t (omega arith))

-- Where no name of an element has more than 24 characters, the text that is read without its final
-- zero finds what it was meant to find: under every path below "/WifiNodes/" that fits the buffer, the
-- power at the distance is read as if "powerAtArbitraryDistance" stood there alone.
pub read_leaf_unterminated :
    {N F D : Type 0} (m : Machine F D) (xml : Xml N) (first : Option N)
    → ((n : N) → length (xml.element_name n) ≤ 24)
    → (below : Text) → length below ≤ 82
    → let reader = lcfg_reader m xml first in
      read_leaf reader (root_prefix ++ below) (leaf 5)
      ≡ read_leaf reader (root_prefix ++ below) (codes "powerAtArbitraryDistance")
unfolding read_leaf leaf lcfg_get_float_parameter
read_leaf_unterminated m xml first short below h =
    rw
      (
        take_all 116 (below ++ asked) (omega (arith, length-append below asked)),
        take_all 116 (below ++ meant) (omega (arith, length-append below meant)),
        find_node-asked xml short first below,
      )
      refl
