-- ===== src/Tests/NlaTests.antt =====
-- The reader of rkx_nla.h on a few attributes.
use re_kernel_x.Base.{ℕ, ◌≡◌, refl, List, [], ◌∷◌, ◌++◌, Option, some, none, arith}
use re_kernel_x.Nla.{Table, parse, parse_loop}
use re_kernel_x.Nla.Wire.{Attr, attr, attr_of, wire}
use re_kernel_x.Nla.Parses.{Holds, parse-wire}

-- Two attributes of type 2, one of type 5 with a payload of one byte.
abbrev three : List Attr
three = attr 2 (7 ∷ 0 ∷ 0 ∷ 0 ∷ []) ∷ attr 5 (9 ∷ []) ∷ attr 2 (8 ∷ 0 ∷ 0 ∷ 0 ∷ []) ∷ []

abbrev buffer : List ℕ
buffer = 1 ∷ 1 ∷ 1 ∷ 1 ∷ (wire three ++ 255 ∷ [])

abbrev places : Option Table → List (Option ℕ)
places none = []
places (some tb) = tb 2 ∷ tb 3 ∷ tb 5 ∷ []

finds_the_last : places (parse buffer 10 4 24) ≡ some 20 ∷ none ∷ some 12 ∷ []
unfolding parse parse_loop
finds_the_last = refl

-- A length that is more than what is left ends the loop.
stops_at_nonsense : places (parse (200 ∷ 0 ∷ 2 ∷ 0 ∷ 1 ∷ 2 ∷ []) 10 0 6) ≡ none ∷ none ∷ none ∷ []
unfolding parse parse_loop
stops_at_nonsense = refl

parse-wire_example :
    (tb : Table) × (parse buffer 10 4 24 ≡ some tb) × Holds buffer 10 tb (λ k. attr_of k three)
parse-wire_example =
    parse-wire three buffer 10 4 24 (1 ∷ 1 ∷ 1 ∷ 1 ∷ []) (255 ∷ []) refl refl refl
      ((omega arith, omega arith), ((omega arith, omega arith), ((omega arith, omega arith), tt)))
