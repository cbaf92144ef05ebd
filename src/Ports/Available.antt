-- ===== src/Ports/Available.antt =====
-- internal/ports/ports.go: whether ports are free. `dial`, the connection attempt, is a parameter:
-- it says whether nothing answers on a port. A range that ends at the largest int, over which the
-- loop in Go does not end while all ports are free, ends here.
use lstk.Text.Search.{cut}
use lstk.Text.Decimal.{atoi, itoa, pos, ℤ}
use lstk.Prelude.{
  false, true, ◌-◌, Bool, ℕ, zero, suc, Option, none, some, List, [], ◌∷◌, leb, if◌then◌else◌,
}
use lstk.Text.Basic.{Text}

-- `parseRange`: the first port of a range and how many follow it. What stands before the first dash
-- has no sign of its own, so the first port is not negative.
abbrev pub range_of : Option ℤ → Option ℤ → Option (ℕ × ℕ)
range_of (some (pos lo)) (some (pos hi)) = if leb lo hi then some (lo, hi - lo) else none
range_of _ _ = none

abbrev pub range_of_parts : Option (Text × Text) → Option (ℕ × ℕ)
range_of_parts none = none
range_of_parts (some (lo, hi)) = range_of (atoi lo) (atoi hi)

unfoldable pub parse_range : Text → Option (ℕ × ℕ)
parse_range spec = range_of_parts (cut spec b'-')

module _ (dial : Text → Bool) where
  -- The loop over a range: the first port that is in use.
  unfoldable pub first_busy : ℕ → ℕ → Option Text
  first_busy p zero = if dial (itoa p) then none else some (itoa p)
  first_busy p (suc n) =
      let rest = first_busy (suc p) n in if dial (itoa p) then rest else some (itoa p)

  abbrev pub busy_in : Text → Option (ℕ × ℕ) → Option Text
  busy_in spec none = if dial spec then none else some spec
  busy_in spec (some (lo, n)) = first_busy lo n

  -- `CheckAvailable`: the first port that is in use.
  unfoldable pub check_available : List Text → Option Text
  unfolding first_busy parse_range
  check_available [] = none
  check_available (spec ∷ specs) =
      let rest = check_available specs in
      elim (busy_in spec (parse_range spec)) [ none ↦ rest | some port ↦ some port ]

  abbrev pub is_free : Text → Bool
  is_free spec = elim (check_available (spec ∷ [])) [ none ↦ true | some port ↦ false ]
