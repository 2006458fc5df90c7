-- ===== src/Customs/Blocklist/Membership.antt =====
-- Which addresses the blocklists contain.
use mathlib.Core.Option
use mathlib.Core.Option.{some-injective}
use fxa_local_dev.Prelude.{
  ℕ, String, ◌≡◌, refl, ap, sym, ◌∙◌, inl, inr, Bool, false, ◌&&◌, ◌||◌, not, Option, none, some,
  List, [], ◌∷◌, arith, ◌==◌, str_eq, Bool-cases, Option-cases,
}
use fxa_local_dev.Customs.Objects.{contains, has_key, inherited}
use fxa_local_dev.Customs.Blocklist.{
  Row, Table, add_parsed, IpBlocklist, add_row, list_contains, contains_from, manager_contains,
  load_rows, parse_row, load,
}

abbrev with_parsed : Option Row → List Row → List Row
with_parsed none rows = rows
with_parsed (some row) rows = row ∷ rows

-- The rows that the lines of a file stand for, in their order; a comment stands for none, and a line
-- that is no row makes the file unreadable.
unfoldable pub rows_of :
    (String → ℕ → Option String) → (String → ℕ) → List String → Option (List Row)
rows_of base_ip parse_int [] = some []
rows_of base_ip parse_int (column ∷ columns) = elim (parse_row base_ip parse_int column) [
  | none ↦ none
  | some parsed ↦ Option.map (with_parsed parsed) (rows_of base_ip parse_int columns)
]

-- The address has the row's base address under the row's prefix length.
abbrev pub lies_in : (ℕ → String) → Row → Bool
lies_in base row = str_eq row.base_ip (base row.prefix_length)

abbrev pub lies_in_some : (ℕ → String) → List Row → Bool
lies_in_some base [] = false
lies_in_some base (row ∷ rows) = lies_in base row || lies_in_some base rows

unfoldable pub table_of : List Row → Table → Table
table_of [] table = table
table_of (row ∷ rows) table = table_of rows (add_row row table)

module _ (base_ip : String → ℕ → Option String) (address : String) (base : ℕ → String)
    (is_address : (p : ℕ) → base_ip address p ≡ some (base p))
    (is_own : (p : ℕ) → contains (base p) inherited ≡ false) where
  -- The address is in one of the table's ranges.
  unfoldable pub hit : Table → Bool
  hit [] = false
  hit ((p, ips) ∷ table) = contains (base p) ips || hit table

  pub list_contains-hit : (table : Table) → list_contains base_ip table address ≡ some (hit table)
  unfolding list_contains hit has_key
  list_contains-hit [] = refl
  list_contains-hit ((p, ips) ∷ table) =
      rw (is_address p, list_contains, is_own p) (ground (arith, list_contains-hit table))

  hit-add_row :
      (row : Row) (table : Table) → hit (add_row row table) ≡ (lies_in base row || hit table)
  unfolding hit add_row contains
  hit-add_row row [] = ground arith
  hit-add_row row ((p, ips) ∷ table) = elim (Bool-cases (p == row.prefix_length)) [
    | inl same ↦ rw (same, add_row) (ground (arith, same))
    | inr other ↦ rw (other, add_row) (ground (arith, hit-add_row row table))
  ]

  hit-table_of :
      (rows : List Row) (table : Table)
      → hit (table_of rows table) ≡ (lies_in_some base rows || hit table)
  unfolding table_of
  hit-table_of [] table = refl
  hit-table_of (row ∷ rows) table =
      ground (arith, hit-table_of rows (add_row row table), hit-add_row row table)

  hit-table_of_nil : (rows : List Row) → hit (table_of rows []) ≡ lies_in_some base rows
  unfolding hit
  hit-table_of_nil rows = ground (arith, hit-table_of rows [])

table_of-with_parsed :
    (parsed : Option Row) (rows : List Row) (table : Table)
    → table_of (with_parsed parsed rows) table ≡ table_of rows (add_parsed parsed table)
unfolding table_of add_parsed
table_of-with_parsed none rows table = refl
table_of-with_parsed (some row) rows table = refl

-- `load` adds the rows of the lines one by one.
load_rows-table_of :
    (base_ip : String → ℕ → Option String) (parse_int : String → ℕ) (columns : List String)
    (rows : List Row) (table : Table)
    → rows_of base_ip parse_int columns ≡ some rows
    → load_rows base_ip parse_int columns table ≡ some (table_of rows table)
unfolding rows_of load_rows table_of
load_rows-table_of base_ip parse_int [] rows table e = ground (arith, e)
load_rows-table_of base_ip parse_int (column ∷ columns) rows table e =
    elim (Option-cases (parse_row base_ip parse_int column)) [
      | inl throws ↦ ground (arith, throws, e)
      | inr (parsed, known) ↦ elim (Option-cases (rows_of base_ip parse_int columns)) [
        | inl bad ↦ ground (arith, known, bad, e)
        | inr (rest, good) ↦ ground (
          arith,
          known,
          good,
          e,
          table_of-with_parsed parsed rest table,
          load_rows-table_of base_ip parse_int columns rest (add_parsed parsed table) good,
        )
      ]
    ]

-- A list that was loaded from readable lines contains an address just when the address lies in the
-- range of one of their rows. (The address is one that `ip.mask` takes, and its masks are not named
-- like a member of `Object.prototype`.)
pub load-contains :
    (base_ip : String → ℕ → Option String) (parse_int : String → ℕ) (columns : List String)
    (rows : List Row) (table : Table) (address : String) (base : ℕ → String)
    → ((p : ℕ) → base_ip address p ≡ some (base p))
    → ((p : ℕ) → contains (base p) inherited ≡ false)
    → rows_of base_ip parse_int columns ≡ some rows
    → load base_ip parse_int columns ≡ some table
    → list_contains base_ip table address ≡ some (lies_in_some base rows)
unfolding load
load-contains base_ip parse_int columns rows table address base is_address is_own readable loaded =
    let e : table_of rows [] ≡ table =
      some-injective _ _
        (sym (load_rows-table_of base_ip parse_int columns rows [] readable) ∙ loaded) in
    rw (← e) (
      list_contains-hit base_ip address base is_address is_own (table_of rows [])
      ∙ ap some (hit-table_of_nil base_ip address base is_address is_own rows))

-- `hits` says which lists contain the address.
abbrev pub blocks_in : (IpBlocklist → Bool) → List IpBlocklist → Bool
blocks_in hits [] = false
blocks_in hits (b ∷ lists) = (hits b && not b.log_only) || blocks_in hits lists

contains_from-blocks_in :
    (base_ip : String → ℕ → Option String) (address : String) (hits : IpBlocklist → Bool)
    (lists : List IpBlocklist) (found : Bool)
    → ((b : IpBlocklist) → list_contains base_ip b.table address ≡ some (hits b))
    → contains_from base_ip lists address found ≡ some (found || blocks_in hits lists)
unfolding contains_from
contains_from-blocks_in base_ip address hits [] found h = ground arith
contains_from-blocks_in base_ip address hits (b ∷ lists) found h =
    rw (h b, contains_from)
      (ground (
        arith,
        contains_from-blocks_in base_ip address hits lists (found || (hits b && not b.log_only)) h,
      ))

-- The manager finds an address, where no list throws, just when a list that does not only log
-- contains it.
pub manager_contains_exact :
    (base_ip : String → ℕ → Option String) (address : String) (hits : IpBlocklist → Bool)
    (lists : List IpBlocklist)
    → ((b : IpBlocklist) → list_contains base_ip b.table address ≡ some (hits b))
    → manager_contains base_ip lists address ≡ some (blocks_in hits lists)
unfolding manager_contains
manager_contains_exact base_ip address hits lists h =
    contains_from-blocks_in base_ip address hits lists false h
