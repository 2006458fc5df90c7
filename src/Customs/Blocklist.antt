-- ===== src/Customs/Blocklist.antt =====
-- lib/ip_blocklist.js and lib/ip_blocklist_manager.js. `base_ip` is `ip.mask(addr,
-- ip.fromPrefixLen(prefixLength))` of a third party, which throws (`none`) on what is no address;
-- the rows are those that the CSV parser of a third party reads. Reading the files and polling them
-- are not modelled.
pub mod Membership
use Prim.Native.Char.{code}
use Prim.Native.String.{[], ◌∷◌}
use fxa_local_dev.Prelude.{
  ℕ, String, Bool, true, false, ◌&&◌, ◌||◌, not, Option, none, some, List, ◌==◌, if◌then◌else◌,
}
use fxa_local_dev.Customs.Objects.{has_key}

-- `{ baseIp, prefixLength }`
pub record Row : Type 0 where
  pub base_ip : String
  pub prefix_length : ℕ

-- `ipsByPrefixLength`: for each prefix length the keys of its object, in the order of
-- `prefixLengths`.
abbrev pub Table : Type 0
Table = List (ℕ × List String)

pub record IpBlocklist : Type 0 where
  pub table : Table
  pub log_only : Bool

-- `text.split('/')`, as the first token and the others
unfoldable pub split_slash : String → String × List String
split_slash [] = ("", List.[])
split_slash (c ∷ s) =
    let (token, tokens) = split_slash s in
    if code c == b'/' then ("", List.◌∷◌ token tokens) else (c ∷ token, tokens)

abbrev is_comment : String → Bool
is_comment [] = false
is_comment (c ∷ s) = code c == b'#'

-- `newIps[prefixLength][baseIp] = true`, with a new object for a new prefix length
unfoldable pub add_row : Row → Table → Table
add_row row List.[] = List.◌∷◌ (row.prefix_length, List.◌∷◌ row.base_ip List.[]) List.[]
add_row row (List.◌∷◌ (p, ips) table) =
    if p == row.prefix_length
    then List.◌∷◌ (p, List.◌∷◌ row.base_ip ips) table
    else List.◌∷◌ (p, ips) (add_row row table)

-- A parsed line; there is no row for a comment.
unfoldable pub add_parsed : Option Row → Table → Table
unfolding add_row
add_parsed none table = table
add_parsed (some row) table = add_row row table

module _ (base_ip : String → ℕ → Option String) (parse_int : String → ℕ) where
  -- `parseRow`: no row for a comment; an exception is `none`.
  unfoldable pub token_row : String × List String → Option (Option Row)
  token_row (address, List.◌∷◌ length List.[]) = elim (base_ip address (parse_int length)) [
    | none ↦ none
    | some base ↦ some (some (record { base_ip = base; prefix_length = parse_int length }))
  ]
  token_row (address, tokens) = some (some (record { base_ip = address; prefix_length = 32 }))

  unfoldable pub parse_row : String → Option (Option Row)
  unfolding token_row split_slash
  parse_row ip_column =
      if is_comment ip_column then some none else token_row (split_slash ip_column)

  -- The loop of `load` over the first column of the rows, onto the new table.
  unfoldable pub load_rows : List String → Table → Option Table
  load_rows List.[] table = some table
  load_rows (List.◌∷◌ column columns) table = elim (parse_row column) [
    | none ↦ none
    | some parsed ↦ load_rows columns (add_parsed parsed table)
  ]

  unfoldable pub load : List String → Option Table
  load columns = load_rows columns List.[]

module _ (base_ip : String → ℕ → Option String) where
  -- `prefixLengths.some(…)` of `contains`, which throws what `base_ip` throws
  unfoldable pub list_contains : Table → String → Option Bool
  list_contains List.[] address = some false
  list_contains (List.◌∷◌ (p, ips) table) address = elim (base_ip address p) [
    | none ↦ none
    | some base ↦ if has_key base ips then some true else list_contains table address
  ]

  -- `contains` of the manager: every list is asked, and those that only log do not count.
  unfoldable pub contains_from : List IpBlocklist → String → Bool → Option Bool
  contains_from List.[] address found = some found
  contains_from (List.◌∷◌ b lists) address found = elim (list_contains b.table address) [
    | none ↦ none
    | some hit ↦ contains_from lists address (found || (hit && not b.log_only))
  ]

  unfoldable pub manager_contains : List IpBlocklist → String → Option Bool
  manager_contains lists address = contains_from lists address false
