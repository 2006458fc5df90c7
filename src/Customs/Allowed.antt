-- ===== src/Customs/Allowed.antt =====
-- lib/settings/allowed_ips.js, allowed_email_domains.js and allowed_phone_numbers.js: who is never
-- blocked. The first two keep their entries as keys of plain objects, the third in a `Set`.
pub mod Domains
use Prim.Native.Char.{code}
use Prim.Native.String.{[], ◌∷◌}
use fxa_local_dev.Prelude.{
  String, Bool, true, false, ◌&&◌, ◌||◌, Option, none, some, List, ◌==◌, if◌then◌else◌,
}
use fxa_local_dev.Customs.Objects.{contains, has_key}

pub record Allowed : Type 0 where
  pub ips : List String
  pub domains : List String
  pub phone_numbers : List String

unfoldable pub is_allowed_ip : List String → String → Bool
is_allowed_ip ips ip = has_key ip ips

abbrev pub is_empty : String → Bool
is_empty [] = true
is_empty (c ∷ s) = false

-- What the greedy `.+@(.+)$` captures of a text without line ends: what follows the last `@` that
-- has something on both sides. `begun` says that there is something to the left.
unfoldable pub after_at : Bool → String → Option String
after_at begun [] = none
after_at begun (c ∷ s) = elim (after_at true s) [
  | some domain ↦ some domain
  | none ↦ if begun && code c == b'@' then (if is_empty s then none else some s) else none
]

-- The dot of the expression matches no line terminator.
unfoldable pub has_line_end : String → Bool
has_line_end [] = false
has_line_end (c ∷ s) =
    (code c == 10 || code c == 13 || code c == 0x2028 || code c == 0x2029) || has_line_end s

unfoldable pub match_domain : String → Option String
match_domain email = if has_line_end email then none else after_at false email

-- The value of `this.domains[match[1]]` is truthy just when the key is there or inherited.
unfoldable pub is_allowed_email : List String → String → Bool
is_allowed_email domains email = elim (match_domain email) [
  | none ↦ false
  | some domain ↦ has_key domain domains
]

unfoldable pub is_allowed_phone_number : List String → String → Bool
is_allowed_phone_number phone_numbers phone_number = contains phone_number phone_numbers

-- `isAllowed` of lib/server.js. A missing email or phone number is `none`: it matches no expression
-- and is in no set.
unfoldable pub is_allowed : Allowed → String → Option String → Option String → Bool
unfolding is_allowed_ip is_allowed_email is_allowed_phone_number
is_allowed a ip email phone_number =
    is_allowed_ip a.ips ip
    || elim email [ none ↦ false | some e ↦ is_allowed_email a.domains e ]
    || elim phone_number [ none ↦ false | some p ↦ is_allowed_phone_number a.phone_numbers p ]
