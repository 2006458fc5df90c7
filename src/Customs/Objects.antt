-- ===== src/Customs/Objects.antt =====
-- Plain JavaScript objects as the customs server uses them for sets and tables: `key in object` and
-- `object[key]` also find the names that every object inherits from `Object.prototype`.
use fxa_local_dev.Prelude.{String, Bool, false, ◌||◌, List, [], ◌∷◌, str_eq}

-- `keys.includes(key)`
unfoldable pub contains : String → List String → Bool
contains key [] = false
contains key (k ∷ keys) = str_eq k key || contains key keys

-- The members of `Object.prototype`; the value of each is truthy.
unfoldable pub inherited : List String
inherited =
    "constructor" ∷ "hasOwnProperty" ∷ "isPrototypeOf" ∷ "propertyIsEnumerable" ∷ "toLocaleString"
    ∷ "toString" ∷ "valueOf" ∷ "__defineGetter__" ∷ "__defineSetter__" ∷ "__lookupGetter__"
    ∷ "__lookupSetter__" ∷ "__proto__" ∷ []

-- `key in object`, for an object whose own keys are `own`
unfoldable pub has_key : String → List String → Bool
has_key key own = contains key own || contains key inherited
