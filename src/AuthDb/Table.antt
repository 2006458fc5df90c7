-- ===== src/AuthDb/Table.antt =====
-- Plain objects that serve as tables in lib/db/mem.js of fxa-auth-db-mysql. Keys are hexadecimal
-- texts or email addresses, none of them a member of `Object.prototype`; an object keeps its keys in
-- the order of their insertion.
pub mod Laws
use fxa_local_dev.Prelude.{
  String, ◌≡◌, ◌≢◌, refl, ap, ◌∙◌, sym, inl, inr, Bool, true, false, ◌&&◌, not, Option, none, some,
  List, [], ◌∷◌, ◌++◌, arith, str_eq, str_eq_iff, if◌then◌else◌, Bool-cases, All,
}

abbrev pub Table {ℓ} : Type ℓ → Type ℓ
Table V = List (String × V)

module _ {ℓ} {V : Type ℓ} where
  -- `table[key]`
  unfoldable pub get : String → Table V → Option V
  get k [] = none
  get k ((j, v) ∷ m) = if str_eq j k then some v else get k m

  -- `table[key] = value`
  unfoldable pub put : String → V → Table V → Table V
  put k v [] = (k, v) ∷ []
  put k v ((j, w) ∷ m) = if str_eq j k then (k, v) ∷ m else (j, w) ∷ put k v m

  -- `Object.keys(table).forEach(key => { if (...) delete table[key] })`, for the values to keep
  unfoldable pub keep : (String → V → Bool) → Table V → Table V
  keep p [] = []
  keep p ((j, v) ∷ m) = let rest = keep p m in if p j v then (j, v) ∷ rest else rest

  -- `delete table[key]`
  unfoldable pub remove : String → Table V → Table V
  unfolding keep
  remove k = keep (λ j v. not (str_eq j k))

  -- `Object.keys(table).some(...)` as a test
  unfoldable pub any : (String → V → Bool) → Table V → Bool
  any p [] = false
  any p ((j, v) ∷ m) = if p j v then true else any p m

  -- `table[key].field = ...` for every value
  unfoldable pub update_all : (String → V → V) → Table V → Table V
  update_all f [] = []
  update_all f ((j, v) ∷ m) = (j, f j v) ∷ update_all f m
