-- ===== src/AuthDb/Valid.antt =====
-- What holds of the store of lib/db/mem.js between calls.
pub mod Tokens
pub mod Accounts
pub mod Devices
pub mod Emails
pub mod Codes
pub mod Verification
pub mod Calls
use fxa_local_dev.Prelude.{
  String, ◌≡◌, ◌≢◌, refl, sym, ap, ◌∙◌, subst, inl, inr, Bool, true, false, ◌||◌, not, Option, none,
  some, List, [], ◌∷◌, arith, str_eq, str_eq_iff, if◌then◌else◌, Bool-cases, Option-cases,
}
use fxa_local_dev.AuthDb.Table.{Table, get, put, keep, remove}
use fxa_local_dev.AuthDb.Table.Laws.{IsTable, put-IsTable, keep-IsTable}
use fxa_local_dev.AuthDb.Store.{
  Account, Store, Answer, Reply, ok, err, reject, done, not_found, with_account, empty_store,
  is_set,
}
use fxa_local_dev.AuthDb.Links.{Linked, Linked-put}
use fxa_local_dev.AuthDb.OneEach.{OneEach}

-- The tables of accounts and addresses agree; there is at most one token of each kind to change or
-- reset an account's password; and no key of the addresses or of the unverified tokens stands twice.
unfoldable pub IsValid : Store → Type 0
IsValid s =
    Linked s.accounts s.uid_by_normalized_email s.emails
    × OneEach (λ t. t.uid) s.password_forgot_tokens
    × OneEach (λ t. t.uid) s.password_change_tokens
    × OneEach (λ t. t.uid) s.account_reset_tokens
    × IsTable s.emails
    × IsTable s.unverified_tokens

pub empty_store-IsValid : IsValid empty_store
unfolding IsValid empty_store get
empty_store-IsValid = (
  record { indexed = λ uid a e. cc; owned = λ uid a e h. cc; listed = λ email uid h. cc },
  tt,
  tt,
  tt,
  tt,
  tt,
)

-- A method that begins with `getAccountByUid`.
pub with_account-IsValid :
    {A : Type 0} (uid : String) (s : Store) (f : Account → Answer A)
    → IsValid s
    → ((a : Account) → get uid s.accounts ≡ some a → IsValid (f a).1)
    → IsValid (with_account uid s f).1
unfolding with_account
with_account-IsValid uid s f v h = elim (Option-cases (get uid s.accounts)) [
  | inl unknown ↦ rw (unknown, with_account) v
  | inr (a, known) ↦ rw (known, with_account) (h a known)
]

-- A test that may reject.
pub if-IsValid :
    {A : Type 0} (b : Bool) (x y : Answer A)
    → (b ≡ true → IsValid x.1)
    → (b ≡ false → IsValid y.1)
    → IsValid (if b then x else y).1
if-IsValid true x y h k = h refl
if-IsValid false x y h k = k refl

-- A change of one account.
pub set_account-IsValid :
    (uid : String) (a a' : Account) (s : Store)
    → get uid s.accounts ≡ some a
    → a'.normalized_email ≡ a.normalized_email
    → IsValid s
    → IsValid (record s { accounts = put uid a' s.accounts })
unfolding IsValid
set_account-IsValid uid a a' s known same v =
    (Linked-put uid a a' known same v.0, v.1, v.2, v.3, v.4, v.5)
