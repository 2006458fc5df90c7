-- ===== src/AuthDb/OneEach.antt =====
-- Tables that hold at most one item for each account.
use fxa_local_dev.Prelude.{
  ap, String, ◌≡◌, inl, inr, Bool, true, false, some, [], ◌∷◌, arith, str_eq, str_eq_iff,
  Bool-cases,
}
use fxa_local_dev.AuthDb.Table.{Table, get, put, keep}
use fxa_local_dev.AuthDb.Accounts.{delete_by_uid}

module _ {ℓ} {V : Type ℓ} (uid_of : V → String) where
  -- No item is the account's.
  abbrev pub NoneOf : String → Table V → Type 0
  NoneOf uid [] = Unit
  NoneOf uid ((k, v) ∷ m) = (str_eq (uid_of v) uid ≡ false) × NoneOf uid m

  abbrev pub OneEach : Table V → Type 0
  OneEach [] = Unit
  OneEach ((k, v) ∷ m) = NoneOf (uid_of v) m × OneEach m

  pub NoneOf-get :
      (uid k : String) (v : V) (m : Table V)
      → NoneOf uid m
      → get k m ≡ some v
      → str_eq (uid_of v) uid ≡ false
  unfolding get
  NoneOf-get uid k v [] h e = cc
  NoneOf-get uid k v ((j, w) ∷ m) h e = elim (Bool-cases (str_eq j k)) [
    | inl same ↦ ground (arith, same, e, h)
    | inr other ↦ ground (arith, other, e, NoneOf-get uid k v m h.1)
  ]

  pub delete_by_uid-NoneOf : (uid : String) (m : Table V) → NoneOf uid (delete_by_uid uid_of uid m)
  unfolding delete_by_uid keep
  delete_by_uid-NoneOf uid [] = tt
  delete_by_uid-NoneOf uid ((k, v) ∷ m) = ground (arith, delete_by_uid-NoneOf uid m)

  keep-NoneOf :
      (p : String → V → Bool) (uid : String) (m : Table V) → NoneOf uid m → NoneOf uid (keep p m)
  unfolding keep
  keep-NoneOf p uid [] h = tt
  keep-NoneOf p uid ((k, v) ∷ m) h = ground (arith, h, keep-NoneOf p uid m h.1)

  pub keep-OneEach : (p : String → V → Bool) (m : Table V) → OneEach m → OneEach (keep p m)
  unfolding keep
  keep-OneEach p [] h = tt
  keep-OneEach p ((k, v) ∷ m) h =
      ground (arith, h, keep-NoneOf p (uid_of v) m h.0, keep-OneEach p m h.1)

  put-NoneOf :
      (k : String) (v : V) (uid : String) (m : Table V)
      → str_eq (uid_of v) uid ≡ false
      → NoneOf uid m
      → NoneOf uid (put k v m)
  unfolding put
  put-NoneOf k v uid [] e h = (e, tt)
  put-NoneOf k v uid ((j, w) ∷ m) e h = ground (arith, e, h, put-NoneOf k v uid m e h.1)

  pub put-OneEach :
      (k : String) (v : V) (m : Table V) → NoneOf (uid_of v) m → OneEach m → OneEach (put k v m)
  unfolding put
  put-OneEach k v [] n h = (tt, tt)
  put-OneEach k v ((j, w) ∷ m) n h = ground (
    arith,
    n,
    h,
    str_eq_iff (uid_of v) (uid_of w),
    str_eq_iff (uid_of w) (uid_of v),
    put-NoneOf k v (uid_of w) m,
    put-OneEach k v m n.1 h.1,
  )

  -- An item may change as long as it stays with its account.
  pub put_same-OneEach :
      (k : String) (v w : V) (m : Table V)
      → get k m ≡ some w
      → uid_of v ≡ uid_of w
      → OneEach m
      → OneEach (put k v m)
  unfolding put get
  put_same-OneEach k v w [] e same h = cc
  put_same-OneEach k v w ((j, x) ∷ m) e same h = elim (Bool-cases (str_eq j k)) [
    | inl here ↦ ground (arith, here, e, h, same, ap uid_of)
    | inr there ↦ ground (
      arith,
      there,
      e,
      h,
      same,
      ap (λ u. str_eq u (uid_of x)) same,
      NoneOf-get (uid_of x) k w m h.0,
      put-NoneOf k v (uid_of x) m,
      put_same-OneEach k v w m,
    )
  ]

  -- Two items of one account are one.
  pub OneEach-unique :
      (k j : String) (v w : V) (m : Table V)
      → OneEach m
      → get k m ≡ some v
      → get j m ≡ some w
      → str_eq (uid_of v) (uid_of w) ≡ true
      → str_eq k j ≡ true
  unfolding get
  OneEach-unique k j v w [] h e e' same = cc
  OneEach-unique k j v w ((i, x) ∷ m) h e e' same = elim (Bool-cases (str_eq i k)) [
    | inl first ↦ elim (Bool-cases (str_eq i j)) [
      | inl both ↦ ground (arith, first, both, str_eq_iff i k, str_eq_iff i j, str_eq_iff k j)
      | inr second ↦ absurd (
          ground (
            arith,
            first,
            second,
            e,
            e',
            h,
            same,
            ap uid_of,
            str_eq_iff (uid_of v) (uid_of w),
            str_eq_iff (uid_of w) (uid_of x),
            NoneOf-get (uid_of x) j w m h.0,
          ))
    ]
    | inr later ↦ elim (Bool-cases (str_eq i j)) [
      | inl first ↦ absurd (
          ground (
            arith,
            first,
            later,
            e,
            e',
            h,
            same,
            ap uid_of,
            str_eq_iff (uid_of v) (uid_of w),
            str_eq_iff (uid_of v) (uid_of x),
            NoneOf-get (uid_of x) k v m h.0,
          ))
      | inr both ↦
          OneEach-unique k j v w m h.1 (ground (arith, later, e)) (ground (arith, both, e')) same
    ]
  ]
