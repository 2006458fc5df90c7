-- ===== src/AuthDb/Links.antt =====
-- How the tables of accounts, of their primary addresses and of the addresses agree.
use mathlib.Core.Option.{some-injective}
use fxa_local_dev.Prelude.{
  String, ◌≡◌, refl, sym, ap, ◌∙◌, subst, inl, inr, false, none, some, arith, str_eq, str_eq_iff,
  Bool-cases,
}
use fxa_local_dev.AuthDb.Table.{Table, get, put, remove}
use fxa_local_dev.AuthDb.Table.Laws.{get-put, get-put_self, put_cases, remove_cases, get-remove}
use fxa_local_dev.AuthDb.Store.{Account, EmailEntry}

-- The email that an account was created with leads to it, the entry of that email is its own, and
-- every email that leads somewhere leads to the account that was created with it.
pub record Linked (accounts : Table Account) (index : Table String) (emails : Table EmailEntry)
    : Type 0 where
  pub indexed :
      (uid : String) (a : Account)
      → get uid accounts ≡ some a
      → get a.normalized_email index ≡ some uid
  pub owned :
      (uid : String) (a : Account) (e : EmailEntry)
      → get uid accounts ≡ some a
      → get a.normalized_email emails ≡ some e
      → e.uid ≡ uid
  pub listed :
      (email uid : String)
      → get email index ≡ some uid
      → (a : Account) × (get uid accounts ≡ some a) × (a.normalized_email ≡ email)

-- A key that is not there differs from one that is.
email_apart {ℓ} :
    {V : Type ℓ} (k j : String) (v : V) (m : Table V)
    → get k m ≡ none
    → get j m ≡ some v
    → str_eq k j ≡ false
email_apart k j v m gone there = elim (Bool-cases (str_eq k j)) [
  | inl same ↦ absurd (ground (arith, gone, there, ap (λ i. get i m) ((str_eq_iff k j).0 same)))
  | inr other ↦ other
]

get_apart {ℓ} :
    {V : Type ℓ} (k j : String) (v : V) (m : Table V)
    → str_eq k j ≡ false
    → get j (put k v m) ≡ get j m
get_apart k j v m other = ground (arith, other, get-put j k v m)

get_other_email {ℓ} :
    {V : Type ℓ} (k j : String) (v w : V) (m : Table V)
    → get k m ≡ none
    → get j m ≡ some w
    → get j (put k v m) ≡ some w
get_other_email k j v w m gone there = get_apart k j v m (email_apart k j w m gone there) ∙ there

-- Every entry of the first table is one of the second, with its account.
abbrev pub IsFrom : Table EmailEntry → Table EmailEntry → Type 0
IsFrom emails' emails =
    (key : String) (e' : EmailEntry)
    → get key emails' ≡ some e'
    → (e : EmailEntry) × (get key emails ≡ some e) × (e'.uid ≡ e.uid)

put_indexed :
    (accounts : Table Account) (uid : String) (a a' : Account)
    → get uid accounts ≡ some a
    → a'.normalized_email ≡ a.normalized_email
    → (other : String) (b : Account) → get other (put uid a' accounts) ≡ some b
    → (b' : Account) × (get other accounts ≡ some b') × (b.normalized_email ≡ b'.normalized_email)
put_indexed accounts uid a a' known same other b found = elim (Bool-cases (str_eq uid other)) [
  | inl is_uid ↦
      let is_other : uid ≡ other = (str_eq_iff uid other).0 is_uid in
      let is_a' : some a' ≡ some b = ground (arith, is_uid, found, get-put other uid a' accounts) in
      (
        a,
        subst (λ k. get k accounts ≡ some a) is_other known,
        ap (λ (c : Account). c.normalized_email) (sym (some-injective _ _ is_a')) ∙ same,
      )
  | inr is_not ↦ (b, ground (arith, is_not, found, get-put other uid a' accounts), refl)
]

module _ {accounts : Table Account} {index : Table String} {emails : Table EmailEntry} where
  pub Linked-emails :
      (emails' : Table EmailEntry)
      → IsFrom emails' emails
      → Linked accounts index emails
      → Linked accounts index emails'
  Linked-emails emails' from l = record {
    indexed = l.indexed;
    owned = λ uid a e' known found.
        let (e, found', same) = from a.normalized_email e' found in
        same ∙ l.owned uid a e known found';
    listed = l.listed;
  }

  -- An account that keeps the email it was created with may change.
  pub Linked-put :
      (uid : String) (a a' : Account)
      → get uid accounts ≡ some a
      → a'.normalized_email ≡ a.normalized_email
      → Linked accounts index emails
      → Linked (put uid a' accounts) index emails
  Linked-put uid a a' known same l = record {
    indexed = λ other b found.
        let (b', was, same') = put_indexed accounts uid a a' known same other b found in
        ap (λ k. get k index) same' ∙ l.indexed other b' was;
    owned = λ other b e found entry.
        let (b', was, same') = put_indexed accounts uid a a' known same other b found in
        l.owned other b' e was (ap (λ k. get k emails) (sym same') ∙ entry);
    listed = λ email other leads.
        let (b, was, named) = l.listed email other leads in
        elim (Bool-cases (str_eq uid other)) [
          | inl is_uid ↦
              let is_other : uid ≡ other = (str_eq_iff uid other).0 is_uid in
              let is_b : some a ≡ some b = sym known ∙ ap (λ k. get k accounts) is_other ∙ was in
              (
                a',
                ground (arith, is_uid, get-put other uid a' accounts),
                same ∙ ap (λ (c : Account). c.normalized_email) (some-injective _ _ is_b) ∙ named,
              )
          | inr is_not ↦ (b, ground (arith, is_not, was, get-put other uid a' accounts), named)
        ];
  }

  -- An entry may come under an email that no account was created with.
  pub Linked-put_email :
      (key : String) (e : EmailEntry)
      → ((uid : String) (a : Account)
          → get uid accounts ≡ some a
          → str_eq a.normalized_email key ≡ false)
      → Linked accounts index emails
      → Linked accounts index (put key e emails)
  Linked-put_email key e free l = record {
    indexed = l.indexed;
    owned = λ uid a e' known found. l.owned uid a e' known (
        ground (
          arith,
          found,
          free uid a known,
          str_eq_iff a.normalized_email key,
          str_eq_iff key a.normalized_email,
          get-put a.normalized_email key e emails,
        ));
    listed = l.listed;
  }

  -- A new account, where neither its uid nor its email was known.
  pub Linked-create :
      (uid : String) (a : Account) (e : EmailEntry)
      → get uid accounts ≡ none
      → get a.normalized_email index ≡ none
      → e.uid ≡ uid
      → Linked accounts index emails
      → Linked
          (put uid a accounts)
          (put a.normalized_email uid index)
          (put a.normalized_email e emails)
  Linked-create uid a e new free own l = record {
    indexed = λ other b found. elim (put_cases other uid a b accounts found) [
      | inl (is_other, is_b) ↦
          ap (λ (c : Account). get c.normalized_email (put a.normalized_email uid index)) (sym is_b)
          ∙ get-put_self a.normalized_email uid index
          ∙ ap some is_other
      | inr (is_not, known) ↦
          get_other_email a.normalized_email b.normalized_email uid other index free
            (l.indexed other b known)
    ];
    owned = λ other b e' found entry. elim (put_cases other uid a b accounts found) [
      | inl (is_other, is_b) ↦
          let is_e' : some e' ≡ some e =
            sym entry
            ∙ ap (λ (c : Account). get c.normalized_email (put a.normalized_email e emails))
                (sym is_b)
            ∙ get-put_self a.normalized_email e emails in
          ap (λ (c : EmailEntry). c.uid) (some-injective _ _ is_e') ∙ own ∙ is_other
      | inr (is_not, known) ↦ l.owned other b e' known (
          sym (
            get_apart a.normalized_email b.normalized_email e emails (
              email_apart a.normalized_email b.normalized_email other index free
                (l.indexed other b known)))
          ∙ entry)
    ];
    listed = λ email other leads. elim (put_cases email a.normalized_email uid other index leads) [
      | inl (is_email, is_other) ↦ (
        a,
        ap (λ k. get k (put uid a accounts)) (sym is_other) ∙ get-put_self uid a accounts,
        is_email,
      )
      | inr (is_not, known) ↦
          let (b, was, named) = l.listed email other known in
          (b, get_other_email uid other a b accounts new was, named)
    ];
  }

  -- An account that is gone, with the email that it was created with.
  pub Linked-delete :
      (uid : String) (a : Account)
      → get uid accounts ≡ some a
      → Linked accounts index emails
      → Linked (remove uid accounts) (remove a.normalized_email index) emails
  Linked-delete uid a known l = record {
    indexed = λ other b found.
        let (is_not, was) = remove_cases other uid b accounts found in
        let leads = l.indexed other b was in
        let leads_a = l.indexed uid a known in
        elim (Bool-cases (str_eq a.normalized_email b.normalized_email)) [
          | inl same ↦
              let is_other : some uid ≡ some other =
                sym leads_a
                ∙ ap (λ k. get k index) ((str_eq_iff a.normalized_email b.normalized_email).0 same)
                ∙ leads in
              absurd (ground (arith, is_not, str_eq_iff uid other, some-injective _ _ is_other))
          | inr apart ↦
              ground (arith, apart, leads, get-remove b.normalized_email a.normalized_email index)
        ];
    owned = λ other b e found entry.
        l.owned other b e (remove_cases other uid b accounts found).1 entry;
    listed = λ email other leads.
        let (is_not, led) = remove_cases email a.normalized_email other index leads in
        let (b, was, named) = l.listed email other led in
        elim (Bool-cases (str_eq uid other)) [
          | inl is_uid ↦
              let is_b : some a ≡ some b =
                sym known ∙ ap (λ k. get k accounts) ((str_eq_iff uid other).0 is_uid) ∙ was in
              absurd (
                ground (
                  arith,
                  is_not,
                  str_eq_iff a.normalized_email email,
                  ap (λ (c : Account). c.normalized_email) (some-injective _ _ is_b),
                  named,
                ))
          | inr is_other ↦ (b, ground (arith, is_other, was, get-remove other uid accounts), named)
        ];
  }
