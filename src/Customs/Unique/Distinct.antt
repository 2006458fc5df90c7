-- ===== src/Customs/Unique/Distinct.antt =====
-- The counting loops of lib/ip_record.js count different users, in whatever order these come.
use fxa_local_dev.Prelude.{
  ap, ◌+◌, ◌≤◌, String, ◌≡◌, refl, inl, inr, true, false, List, [], ◌∷◌, ◌++◌, arith, str_eq,
  str_eq_iff, if◌then◌else◌, Bool-cases,
}
use text.Mathlib.TextPositions.{eq_refl}
use fxa_local_dev.Customs.Objects.{contains, has_key}
use fxa_local_dev.Customs.Unique.{count_unseen}

-- Only which names were seen matters.
count_unseen-same :
    (s s' : List String) (us : List String)
    → ((u : String) → has_key u s ≡ has_key u s')
    → count_unseen s us ≡ count_unseen s' us
unfolding count_unseen has_key contains
count_unseen-same s s' [] same = refl
count_unseen-same s s' (v ∷ us) same = ground (
  arith,
  same v,
  count_unseen-same s s' us same,
  count_unseen-same (v ∷ s) (v ∷ s') us (λ u. ground (arith, same u)),
)

str_eq_eq : (u v : String) → str_eq u v ≡ true → u ≡ v
str_eq_eq u v h = (str_eq_iff u v).0 h

str_eq_sym : (u v : String) → str_eq u v ≡ str_eq v u
str_eq_sym u v = ground (arith, str_eq_iff u v, str_eq_iff v u)

pub has_key-again :
    (u w : String) (us : List String) → has_key u us ≡ true → has_key w (u ∷ us) ≡ has_key w us
unfolding has_key contains
has_key-again u w us h = elim (Bool-cases (str_eq u w)) [
  | inl same ↦ ground (arith, same, h, ap (λ v. has_key v us) (str_eq_eq u w same))
  | inr other ↦ ground (arith, other)
]

pub has_key-push :
    (u w : String) (us vs : List String)
    → has_key w us ≡ has_key w vs
    → has_key w (u ∷ us) ≡ has_key w (u ∷ vs)
unfolding has_key contains
has_key-push u w us vs h = ground (arith, h)

-- A name that was not seen yet counts once if it comes.
count_unseen-seen :
    (s : List String) (u : String) (us : List String)
    → has_key u s ≡ false
    → count_unseen s us ≡ count_unseen (u ∷ s) us + (if contains u us then 1 else 0)
unfolding count_unseen has_key contains
count_unseen-seen s u [] new = refl
count_unseen-seen s u (v ∷ us) new = elim (Bool-cases (str_eq u v)) [
  | inl same ↦
      let is_u = str_eq_iff u v in
      ground (
        arith,
        same,
        new,
        is_u,
        eq_refl u,
        eq_refl v,
        ap (λ w. has_key w s) (str_eq_eq u v same),
        ap (λ w. count_unseen (w ∷ s) us) (str_eq_eq u v same),
      )
  | inr other ↦ ground (
    arith,
    other,
    new,
    str_eq_sym u v,
    count_unseen-seen s u us new,
    count_unseen-seen (v ∷ s) u us (ground (arith, new, other, str_eq_sym u v)),
    count_unseen-same (u ∷ v ∷ s) (v ∷ u ∷ s) us (λ w. ground arith),
  )
]

-- A name in front of others counts if it is not among them, and is not a name that every object has.
pub count_unseen-cons :
    (u : String) (us : List String)
    → count_unseen [] (u ∷ us) ≡ (if has_key u us then 0 else 1) + count_unseen [] us
unfolding count_unseen has_key contains
count_unseen-cons u us = ground (arith, count_unseen-seen [] u us)

pub count_unseen-append : (xs us : List String) → count_unseen [] us ≤ count_unseen [] (xs ++ us)
unfolding count_unseen
count_unseen-append [] us = omega arith
count_unseen-append (x ∷ xs) us =
    omega (arith, count_unseen-cons x (xs ++ us), count_unseen-append xs us)
