-- ===== src/Customs/Unique/Kept.antt =====
-- What `_trim` of lib/ip_record.js keeps, and what is counted of it.
use fxa_local_dev.Prelude.{
  ℕ, zero, suc, ◌+◌, ◌≤◌, ◌<◌, ◌⊎◌, String, ◌≡◌, refl, inl, inr, ap, sym, ◌∙◌, subst, ◌&&◌, some,
  List, [], ◌∷◌, ◌++◌, map, arith, ltb, leb, length, get_elem?, drop, take, drop_at, drop-length,
  take-append-drop, All, Ascending, if◌then◌else◌, Bool-cases,
}
use mathlib.Core.Option.{some-injective}
use fxa_local_dev.Customs.Objects.{has_key}
use fxa_local_dev.Customs.Unique.{count_unseen, is_fresh, user_of, trim_unique_from, trim_unique}
use fxa_local_dev.Customs.Unique.Distinct.{
  count_unseen-cons, count_unseen-append, has_key-again, has_key-push,
}

module _ {ℓ} {A : Type ℓ} (time : A → ℕ) (user : A → String) (now interval : ℕ) where
  -- The users of the events that lie within the interval.
  unfoldable pub recent_users : List A → List String
  recent_users [] = []
  recent_users (a ∷ items) =
      if ltb now (time a + interval) then user a ∷ recent_users items else recent_users items

  abbrev IsFresh : A → Type 0
  IsFresh a = now < time a + interval

  recent_users-append :
      (xs ys : List A) → recent_users (xs ++ ys) ≡ recent_users xs ++ recent_users ys
  unfolding recent_users
  recent_users-append [] ys = refl
  recent_users-append (x ∷ xs) ys = rw (recent_users-append xs ys) ground arith

  recent_users-IsFresh : (xs : List A) → All IsFresh xs → recent_users xs ≡ map user xs
  unfolding recent_users
  recent_users-IsFresh [] h = refl
  recent_users-IsFresh (x ∷ xs) (p, h) = ground (arith, p, recent_users-IsFresh xs h)

  recent_users_stale : (xs : List A) → All (λ a. time a + interval ≤ now) xs → recent_users xs ≡ []
  unfolding recent_users
  recent_users_stale [] h = refl
  recent_users_stale (x ∷ xs) (p, h) = ground (arith, p, recent_users_stale xs h)

module _ {ℓ} {A : Type ℓ} (time : A → ℕ) (user : A → String) (now interval max_unique : ℕ) where
  abbrev recent : List A → List String
  recent = recent_users time user now interval

  abbrev users : List A → List String
  users = map user

  abbrev count : List A → ℕ
  count items = count_unseen [] (users items)

  abbrev Stops : List A → ℕ → Type ℓ
  Stops items k =
      (k ≡ 0)
      ⊎ ((max_unique < count (drop k items))
          ⊎ ((j : ℕ) × (a : A) × (k ≡ suc j)
              × (get_elem? items j ≡ some a)
              × (time a + interval ≤ now)))

  trim_from-Stops :
      (items : List A) (i n : ℕ) (seen : List String)
      → i ≤ length items
      → n ≡ count (drop i items)
      → ((u : String) → has_key u seen ≡ has_key u (users (drop i items)))
      → All (IsFresh time user now interval) (drop i items)
      → All
          (IsFresh time user now interval)
          (drop (trim_unique_from time user now interval max_unique items i n seen) items)
        × Stops items (trim_unique_from time user now interval max_unique items i n seen)
  unfolding trim_unique_from is_fresh user_of
  trim_from-Stops items zero n seen le counted same h = (h, inl refl)
  trim_from-Stops items (suc i) n seen le counted same h =
      let (a, at, d) = drop_at i items (omega arith) in
      elim (Bool-cases (ltb now (time a + interval) && leb n max_unique)) [
        | inl more ↦
            rw (at, more)
              (elim (Bool-cases (has_key (user a) seen)) [
                | inl again ↦ rw again (
                    trim_from-Stops items i n seen (omega arith)
                      (rw d (
                        ground (
                          arith,
                          counted,
                          again,
                          same (user a),
                          count_unseen-cons (user a) (users (drop (suc i) items)),
                        )))
                      (λ w.
                        rw d
                          (same w ∙ sym (has_key-again (user a) w _ (sym (same (user a)) ∙ again))))
                      (rw d (ground arith, h)))
                | inr new ↦ rw new (
                    trim_from-Stops items i (suc n) (user a ∷ seen) (omega arith)
                      (rw d (
                        ground (
                          arith,
                          counted,
                          new,
                          same (user a),
                          count_unseen-cons (user a) (users (drop (suc i) items)),
                        )))
                      (λ w. rw d (has_key-push (user a) w _ _ (same w))) (rw d (ground arith, h)))
              ])
        | inr stop ↦
            rw (at, stop)
              (
                h,
                elim (Bool-cases (leb n max_unique)) [
                  | inl room_left ↦ inr (inr (i, a, refl, at, ground arith))
                  | inr full ↦ inr (inl (ground arith))
                ],
              )
      ]

  earlier :
      (t : ℕ) (xs : List A) (j : ℕ) (a : A)
      → All (λ y. t ≤ y) (map time xs)
      → get_elem? xs j ≡ some a
      → t ≤ time a
  earlier t [] j a h e = cc
  earlier t (x ∷ xs) zero a (p, h) e = subst (λ b. t ≤ time b) (some-injective _ _ e) p
  earlier t (x ∷ xs) (suc j) a (p, h) e = earlier t xs j a h e

  take_stale :
      (items : List A) (j : ℕ) (a : A)
      → Ascending (map time items)
      → get_elem? items j ≡ some a
      → time a + interval ≤ now
      → All (λ b. time b + interval ≤ now) (take (suc j) items)
  take_stale [] j a asc e s = tt
  take_stale (x ∷ xs) zero a asc e s =
      (subst (λ b. time b + interval ≤ now) (sym (some-injective _ _ e)) s, tt)
  take_stale (x ∷ xs) (suc j) a (above, asc) e s =
      (omega (arith, earlier (time x) xs j a above e), take_stale xs j a asc e s)

  count_kept :
      (items : List A) (k : ℕ)
      → Ascending (map time items)
      → All (IsFresh time user now interval) (drop k items)
      → Stops items k
      → ltb max_unique (count (drop k items)) ≡ ltb max_unique (count_unseen [] (recent items))
  count_kept items k asc fresh stops =
      let parts : recent items ≡ recent (take k items) ++ users (drop k items) =
        ap recent (sym (take-append-drop k items))
        ∙ recent_users-append time user now interval (take k items) (drop k items)
        ∙ ap (λ us. recent (take k items) ++ us)
            (recent_users-IsFresh time user now interval (drop k items) fresh) in
      rw parts (elim stops [
        | inl start ↦ rw start (unfold recent_users in refl)
        | inr (inl full) ↦
            ground (arith, full, count_unseen-append (recent (take k items)) (users (drop k items)))
        | inr (inr (j, a, at_k, at, stale)) ↦
            rw
              (recent_users_stale time user now interval (take k items) (
                subst (λ i. All (λ b. time b + interval ≤ now) (take i items)) (sym at_k)
                  (take_stale items j a asc at stale)))
              refl
      ])

  trim_unique_lem :
      (items : List A)
      → trim_unique time user now interval max_unique items
        ≡ drop (trim_unique_from time user now interval max_unique items (length items) 0 []) items
  unfolding trim_unique trim_unique_from
  trim_unique_lem [] = refl
  trim_unique_lem (x ∷ xs) = ground arith

  -- On events from the oldest to the newest, more than `max_unique` different users are counted of
  -- what `_trim` keeps just when so many are among the events within the interval. (Users named like
  -- a member of `Object.prototype` do not count.)
  pub count-trim_unique :
      (items : List A)
      → Ascending (map time items)
      → ltb max_unique
          (count_unseen [] (map user (trim_unique time user now interval max_unique items)))
        ≡ ltb max_unique (count_unseen [] (recent items))
  count-trim_unique items asc =
      let (fresh, stops) =
        trim_from-Stops items (length items) 0 [] (omega arith)
          (rw drop-length (unfold count_unseen in refl)) (λ u. rw drop-length refl)
          (rw drop-length tt) in
      rw (trim_unique_lem items) (
        count_kept items
          (trim_unique_from time user now interval max_unique items (length items) 0 []) asc fresh
          stops)
