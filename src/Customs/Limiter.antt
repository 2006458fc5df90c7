-- ===== src/Customs/Limiter.antt =====
-- What the records with one list of times promise, without their bookkeeping: a rate limiter that
-- remembers every event since the last ban. `trimmed_step` is the shape that the `update` methods of
-- lib/record.js and lib/sms_record.js share; `whole_step` is the specification.
use fxa_local_dev.Prelude.{
  ℕ, ◌+◌, ◌≤◌, String, ◌≡◌, refl, ap, ap₂, ◌∙◌, inl, inr, Bool, true, false, Option, some, List, [],
  ◌∷◌, ◌++◌, ltb, length, if◌then◌else◌, Bool-cases,
}
use fxa_local_dev.Customs.Time.{is_within, seconds_left}
use fxa_local_dev.Customs.Window.{trim}
use fxa_local_dev.Customs.Window.Trim.{recent}
use fxa_local_dev.Customs.Window.Covers.{
  Covers, Covers-later, IsPast, IsPast-later, IsPast-push, over_limit-Covers, trim-Covers,
}

pub record Limiter : Type 0 where
  pub rl : Option ℕ
  pub hits : List ℕ

pub record Bounds : Type 0 where
  pub limit : ℕ
  pub period : ℕ
  pub ban : ℕ

-- Requests with their times, not before `now`.
abbrev pub InOrder : ℕ → List (ℕ × String) → Type 0
InOrder now [] = Unit
InOrder now ((t, action) ∷ rest) = (now ≤ t) × InOrder t rest

-- The answers to a row of requests.
unfoldable pub run {ℓ} : {S : Type ℓ} → (ℕ → String → S → S × ℕ) → S → List (ℕ × String) → List ℕ
run step s [] = []
run step s ((t, action) ∷ rest) = let (s', answer) = step t action s in answer ∷ run step s' rest

module _ (b : Bounds) where
  abbrev banned : ℕ → Limiter × ℕ
  banned now = (record { rl = some now; hits = [] }, seconds_left (some now) b.ban now)

  -- A banned limiter waits; else one more event is too many, or is remembered in `hits`.
  abbrev decide : ℕ → Bool → Bool → Limiter → List ℕ → Limiter × ℕ
  decide now active over s hits =
      if active
      then (s, seconds_left s.rl b.ban now)
      else if over
      then banned now
      else (record { rl = s.rl; hits = hits }, 0)

  -- The specification: over the limit when more events than it lie within the period.
  unfoldable pub whole_hit : ℕ → Limiter → Limiter × ℕ
  whole_hit now s =
      decide now (is_within s.rl b.ban now) (ltb b.limit (recent now b.period (s.hits ++ now ∷ [])))
        s (s.hits ++ now ∷ [])

  unfoldable pub trimmed_hit : ℕ → Limiter → Limiter × ℕ
  trimmed_hit now s =
      let hits = trim now b.period (b.limit + 1) (s.hits ++ now ∷ []) in
      decide now (is_within s.rl b.ban now) (ltb b.limit (length hits)) s hits

  -- `kept` has the ban of `whole`, and its events but for stale ones.
  pub record Refines (now : ℕ) (whole kept : Limiter) : Type 0 where
    pub rl : kept.rl ≡ whole.rl
    pub past : IsPast now whole.hits
    pub covers : Covers now b.period whole.hits kept.hits

  pub Refines-later :
      {now later : ℕ} {whole kept : Limiter}
      → now ≤ later
      → Refines now whole kept
      → Refines later whole kept
  Refines-later {now} {later} {whole} {kept} h r = record {
    rl = r.rl;
    past = IsPast-later now later whole.hits h r.past;
    covers = Covers-later now later b.period whole.hits kept.hits h r.covers;
  }

  decide-Refines :
      (now : ℕ) (active over : Bool) (whole kept : Limiter) (all some_hits : List ℕ)
      → Refines now whole kept
      → IsPast now all
      → (over ≡ false → Covers now b.period all some_hits)
      → ((decide now active over kept some_hits).1 ≡ (decide now active over whole all).1)
        × Refines now (decide now active over whole all).0 (decide now active over kept some_hits).0
  decide-Refines now true over whole kept all some_hits r past covers =
      (ap (λ t. seconds_left t b.ban now) r.rl, r)
  decide-Refines now false true whole kept all some_hits r past covers =
      (refl, record { rl = refl; past = (tt, tt); covers = ([], refl, tt) })
  decide-Refines now false false whole kept all some_hits r past covers =
      (refl, record { rl = r.rl; past = past; covers = covers refl })

  pub hit-Refines :
      (now : ℕ) (whole kept : Limiter)
      → Refines now whole kept
      → ((trimmed_hit now kept).1 ≡ (whole_hit now whole).1)
        × Refines now (whole_hit now whole).0 (trimmed_hit now kept).0
  unfolding whole_hit trimmed_hit
  hit-Refines now whole kept r =
      let same = over_limit-Covers now b.period b.limit whole.hits kept.hits r.past r.covers in
      rw (ap (λ t. is_within t b.ban now) r.rl, same)
        (decide-Refines now _ _ whole kept _ _ r (IsPast-push now whole.hits r.past) (λ below.
          trim-Covers now b.period b.limit whole.hits kept.hits r.past r.covers (same ∙ below)))

module _ (b : Bounds) (counted : String → Bool) where
  abbrev pub step_of : (ℕ → Limiter → Limiter × ℕ) → ℕ → String → Limiter → Limiter × ℕ
  step_of hit now action s = if counted action then hit now s else (s, 0)

  step-Refines :
      (now : ℕ) (action : String) (whole kept : Limiter)
      → Refines b now whole kept
      → ((step_of (trimmed_hit b) now action kept).1 ≡ (step_of (whole_hit b) now action whole).1)
        × Refines b now
            (step_of (whole_hit b) now action whole).0
            (step_of (trimmed_hit b) now action kept).0
  step-Refines now action whole kept r = elim (Bool-cases (counted action)) [
    | inl yes_counted ↦ rw yes_counted (hit-Refines b now whole kept r)
    | inr not_counted ↦ rw not_counted (refl, r)
  ]

  -- Whatever is asked, in the order of time, forgetting stale events changes no answer.
  pub run-Refines :
      (now : ℕ) (whole kept : Limiter) (requests : List (ℕ × String))
      → Refines b now whole kept
      → InOrder now requests
      → run (step_of (trimmed_hit b)) kept requests ≡ run (step_of (whole_hit b)) whole requests
  unfolding run
  run-Refines now whole kept [] r h = refl
  run-Refines now whole kept ((t, action) ∷ rest) r (le, h) =
      let next = step-Refines t action whole kept (Refines-later b le r) in
      ap₂ ◌∷◌ next.0 (run-Refines t _ _ rest next.1 h)
