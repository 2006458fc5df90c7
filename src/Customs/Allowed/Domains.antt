-- ===== src/Customs/Allowed/Domains.antt =====
-- Which emails are allowed.
use Prim.Native.Char.{Char, code}
use Prim.Native.String.append
use Prim.Native.String.{◌++◌ as string_append, [], ◌∷◌}
use fxa_local_dev.Prelude.{
  String, ◌≡◌, refl, Bool, true, false, ◌||◌, none, some, List, arith, ◌==◌, if◌then◌else◌,
}
use fxa_local_dev.Customs.Objects.{contains, has_key, inherited}
use fxa_local_dev.Customs.Allowed.{after_at, match_domain, has_line_end, is_allowed_email, is_empty}

abbrev pub has_at : String → Bool
has_at [] = false
has_at (c ∷ s) = code c == b'@' || has_at s

abbrev pub at_sign : Char
at_sign = "@"

after_at-none : (begun : Bool) (s : String) → has_at s ≡ false → after_at begun s ≡ none
unfolding after_at
after_at-none begun [] h = refl
after_at-none begun (c ∷ s) h = ground (arith, h, after_at-none true s)

after_at-append :
    (begun : Bool) (l d : String)
    → has_at d ≡ false
    → is_empty d ≡ false
    → begun || (if is_empty l then false else true) ≡ true
    → after_at begun (string_append l (at_sign ∷ d)) ≡ some d
unfolding after_at
after_at-append begun [] d no_at full start =
    rw append.nil (ground (arith, after_at-none true d no_at, no_at, full, start))
after_at-append begun (c ∷ l) d no_at full start =
    rw append.cons (ground (arith, after_at-append true l d no_at full refl))

has_line_end-append :
    (l d : String)
    → has_line_end l ≡ false
    → has_line_end d ≡ false
    → has_line_end (string_append l (at_sign ∷ d)) ≡ false
unfolding has_line_end
has_line_end-append [] d h k = rw append.nil k
has_line_end-append (c ∷ l) d h k =
    rw append.cons (ground (arith, h, has_line_end-append l d (ground (arith, h)) k))

match_domain_email :
    (l d : String)
    → is_empty l ≡ false
    → is_empty d ≡ false
    → has_at d ≡ false
    → has_line_end l ≡ false
    → has_line_end d ≡ false
    → match_domain (string_append l (at_sign ∷ d)) ≡ some d
unfolding match_domain
match_domain_email l d some_l some_d no_at one_line one_line' =
    rw (has_line_end-append l d one_line one_line')
      (after_at-append false l d no_at some_d (rw some_l refl))

-- An email of a local part and a domain, neither of them empty and the domain without an `@`, is
-- allowed just when its domain is listed or is named like a member of `Object.prototype`.
pub allowed_email_exact :
    (domains : List String) (l d : String)
    → is_empty l ≡ false
    → is_empty d ≡ false
    → has_at d ≡ false
    → has_line_end l ≡ false
    → has_line_end d ≡ false
    → is_allowed_email domains (string_append l (at_sign ∷ d))
      ≡ (contains d domains || contains d inherited)
unfolding is_allowed_email has_key
allowed_email_exact domains l d some_l some_d no_at one_line one_line' =
    rw (match_domain_email l d some_l some_d no_at one_line one_line', is_allowed_email) refl
