-- ===== src/Csrf/Tokens.antt =====
-- src/services/csrf.rs: which submissions are accepted.
use didicafe.Base.{
  ℕ, ◌-◌, ◌≤◌, ◌<◌, ◌≡◌, ◌↔◌, ◌∙◌, true, some, Str, str_eq, to_lowercase, arith, beq_refl,
  Option-cases,
}
use didicafe.Base.Map
use didicafe.Csrf.{
  PortalCsrfStore, CsrfEntry, csrf_token_ttl, generate, get_or_generate, validate, keep_fresh,
}

-- No MAC stands twice in the store.
abbrev pub IsValid : PortalCsrfStore → Type 0
IsValid s = Map.Distinct s.tokens

pub generate-IsValid :
    (s : PortalCsrfStore) (mac : Str) (now : ℕ) (token : Str)
    → IsValid s
    → IsValid (generate s mac now token).1
unfolding generate
generate-IsValid s mac now token v =
    Map.insert-Distinct _ _ _ (Map.retain-Distinct (keep_fresh now) s.tokens v)

pub validate-IsValid :
    (s : PortalCsrfStore) (mac submitted : Str) (now : ℕ)
    → IsValid s
    → IsValid (validate s mac submitted now).1
unfolding validate
validate-IsValid s mac submitted now v = Map.remove-Distinct _ s.tokens v

get-generate :
    (s : PortalCsrfStore) (mac : Str) (now : ℕ) (token : Str)
    → Map.get (to_lowercase mac) (generate s mac now token).1.tokens
      ≡ some (record { token = token; created_at = now })
unfolding generate
get-generate s mac now token =
    Map.get-insert (to_lowercase mac) (to_lowercase mac) _ _
    ∙ ground (arith, beq_refl (to_lowercase mac))

-- After a token is generated for a MAC, a submission under that MAC (in any case of its letters) is
-- accepted exactly when it is that token and the token is at most `csrf_token_ttl` old.
pub validate-generate :
    (s : PortalCsrfStore) (mac again : Str) (now later : ℕ) (token submitted : Str)
    → to_lowercase again ≡ to_lowercase mac
    → ((validate (generate s mac now token).1 again submitted later).0 ≡ true)
      ↔ ((submitted ≡ token) × (later - now ≤ csrf_token_ttl))
unfolding validate
validate-generate s mac again now later token submitted e =
    ground (arith, e, get-generate s mac now token, str_eq.equal_iff token submitted)

-- The token that is returned is the one that is stored.
issued :
    (s : PortalCsrfStore) (mac : Str) (now : ℕ) (fresh : Str) (e : CsrfEntry)
    → Map.get (to_lowercase mac) (get_or_generate s mac now fresh).1.tokens ≡ some e
    → e.token ≡ (get_or_generate s mac now fresh).0
unfolding get_or_generate
issued s mac now fresh e found =
    ground (arith, Option-cases (Map.get (to_lowercase mac) s.tokens), get-generate s mac now fresh)

again :
    (s : PortalCsrfStore) (mac : Str) (later : ℕ) (other : Str) (e : CsrfEntry)
    → Map.get (to_lowercase mac) s.tokens ≡ some e
    → later - e.created_at < csrf_token_ttl
    → get_or_generate s mac later other ≡ (e.token, s)
unfolding get_or_generate
again s mac later other e found young = ground arith

accepted :
    (s : PortalCsrfStore) (mac : Str) (later : ℕ) (e : CsrfEntry)
    → Map.get (to_lowercase mac) s.tokens ≡ some e
    → later - e.created_at < csrf_token_ttl
    → (validate s mac e.token later).0 ≡ true
unfolding validate
accepted s mac later e found young = ground (arith, beq_refl e.token)

-- Pages that are fetched back to back show one token: while the entry that `get_or_generate` left
-- for a MAC is younger than the lifetime, calling it again returns the same token and changes
-- nothing, and that token is accepted.
pub get_or_generate_stable :
    (s : PortalCsrfStore) (mac : Str) (now later : ℕ) (fresh other : Str) (e : CsrfEntry)
    → Map.get (to_lowercase mac) (get_or_generate s mac now fresh).1.tokens ≡ some e
    → later - e.created_at < csrf_token_ttl
    → (get_or_generate (get_or_generate s mac now fresh).1 mac later other
        ≡ get_or_generate s mac now fresh)
      × ((validate
            (get_or_generate s mac now fresh).1
            mac
            (get_or_generate s mac now fresh).0
            later).0
          ≡ true)
get_or_generate_stable s mac now later fresh other e found young =
    let s' = (get_or_generate s mac now fresh).1 in
    rw (← issued s mac now fresh e found)
      (again s' mac later other e found young, accepted s' mac later e found young)
