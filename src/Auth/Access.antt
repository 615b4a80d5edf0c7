-- ===== src/Auth/Access.antt =====
-- Lemmas on the token and the outcome of a request in auth.ts.
use private_agent_platform.Base.{
  String, true, false, ◌++◌, Option, none, some, ◌≡◌, refl, ◌∙◌, ap, inl, inr, codes, text_eq_iff,
  strip_prefix, strip_prefix-append, arith, Option-cases,
}
use private_agent_platform.Auth.{
  Store, Clock, next, authenticate, is_authorized, expected_token, bearer_token,
}

is_authorized-token :
    (header expected : Option String)
    → is_authorized header expected ≡ true
    → (h e : String) × (header ≡ some h)
      × (expected ≡ some e)
      × (codes h ≡ codes "Bearer " ++ codes e)
unfolding is_authorized bearer_token
is_authorized-token none expected p = cc
is_authorized-token (some h) none p = ground arith
is_authorized-token (some h) (some e) p =
    elim (Option-cases (strip_prefix (codes "Bearer ") (codes h))) [
      | inl miss ↦ absurd (ground arith)
      | inr (t, hit) ↦ (
        h,
        e,
        refl,
        refl,
        strip_prefix-append (codes "Bearer ") (codes h) t hit
            ∙ ap (◌++◌ (codes "Bearer ")) ((text_eq_iff t (codes e)).0 (ground arith)),
      )
    ]

-- Outside the exempt test environment a request passes only if its header is `Bearer ` followed by
-- exactly the expected token, which is the override or else the configured one.
pub authenticate-next :
    (clock : Clock) (ip : String) (header override config : Option String) (store : Store)
    → (authenticate false clock ip header override config store).1 ≡ next
    → (h e : String) × (header ≡ some h)
      × (expected_token override config ≡ some e)
      × (codes h ≡ codes "Bearer " ++ codes e)
unfolding authenticate
authenticate-next clock ip header override config store p =
    is_authorized-token header (expected_token override config) (ground arith)
