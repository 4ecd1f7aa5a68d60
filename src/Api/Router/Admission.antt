-- ===== src/Api/Router/Admission.antt =====
-- Which requests reach the handler of a route.
use training_ops_scheduling.Base.{
  String, true, false, ◌≡◌, ◌≢◌, refl, sym, ap, ◌∙◌, subst, str_eq, str_eq_iff, ◌⊎◌, inl, inr,
  Option, none, some, List, arith,
}
use training_ops_scheduling.Clock.{Time}
use training_ops_scheduling.Access
use training_ops_scheduling.Access.{
  Decision, Listed, normalize, require_role, require_role_branches,
}
use training_ops_scheduling.Auth.Store.{SessionStore}
use training_ops_scheduling.Security.Token.{SessionClaims, Codec}
use training_ops_scheduling.Api.Guard.{
  HttpRequest, Cookie, Passage, refused, passed, Strings, is_public, auth_guard, with_claims,
}
use training_ops_scheduling.Api.Guard.Entry.{Trusted, auth_guard-passed}
use training_ops_scheduling.Api.Router.{
  Method, Route, public_paths, routes, check_role, enter, serve,
}

-- The role is an administrator's, or reads like one of the list's.
abbrev pub HasRole : Strings → List String → String → Type 0
HasRole strings roles role =
    (normalize strings.to_lower strings.trim_space role ≡ "admin")
    ⊎ Listed strings.to_lower strings.trim_space
        (normalize strings.to_lower strings.trim_space role) roles

module _ (strings : Strings) (codec : Codec) {S : Type 0} (sessions : SessionStore S)
    (signing_key : String) where
  check_role-passed :
      (roles : List String) (p : Passage) (r : HttpRequest) (cookie : Option Cookie)
      → check_role strings codec sessions signing_key (some roles) p ≡ passed r cookie
      → (p ≡ passed r cookie) × HasRole strings roles r.role_header
  unfolding check_role
  check_role-passed roles (refused response) r cookie h = absurd (cc)
  check_role-passed roles (passed q c) r cookie h =
      let decided = require_role strings.to_lower strings.trim_space roles q.role_header in
      elim (Decision-cases decided) [
        | inl (text, e) ↦ absurd (let k = rw (e, check_role) at h in cc)
        | inr (inl (text, e)) ↦ absurd (let k = rw (e, check_role) at h in cc)
        | inr (inr e) ↦
            let k = rw (e, check_role) at h in
            let same : q ≡ r = cc in
            let may =
              (require_role_branches strings.to_lower strings.trim_space roles q.role_header).0.0
                e in
            (k, subst (λ x. HasRole strings roles x.role_header) same may.1)
      ]
    where
      Decision-cases :
          (d : Decision)
          → ((text : String) × (d ≡ Access.unauthorized text))
            ⊎ (((text : String) × (d ≡ Access.forbidden text)) ⊎ (d ≡ Access.proceed))
      Decision-cases Access.proceed = inr (inr refl)
      Decision-cases (Access.unauthorized text) = inl (text, refl)
      Decision-cases (Access.forbidden text) = inr (inl (text, refl))

  -- A request on a path that is not public reaches the handler of a route that names roles only with
  -- a token that was signed with the key and is in force, whose session is active, and whose role is
  -- an administrator's or one of the route's. The headers that were sent have no part in it.
  pub enter-passed :
      (route : Route) (roles : List String) (verified_at now : Time) (s : S) (r r' : HttpRequest)
      (cookie : Option Cookie)
      → route.roles ≡ some roles
      → is_public strings public_paths r.path ≡ false
      → enter strings codec sessions signing_key route verified_at now s r ≡ passed r' cookie
      → ((claims : SessionClaims) × Trusted strings codec sessions signing_key public_paths
            verified_at now s r claims
          × HasRole strings roles claims.role
          × (r' ≡ with_claims claims r))
  unfolding enter with_claims
  enter-passed route roles verified_at now s r r' cookie e private h =
      let (through, may) = check_role-passed roles _ r' cookie (rw e at h) in
      let (claims, trusted, same) =
        auth_guard-passed strings codec sessions signing_key public_paths verified_at now s r r'
          cookie private through in
      (claims, trusted, subst (λ x. HasRole strings roles x.role_header) same may, same)

  auth_guard-shared :
      (verified_at now : Time) (s : S) (r : HttpRequest)
      → strings.has_prefix r.path "/v1/content/share/" ≡ true
      → auth_guard strings codec sessions signing_key public_paths verified_at now s r
        ≡ passed r none
  unfolding auth_guard is_public
  auth_guard-shared verified_at now s r shared =
      let public : is_public strings public_paths r.path ≡ true = ground arith in
      rw (public, auth_guard) refl

  admin-named : ◌≢◌ {A = String} "admin" ""
  unfolding str_eq
  admin-named e =
      let same = (str_eq_iff "admin" "").1 e in let other : str_eq "admin" "" ≡ false = refl in cc

  check_role-admin :
      (roles : List String) (r : HttpRequest)
      → strings.to_lower (strings.trim_space r.role_header) ≡ "admin"
      → check_role strings codec sessions signing_key (some roles) (passed r none) ≡ passed r none
  unfolding check_role normalize
  check_role-admin roles r forged =
      let through =
        (require_role_branches strings.to_lower strings.trim_space roles r.role_header).0.1
          (λ k. admin-named (sym forged ∙ k), inl forged) in
      rw (through, check_role) refl

  -- A request on a path under /v1/content/share/, for which the server library chooses a route that names
  -- roles, reaches that route's handler without a token and with the headers that were sent, where
  -- these name the role admin.
  pub serve-forged :
      (choose : List Route → Method → String → Option Route) (method : Method) (route : Route)
      (roles : List String) (verified_at now : Time) (s : S) (r : HttpRequest)
      → choose routes method r.path ≡ some route
      → route.roles ≡ some roles
      → strings.has_prefix r.path "/v1/content/share/" ≡ true
      → strings.to_lower (strings.trim_space r.role_header) ≡ "admin"
      → serve strings codec sessions signing_key choose method verified_at now s r
        ≡ some (route.handler, passed r none)
  unfolding serve enter
  serve-forged choose method route roles verified_at now s r chosen e shared forged =
      let through : enter strings codec sessions signing_key route verified_at now s r
          ≡ passed r none =
        ap
          (λ x.
            check_role strings codec sessions signing_key x
              (auth_guard strings codec sessions signing_key public_paths verified_at now s r))
          e
        ∙ ap (check_role strings codec sessions signing_key (some roles))
            (auth_guard-shared verified_at now s r shared)
        ∙ check_role-admin roles r forged in
      rw (chosen, serve) (ap (λ p. some (route.handler, p)) through)
