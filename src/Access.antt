-- ===== src/Access.antt =====
-- Who may do what: repo/backend/internal/api/middleware/authorization.go. ToLower and TrimSpace are
-- parameters.
mod Tests
use training_ops_scheduling.Base.{
  ◌≡◌, ◌≢◌, ◌⊎◌, ◌↔◌, refl, sym, inl, inr, String, Bool, true, false, ◌||◌, Option, none, some,
  List, [], ◌∷◌, arith, any, str_eq, str_eq_iff, str_eq_refl, Bool-cases, if◌then◌else◌,
}

-- 401 and 403 with an error text, or the next handler.
pub data Decision : Type 0 where
  proceed : Decision
  unauthorized forbidden : String → Decision

module _ (to_lower trim_space : String → String) where
  unfoldable pub normalize : String → String
  normalize role = to_lower (trim_space role)

  -- `allowed[role]`: some role of the list is this one.
  unfoldable pub is_allowed : List String → String → Bool
  unfolding any normalize
  is_allowed roles role = any (λ r. str_eq (normalize r) role) roles

  unfoldable pub require_role : List String → String → Decision
  unfolding is_allowed normalize
  require_role roles header =
      let role = normalize header in
      if str_eq role ""
      then unauthorized "missing role claim"
      else if str_eq role "admin"
      then proceed
      else if is_allowed roles role
      then proceed
      else forbidden "insufficient role privileges"

  -- Some role of the list reads the same, without case and spaces.
  pub data Listed (role : String) : List String → Type 0 where
    here : {r : String} {roles : List String} → normalize r ≡ role → Listed role (r ∷ roles)
    there : {r : String} {roles : List String} → Listed role roles → Listed role (r ∷ roles)

  Listed-is_allowed :
      {role : String} {roles : List String} → Listed role roles → is_allowed roles role ≡ true
  unfolding is_allowed any
  Listed-is_allowed {role} (here {r} e) =
      let same = (str_eq_iff (normalize r) role).1 e in ground arith
  Listed-is_allowed (there l) = let rest = Listed-is_allowed l in ground arith

  is_allowed-Listed :
      (roles : List String) (role : String) → is_allowed roles role ≡ true → Listed role roles
  unfolding is_allowed any
  is_allowed-Listed [] role h = absurd (cc)
  is_allowed-Listed (r ∷ roles) role h = elim (Bool-cases (str_eq (normalize r) role)) [
    | inl same ↦ here ((str_eq_iff (normalize r) role).0 same)
    | inr other ↦ there (is_allowed-Listed roles role (ground arith))
  ]

  -- A request goes on exactly when its role, without case and spaces, is named and is admin or one
  -- of the list's; without a role it is unauthorized, and with another one forbidden.
  pub require_role_branches :
      (roles : List String) (header : String)
      → ((require_role roles header ≡ proceed) ↔ (
          (normalize header ≢ "")
          × ((normalize header ≡ "admin") ⊎ Listed (normalize header) roles)))
        × ((require_role roles header ≡ unauthorized "missing role claim")
            ↔ (normalize header ≡ ""))
        × ((require_role roles header ≡ forbidden "insufficient role privileges") ↔ (
            (normalize header ≢ "")
            × (normalize header ≢ "admin")
            × (¬ Listed (normalize header) roles)))
  unfolding require_role
  require_role_branches roles header =
      let role = normalize header in
      let named = str_eq_iff role "" in
      let boss = str_eq_iff role "admin" in
      elim (Bool-cases (str_eq role "")) [
        | inl nameless ↦
            rw (nameless, require_role)
              (
                (λ h. absurd (cc), λ (n, _). absurd (n (named.0 nameless))),
                (λ _. named.0 nameless, λ _. refl),
                (λ h. absurd (cc), λ (n, _, _). absurd (n (named.0 nameless))),
              )
        | inr some_name ↦
            let claimed : role ≢ "" = λ e. let yes = named.1 e in cc in
            elim (Bool-cases (str_eq role "admin")) [
              | inl admin ↦
                  rw (some_name, admin, require_role)
                    (
                      (λ _. (claimed, inl (boss.0 admin)), λ _. refl),
                      (λ h. absurd (cc), λ e. absurd (claimed e)),
                      (λ h. absurd (cc), λ (_, n, _). absurd (n (boss.0 admin))),
                    )
              | inr other ↦
                  let not_boss : role ≢ "admin" = λ e. let yes = boss.1 e in cc in
                  elim (Bool-cases (is_allowed roles role)) [
                    | inl listed ↦
                        rw (some_name, other, listed, require_role)
                          (
                            (λ _. (claimed, inr (is_allowed-Listed roles role listed)), λ _. refl),
                            (λ h. absurd (cc), λ e. absurd (claimed e)),
                            (
                              λ h. absurd (cc),
                              λ (_, _, n). absurd (n (is_allowed-Listed roles role listed)),
                            ),
                          )
                    | inr off ↦
                        let unlisted : ¬ Listed role roles =
                          λ l. let yes = Listed-is_allowed l in cc in
                        rw (some_name, other, off, require_role)
                          (
                            (
                              λ h. absurd (cc),
                              λ (_, h). elim h [
                                | inl e ↦ absurd (not_boss e)
                                | inr l ↦ absurd (unlisted l)
                              ],
                            ),
                            (λ h. absurd (cc), λ e. absurd (claimed e)),
                            (λ _. (claimed, not_boss, unlisted), λ _. refl),
                          )
                  ]
            ]
      ]

-- `nil` is `none`.
unfoldable pub verify_resource_access : String → String → Option String
verify_resource_access resource_tenant_id claims_tenant_id =
    if str_eq resource_tenant_id "" || str_eq claims_tenant_id ""
    then some "forbidden resource access"
    else if str_eq resource_tenant_id claims_tenant_id
    then none
    else some "forbidden resource access"

-- Access is given exactly to the tenant that the resource belongs to, where that tenant is named.
pub verify_resource_access-none_iff :
    (resource_tenant_id claims_tenant_id : String)
    → (verify_resource_access resource_tenant_id claims_tenant_id ≡ none)
      ↔ ((resource_tenant_id ≡ claims_tenant_id) × (claims_tenant_id ≢ ""))
unfolding verify_resource_access
verify_resource_access-none_iff a b = (
  λ h. ground (arith, str_eq_iff a b, str_eq_iff a "", str_eq_iff b ""),
  λ h. ground (arith, str_eq_iff a b, str_eq_iff a "", str_eq_iff b ""),
)
