-- ===== src/Access/Tests.antt =====
-- Roles and tenants at concrete requests: the theorems applied.
use training_ops_scheduling.Base.{◌≡◌, ◌≢◌, ◌⊎◌, ◌↔◌, String, List, [], ◌∷◌}
use training_ops_scheduling.Access.{
  proceed, unauthorized, forbidden, require_role, normalize, Listed, require_role_branches,
}

abbrev keep : String → String
keep text = text

abbrev staff : List String
staff = "coordinator" ∷ "instructor" ∷ []

require_role_branches_example :
    ((require_role keep keep staff "instructor" ≡ proceed) ↔ (
      (normalize keep keep "instructor" ≢ "")
      × ((normalize keep keep "instructor" ≡ "admin")
          ⊎ Listed keep keep (normalize keep keep "instructor") staff)))
    × ((require_role keep keep staff "instructor" ≡ unauthorized "missing role claim")
        ↔ (normalize keep keep "instructor" ≡ ""))
    × ((require_role keep keep staff "instructor" ≡ forbidden "insufficient role privileges") ↔ (
        (normalize keep keep "instructor" ≢ "")
        × (normalize keep keep "instructor" ≢ "admin")
        × (¬ Listed keep keep (normalize keep keep "instructor") staff)))
require_role_branches_example = require_role_branches keep keep staff "instructor"

abbrev acme : String
acme = "acme"
