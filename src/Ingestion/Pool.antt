-- ===== src/Ingestion/Pool.antt =====
-- repo/backend/internal/service/ingestion.go: the proxy pool and the user agent rotator.
use training_ops_scheduling.Base.{
  ℕ, zero, suc, ◌+◌, ◌%◌, String, Option, none, some, List, [], ◌∷◌, length, ◌==◌, if◌then◌else◌,
}
use training_ops_scheduling.Base.Int.{ℤ, pos, negsuc, increment}

pub record ProxyPoolManager : Type 0 where
  pub proxies : List String
  pub index : ℤ

pub record UserAgentRotator : Type 0 where
  pub user_agents : List String
  pub index : ℤ

unfoldable pub new_proxy_pool_manager : List String → ProxyPoolManager
new_proxy_pool_manager proxies = record { proxies = proxies; index = pos 0 }

unfoldable pub new_user_agent_rotator : List String → UserAgentRotator
new_user_agent_rotator user_agents = record { user_agents = user_agents; index = pos 0 }

unfoldable pub get_elem? : List String → ℕ → Option String
get_elem? [] n = none
get_elem? (x ∷ xs) zero = some x
get_elem? (x ∷ xs) (suc n) = get_elem? xs n

-- `items[index%len(items)]`; a negative remainder panics, which is `none`.
unfoldable pub item_at : List String → ℤ → Option String
unfolding get_elem?
item_at items (pos n) = get_elem? items (n % length items)
item_at items (negsuc n) = if (n + 1) % length items == 0 then get_elem? items 0 else none

unfoldable pub next_proxy : ProxyPoolManager → Option (String × ProxyPoolManager)
unfolding item_at
next_proxy m = elim m.proxies [
  | [] ↦ some ("direct", m)
  | _ ∷ _ ↦ elim (item_at m.proxies m.index) [
    | none ↦ none
    | some proxy ↦ some (proxy, record m { index = increment m.index })
  ]
]

unfoldable pub next_user_agent : UserAgentRotator → Option (String × UserAgentRotator)
unfolding item_at
next_user_agent r = elim r.user_agents [
  | [] ↦ some ("TrainingOpsBot/1.0", r)
  | _ ∷ _ ↦ elim (item_at r.user_agents r.index) [
    | none ↦ none
    | some agent ↦ some (agent, record r { index = increment r.index })
  ]
]
