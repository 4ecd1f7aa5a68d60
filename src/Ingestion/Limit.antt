-- ===== src/Ingestion/Limit.antt =====
-- repo/backend/internal/service/ingestion.go: allowRequest, the limit of five requests in a minute.
pub mod Window
use training_ops_scheduling.Base.{
  ℕ, ◌+◌, String, Bool, Option, none, some, List, [], ◌∷◌, ◌++◌, length, select, ltb, if◌then◌else◌,
}
use training_ops_scheduling.Base.Table.{Table, lookup, insert}
use training_ops_scheduling.Clock.{Time, minute}
use training_ops_scheduling.Ingestion.Data.{IngestionError}

abbrev pub Hits : Type 0
Hits = Table (List Time)

-- `tenantHits[tenantID]`, which is nil on a missing key.
unfoldable pub hits_of : String → Hits → List Time
hits_of tenant_id hits = elim (lookup tenant_id hits) [ none ↦ [] | some times ↦ times ]

-- `hit.After(now.Add(-1 * time.Minute))`, with the minute on the other side.
abbrev pub is_recent : Time → Time → Bool
is_recent now hit = ltb now (hit + minute)

unfoldable pub allow_request : String → Time → Hits → Hits × Option IngestionError
unfolding hits_of
allow_request tenant_id now hits =
    let recent = select (is_recent now) (hits_of tenant_id hits) in
    if ltb (length recent) 5
    then (insert tenant_id (recent ++ now ∷ []) hits, none)
    else (insert tenant_id recent hits, some IngestionError.rate_limited)
