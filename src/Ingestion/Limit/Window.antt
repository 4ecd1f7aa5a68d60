-- ===== src/Ingestion/Limit/Window.antt =====
-- Histories of allowRequest: when a request is granted, and how many are granted in a minute.
use training_ops_scheduling.Base.{
  ℕ, ◌+◌, ◌*◌, ◌≤◌, ◌<◌, ◌≡◌, ◌↔◌, refl, inl, inr, String, Bool, Option, none, some, List, [], ◌∷◌,
  ◌++◌, length, select, ltb, arith, str_eq, str_eq_iff, Bool-cases, if◌then◌else◌,
}
use training_ops_scheduling.Base.Table.{lookup, insert, lookup-insert}
use training_ops_scheduling.Clock.{Time}
use training_ops_scheduling.Ingestion.Data.{IngestionError}
use training_ops_scheduling.Ingestion.Limit.{Hits, hits_of, is_recent, allow_request}

-- The log with a request added, if it was granted; the newest stands first.
abbrev pub log_grant :
    String → Time → Option IngestionError → List (String × Time) → List (String × Time)
log_grant tenant_id now none log = (tenant_id, now) ∷ log
log_grant tenant_id now (some e) log = log

-- The hits that calls from a fresh bot lead to, with the log of what was granted. The clock does not
-- run backwards.
pub data Served : Time → Hits → List (String × Time) → Type 0 where
  fresh : (now : Time) → Served now [] []
  asked :
      {now : Time} {hits : Hits} {log : List (String × Time)} (later : Time) (tenant_id : String)
      → Served now hits log
      → now ≤ later
      → Served later
          (allow_request tenant_id later hits).0
          (log_grant tenant_id later (allow_request tenant_id later hits).1 log)

-- How many requests the tenant was granted less than sixty seconds before the time, in nanoseconds.
unfoldable pub granted : String → Time → List (String × Time) → ℕ
granted tenant_id now [] = 0
granted tenant_id now ((t, hit) ∷ log) =
    let rest = granted tenant_id now log in
    if str_eq t tenant_id
    then (if ltb now (hit + 60 * 1000000000) then rest + 1 else rest)
    else rest

-- The count that the bot keeps is the count of the log.
abbrev Counts : Time → Hits → List (String × Time) → Type 0
Counts now hits log =
    (t : String) (later : Time)
    → now ≤ later
    → length (select (is_recent later) (hits_of t hits)) ≡ granted t later log

recent-recent :
    (now later : Time) (xs : List Time)
    → now ≤ later
    → select (is_recent later) (select (is_recent now) xs) ≡ select (is_recent later) xs
unfolding select
recent-recent now later [] h = refl
recent-recent now later (x ∷ xs) h = ground (arith, recent-recent now later xs h)

select-append :
    (p : Time → Bool) (xs ys : List Time)
    → length (select p (xs ++ ys)) ≡ length (select p xs) + length (select p ys)
unfolding select
select-append p [] ys = omega arith
select-append p (x ∷ xs) ys = ground (arith, select-append p xs ys)

hits_of-insert :
    (k t : String) (times : List Time) (hits : Hits)
    → hits_of t (insert k times hits) ≡ (if str_eq k t then times else hits_of t hits)
unfolding hits_of
hits_of-insert k t times hits = ground (arith, lookup-insert k t times hits)

Counts-allow_request :
    (now : Time) (k : String) (hits : Hits) (log : List (String × Time))
    → Counts now hits log
    → Counts now (allow_request k now hits).0 (log_grant k now (allow_request k now hits).1 log)
unfolding allow_request granted select
Counts-allow_request now k hits log c t later h =
    let recent = select (is_recent now) (hits_of k hits) in
    let kept = recent-recent now later (hits_of k hits) h in
    let before = c t later h in
    elim (Bool-cases (ltb (length recent) 5)) [
      | inl free ↦
          rw (free, allow_request, hits_of-insert k t (recent ++ now ∷ []) hits)
            (ground (arith, str_eq_iff k t, select-append (is_recent later) recent (now ∷ [])))
      | inr full ↦
          rw (full, allow_request, hits_of-insert k t recent hits) (ground (arith, str_eq_iff k t))
    ]

Counts-mono :
    (now later : Time) (hits : Hits) (log : List (String × Time))
    → now ≤ later
    → Counts now hits log
    → Counts later hits log
Counts-mono now later hits log h c t at k = c t at (omega arith)

Served-Counts :
    {now : Time} {hits : Hits} {log : List (String × Time)}
    → Served now hits log
    → Counts now hits log
unfolding hits_of select granted lookup
Served-Counts (fresh now) = λ t later h. refl
Served-Counts (asked {now} {hits} {log} later k s h) =
    Counts-allow_request later k hits log (Counts-mono now later hits log h (Served-Counts s))

-- Whatever was asked before, by a clock that did not run backwards, a request is granted exactly when
-- fewer than five requests of its tenant were granted less than sixty seconds before it, and is refused
-- as rate limited otherwise.
pub allow_request-granted_iff :
    (now later : Time) (hits : Hits) (log : List (String × Time)) (tenant_id : String)
    → Served now hits log
    → now ≤ later
    → (((allow_request tenant_id later hits).1 ≡ none) ↔ (granted tenant_id later log < 5))
      × (((allow_request tenant_id later hits).1 ≡ some IngestionError.rate_limited)
          ↔ (5 ≤ granted tenant_id later log))
unfolding allow_request
allow_request-granted_iff now later hits log tenant_id s h =
    let same = Served-Counts s tenant_id later h in
    ((λ e. ground arith, λ e. ground arith), (λ e. ground arith, λ e. ground arith))

granted-le-five :
    (now : Time) (k : String) (hits : Hits) (log : List (String × Time)) (t : String)
    → Counts now hits log
    → granted t now log ≤ 5
    → granted t now (log_grant k now (allow_request k now hits).1 log) ≤ 5
unfolding allow_request granted
granted-le-five now k hits log t c few =
    let same = c k now (omega arith) in ground (arith, str_eq_iff k t)

granted-later :
    (now later : Time) (t : String) (log : List (String × Time))
    → now ≤ later
    → granted t later log ≤ granted t now log
unfolding granted
granted-later now later t [] h = omega arith
granted-later now later t ((k, hit) ∷ log) h = ground (arith, granted-later now later t log h)

-- In the minute that ends with the last request, or at any time after it, no tenant was granted more
-- than five requests.
Served-five :
    (now later : Time) (hits : Hits) (log : List (String × Time)) (tenant_id : String)
    → Served now hits log
    → now ≤ later
    → granted tenant_id later log ≤ 5
unfolding granted
Served-five now later hits log tenant_id s h =
    omega (arith, granted-later now later tenant_id log h, at_last s)
  where
    at_last :
        {at : Time} {hs : Hits} {l : List (String × Time)}
        → Served at hs l
        → granted tenant_id at l ≤ 5
    at_last (fresh at) = omega arith
    at_last (asked {now = before} {hits = hs} {log = l} at k s' h') =
        granted-le-five at k hs l tenant_id (Counts-mono before at hs l h' (Served-Counts s'))
          (omega (arith, granted-later before at tenant_id l h', at_last s'))
