-- ===== src/Ingestion/Tests.antt =====
-- The ingestion component on concrete requests: its theorems applied.
use training_ops_scheduling.Base.{
  true, ℕ, ◌+◌, ◌≤◌, ◌<◌, ◌≡◌, ◌↔◌, refl, String, none, some, [], ◌∷◌, List, arith, str_eq, select,
}
use training_ops_scheduling.Base.Int.{pos}
use training_ops_scheduling.Base.Result.{ok, err}
use training_ops_scheduling.Base.Table.{lookup, insert}
use training_ops_scheduling.Ingestion.Data.{IngestionError, IngestionStore}
use training_ops_scheduling.Ingestion.Limit.{Hits, allow_request}
use training_ops_scheduling.Ingestion.Limit.Window.{
  Served, fresh, asked, granted, allow_request-granted_iff,
}
use training_ops_scheduling.Ingestion.Bot.{Rand, IngestionBot, run_persistent, detect_captcha}
use training_ops_scheduling.Ingestion.Bot.Runs.{run_persistent-limited}

-- A source that always draws 0.
abbrev still : Rand
still = record { Source = ℕ; intn = λ n seed. (0, seed) }

abbrev bot : IngestionBot still
bot = record {
  proxy_pool = record { proxies = "p1" ∷ "p2" ∷ []; index = pos 0 };
  ua_rotator = record { user_agents = []; index = pos 0 };
  source = 7;
  tenant_hits = [];
}

-- One request of a tenant.
abbrev one : Hits
one = (allow_request "acme" 1 []).0

served : Served 1 one (("acme", 1) ∷ [])
unfolding allow_request select lookup
served = asked 1 "acme" (fresh 0) (omega arith)

allow_request-granted_iff_example :
    (((allow_request "acme" 2 one).1 ≡ none) ↔ (granted "acme" 2 (("acme", 1) ∷ []) < 5))
    × (((allow_request "acme" 2 one).1 ≡ some IngestionError.rate_limited)
        ↔ (5 ≤ granted "acme" 2 (("acme", 1) ∷ [])))
allow_request-granted_iff_example =
    allow_request-granted_iff 1 2 one (("acme", 1) ∷ []) "acme" served (omega arith)

-- Five requests in a row.
abbrev full : Hits
full = ("acme", 1 ∷ 2 ∷ 3 ∷ 4 ∷ 5 ∷ []) ∷ []

abbrev full_log : List (String × ℕ)
full_log = ("acme", 5) ∷ ("acme", 4) ∷ ("acme", 3) ∷ ("acme", 2) ∷ ("acme", 1) ∷ []

full_log-Served : Served 5 full full_log
unfolding allow_request select lookup insert str_eq
full_log-Served =
    asked 5 "acme"
      (asked 4 "acme"
        (asked 3 "acme" (asked 2 "acme" (asked 1 "acme" (fresh 0) (omega arith)) (omega arith))
          (omega arith))
        (omega arith))
      (omega arith)

five_granted : granted "acme" 9 full_log ≡ 5
unfolding granted str_eq
five_granted = refl

-- A store that counts its calls.
abbrev counting : IngestionStore ℕ
counting = record {
  upsert_ingestion_session = λ session s. (s + 1, ok session);
  save_ingestion_job = λ tenant session job s. (s + 1, ok job);
  enqueue_manual_review = λ tenant job reason s. (s + 1, none);
}

run_persistent-limited_example :
    run_persistent still
      (λ s. s)
      counting
      "j1"
      "s1"
      "acme"
      "u1"
      "http://x"
      "hello"
      9
      (record bot { tenant_hits = full })
      0
    ≡ (
      (record bot { tenant_hits = (allow_request "acme" 9 full).0 }, 0),
      err IngestionError.rate_limited,
    )
run_persistent-limited_example =
    run_persistent-limited still (λ s. s) counting "j1" "s1" "acme" "u1" "http://x" "hello" 5 9
      (record bot { tenant_hits = full }) 0 full_log full_log-Served (omega arith)
      (omega (arith, five_granted))

captcha_detected : detect_captcha (λ s. s) "please pass the captcha now" ≡ true
unfolding detect_captcha
captcha_detected = refl
