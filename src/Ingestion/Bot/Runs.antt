-- ===== src/Ingestion/Bot/Runs.antt =====
-- Runs of the ingestion bot: the state a job ends in, its delay, and requests over the limit.
use training_ops_scheduling.Base.{
  ap, ℕ, ◌+◌, ◌*◌, ◌≤◌, ◌<◌, ◌≡◌, refl, inl, inr, String, none, some, arith, Option-cases, List,
  Option,
}
use training_ops_scheduling.Base.Result.{err}
use training_ops_scheduling.Clock.{Time, second}
use training_ops_scheduling.Ingestion.Data.{ScraperJob, IngestionError, IngestionStore}
use training_ops_scheduling.Ingestion.Limit.{allow_request}
use training_ops_scheduling.Ingestion.Limit.Window.{Served, granted, allow_request-granted_iff}
use training_ops_scheduling.Ingestion.Pool.{next_proxy, next_user_agent}
use training_ops_scheduling.Ingestion.Bot.{Rand, IngestionBot, prepare_job, run_persistent}

delay_of : (rand : Rand) → Option (ScraperJob × IngestionBot rand) → ℕ
delay_of rand none = 0
delay_of rand (some (job, b)) = job.delay

module _ (rand : Rand) where
  -- A job is prepared with a delay of 2 to 14 seconds, if Intn draws below its bound.
  pub prepare_job-delay :
      ((n : ℕ) (source : rand.Source) → 0 < n → (rand.intn n source).0 < n)
      → (uuid url : String) (now : Time) (b b' : IngestionBot rand) (job : ScraperJob)
      → prepare_job rand uuid url now b ≡ some (job, b')
      → (2 * second ≤ job.delay) × (job.delay ≤ 14 * second)
  unfolding prepare_job delay_of
  prepare_job-delay below uuid url now b b' job e =
      let drawn = below 13 b.source (omega arith) in
      let (n, source') = rand.intn 13 b.source in
      elim (Option-cases (next_proxy b.proxy_pool)) [
        | inl none_left ↦ absurd (
            let panics : prepare_job rand uuid url now b ≡ none =
              rw (none_left, prepare_job) refl in
            cc)
        | inr ((proxy, pool'), p) ↦ elim (Option-cases (next_user_agent b.ua_rotator)) [
          | inl none_left ↦ absurd (
              let panics : prepare_job rand uuid url now b ≡ none =
                rw (p, none_left, prepare_job) refl in
              cc)
          | inr ((agent, rotator'), a) ↦
              let made = rw (p, a, prepare_job) at e in
              let same : (2 + (rand.intn 13 b.source).0) * second ≡ job.delay =
                ap (delay_of rand) made in
              (omega arith, omega arith)
        ]
      ]

module _ (rand : Rand) (to_lower : String → String) {State : Type 0}
    (store : IngestionStore State) where
  -- Of a tenant that was granted five requests in the last minute, a further one is refused: nothing
  -- of the bot but its record of hits changes, and the store is not called.
  pub run_persistent-limited :
      (job_uuid session_uuid tenant_id actor_user_id url body : String) (before now : Time)
      (b : IngestionBot rand) (s : State) (log : List (String × Time))
      → Served before b.tenant_hits log
      → before ≤ now
      → 5 ≤ granted tenant_id now log
      → run_persistent rand to_lower store job_uuid session_uuid tenant_id actor_user_id url body
          now b s
        ≡ (
          (record b { tenant_hits = (allow_request tenant_id now b.tenant_hits).0 }, s),
          err IngestionError.rate_limited,
        )
  unfolding run_persistent
  run_persistent-limited job_uuid session_uuid tenant_id actor_user_id url body before now b s log
        served h full =
      let refused : (allow_request tenant_id now b.tenant_hits).1
          ≡ some IngestionError.rate_limited =
        ((allow_request-granted_iff before now b.tenant_hits log tenant_id served h).1).1 full in
      rw (refused, run_persistent) refl
