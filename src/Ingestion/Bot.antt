-- ===== src/Ingestion/Bot.antt =====
-- repo/backend/internal/service/ingestion.go: the ingestion bot. strings.ToLower, math/rand and the IDs of
-- GenerateUUID are parameters.
pub mod Runs
use training_ops_scheduling.Base.{
  ℕ, zero, suc, ◌+◌, ◌*◌, String, Bool, true, false, ◌&&◌, ◌||◌, Option, none, some, List, [], ◌∷◌,
  length, any, if◌then◌else◌,
}
use training_ops_scheduling.Base.Result.{Result, ok, err}
use training_ops_scheduling.Clock.{Time, Duration, second}
use training_ops_scheduling.Ingestion.Data.{
  ScraperState, ScraperJob, IngestionSession, IngestionError, IngestionStore,
}
use training_ops_scheduling.Ingestion.Pool.{
  ProxyPoolManager, UserAgentRotator, next_proxy, next_user_agent,
}
use training_ops_scheduling.Ingestion.Limit.{Hits, hits_of, allow_request}
use training_ops_scheduling.Ingestion.Text.{contains_text}

-- A source of random numbers, and Intn.
pub record Rand : Type 1 where
  pub Source : Type 0
  pub intn : ℕ → Source → ℕ × Source

module _ (rand : Rand) where
  pub record IngestionBot : Type 0 where
    pub proxy_pool : ProxyPoolManager
    pub ua_rotator : UserAgentRotator
    pub source : rand.Source
    pub tenant_hits : Hits

  unfoldable pub new_ingestion_bot :
      ProxyPoolManager → UserAgentRotator → rand.Source → IngestionBot
  new_ingestion_bot proxy_pool rotator source = record {
    proxy_pool = proxy_pool;
    ua_rotator = rotator;
    source = source;
    tenant_hits = [];
  }

  -- `none` stands for a panic of a rotation.
  unfoldable pub prepare_job :
      String → String → Time → IngestionBot → Option (ScraperJob × IngestionBot)
  unfolding next_proxy next_user_agent
  prepare_job uuid url now b =
      let (drawn, source') = rand.intn 13 b.source in
      elim (next_proxy b.proxy_pool) [
        | none ↦ none
        | some (proxy, pool') ↦ elim (next_user_agent b.ua_rotator) [
          | none ↦ none
          | some (agent, rotator') ↦ some (
            record {
              id = uuid;
              url = url;
              proxy = proxy;
              user_agent = agent;
              delay = (2 + drawn) * second;
              state = ScraperState.queued;
              reason = "";
              created_at = now;
              updated_at = now;
            },
            record b { proxy_pool = pool'; ua_rotator = rotator'; source = source' },
          )
        ]
      ]

abbrev pub signatures : List String
signatures = "captcha" ∷ "manual review" ∷ "verify you are human" ∷ "bot detection" ∷ []

module _ (to_lower : String → String) where
  unfoldable pub detect_captcha : String → Bool
  unfolding any contains_text
  detect_captcha body = any (contains_text (to_lower body)) signatures

  unfoldable pub run : ScraperJob → String → Time → ScraperJob
  run job body now =
      if detect_captcha body
      then record job {
        state = ScraperState.manual_review;
        reason = "captcha detected";
        updated_at = now;
      }
      else record job {
        state = ScraperState.completed;
        reason = "ingestion complete";
        updated_at = now;
      }

unfoldable pub is_manual_review : ScraperState → Bool
is_manual_review ScraperState.manual_review = true
is_manual_review _ = false

module _ (rand : Rand) (to_lower : String → String) {State : Type 0}
    (store : IngestionStore State) where
  -- The end of RunPersistent, from the saved job on.
  review_saved :
      String → State → Result IngestionError ScraperJob → State × Result IngestionError ScraperJob
  unfolding is_manual_review
  review_saved tenant_id s (err e) = (s, err e)
  review_saved tenant_id s (ok saved) = elim (is_manual_review saved.state) [
    | false ↦ (s, ok saved)
    | true ↦
        let (s', failed) = store.enqueue_manual_review tenant_id saved.id saved.reason s in
        elim failed [ some e ↦ (s', err e) | none ↦ (s', ok saved) ]
  ]

  -- The middle of RunPersistent, from the stored session on.
  save_run :
      String
      → String
      → Time
      → ScraperJob
      → State × Result IngestionError IngestionSession
      → State × Result IngestionError ScraperJob
  unfolding review_saved
  save_run tenant_id body now job (s, err e) = (s, err e)
  save_run tenant_id body now job (s, ok session) =
      let (s', saved) =
        store.save_ingestion_job tenant_id session.id (run to_lower job body (now + job.delay)) s in
      review_saved tenant_id s' saved

  -- RunPersistent after the request was allowed.
  run_allowed :
      String
      → String
      → String
      → String
      → String
      → String
      → Time
      → IngestionBot rand
      → State
      → (IngestionBot rand × State) × Result IngestionError ScraperJob
  unfolding prepare_job save_run hits_of
  run_allowed job_uuid session_uuid tenant_id actor_user_id url body now b s =
      elim (prepare_job rand job_uuid url now b) [
        | none ↦ ((b, s), err IngestionError.panicked)
        | some (job, b') ↦
            let (s', result) = save_run tenant_id body now job (
              store.upsert_ingestion_session
                (record {
                  id = session_uuid;
                  tenant_id = tenant_id;
                  actor_user_id = actor_user_id;
                  proxy = job.proxy;
                  user_agent = job.user_agent;
                  request_count = length (hits_of tenant_id b.tenant_hits);
                  last_seen_at = now;
                  created_at = 0;
                  updated_at = 0;
                })
                s) in
            ((b', s'), result)
      ]

  -- The store is set.
  unfoldable pub run_persistent :
      String
      → String
      → String
      → String
      → String
      → String
      → Time
      → IngestionBot rand
      → State
      → (IngestionBot rand × State) × Result IngestionError ScraperJob
  unfolding run_allowed allow_request
  run_persistent job_uuid session_uuid tenant_id actor_user_id url body now b s =
      let (hits, limited) = allow_request tenant_id now b.tenant_hits in
      let b' : IngestionBot rand = record b { tenant_hits = hits } in
      elim limited [
        | some e ↦ ((b', s), err e)
        | none ↦ run_allowed job_uuid session_uuid tenant_id actor_user_id url body now b' s
      ]
