-- ===== src/Agent/Jobs/History.antt =====
-- The life of the table: drains, requests and restarts in any order.
use pi_ops.Base.{ℕ, ◌+◌, String, List, [], ◌∷◌, Option}
use pi_ops.Agent.Jobs.{EvidenceJob, reset_running_evidence_jobs}
use pi_ops.Agent.Jobs.Worker.{Config, Request, Collection, serve, drain}
use pi_ops.Agent.Jobs.Good.{Good}

-- A restart resets the jobs that the last process left running.
pub data Round {ℓ} (E : Type ℓ) (I : Type ℓ) : Type ℓ where
  drains : (String → Option I) → (I → E → String → Collection E) → (now : String) → Round E I
  serves : Request E → Round E I
  restarts : (now : String) → Round E I

module _ {ℓ} {E I : Type ℓ} (config : Config) where
  unfoldable pub live : List (Round E I) → List (EvidenceJob E) → List (EvidenceJob E)
  live [] js = js
  live (Round.drains get_incident collect now ∷ rs) js =
      live rs (drain config get_incident collect now js).jobs
  live (Round.serves r ∷ rs) js = live rs (serve r js)
  live (Round.restarts now ∷ rs) js = live rs (reset_running_evidence_jobs now js)

unfoldable pub restart_count {ℓ} : {E I : Type ℓ} → List (Round E I) → ℕ
restart_count [] = 0
restart_count (Round.restarts now ∷ rs) = restart_count rs + 1
restart_count (_ ∷ rs) = restart_count rs
