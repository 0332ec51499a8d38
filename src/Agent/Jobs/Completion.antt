-- ===== src/Agent/Jobs/Completion.antt =====
-- That drains come to an end of the pending jobs.
use pi_ops.Base.{ℕ, ◌<◌, ◌≤◌, String, true, List, [], ◌∷◌, All, ◌≡◌, ◌≢◌, arith, Option}
use pi_ops.Agent.Jobs.{EvidenceJob, pending, running, is_final}
use pi_ops.Agent.Jobs.Worker.{Config, Collection, drain}
use pi_ops.Agent.Jobs.Attempts.{Fair}
use pi_ops.Agent.Jobs.Good.{Good}
use pi_ops.Agent.Jobs.Quiet.{Quiet}
use pi_ops.Agent.Jobs.Due.{Due}

module _ {ℓ} {E I : Type ℓ} (config : Config) (get_incident : String → Option I)
    (collect : I → E → String → Collection E) where
  -- One drain at each of the times.
  unfoldable pub drain_each : List String → List (EvidenceJob E) → List (EvidenceJob E)
  drain_each [] js = js
  drain_each (now ∷ nows) js = drain_each nows (drain config get_incident collect now js).jobs

  -- Every pending row has at least `k` attempts.
  abbrev Tried : ℕ → List (EvidenceJob E) → Type 0
  Tried k js = All (λ j. j.state ≡ pending → k ≤ j.attempts) js

module _ {ℓ} {E I : Type ℓ} (config : Config) (get_incident : String → Option I)
    (collect : I → E → String → Collection E)
    (alone : (i : I) (e : E) (id : String) → (collect i e id).requests ≡ [])
    (pos : 0 < config.evidence_job_max_attempts) where
  settled :
      (j : EvidenceJob E)
      → Fair config.evidence_job_max_attempts config.evidence_job_max_attempts j
      → j.state ≢ running
      → (j.state ≡ pending → config.evidence_job_max_attempts ≤ j.attempts)
      → is_final j.state ≡ true
  settled j fair quiet tried = ground (arith, tried)
