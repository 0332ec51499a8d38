-- ===== src/Runtime/Resumable.antt =====
-- The tasks that recovery takes up, and the tasks whose result a repeated request delivers.
use pi_ops.Base.Search.{Memᴰ-map}
use pi_ops.Base.{ℕ, not, Bool, true, ◌&&◌, ◌||◌, ltb, List, filter, ◌≡◌, refl, ◌∙◌}
use pi_ops.Base.Order.{sort_by, sort_by-Memᴰ}
use mathlib.Core.List.{Memᴰ}
use pi_ops.Agent.Jobs.Listing.{Memᴰ-filter}
use pi_ops.Runtime.Tasks.{
  ExecutionStatus, queued, running, completed, failed, DeliveryStatus, pending, delivering,
  delivered, given_up, RuntimeTaskRecord, map_row, is_finished, is_delivered, is_unfinished,
  is_open, is_resumable, created_before, list_resumable,
}
use pi_ops.Runtime.Service.{needs_delivery}

by_status :
    (e : ExecutionStatus) (d : DeliveryStatus) (few : Bool)
    → (is_unfinished e || (is_finished e && is_open d && few))
      ≡ (not (is_finished e) || (is_finished e && not (is_delivered d) && few))
by_status queued d few = refl
by_status running d few = refl
by_status completed pending few = refl
by_status completed delivering few = refl
by_status completed delivered few = refl
by_status completed given_up few = refl
by_status failed pending few = refl
by_status failed delivering few = refl
by_status failed delivered few = refl
by_status failed given_up few = refl

-- The query of the recovery and the test that is made on a repeated request agree.
is_resumable-needs_delivery :
    (max_attempts : ℕ) (t : RuntimeTaskRecord)
    → is_resumable max_attempts t
      ≡ (not (is_finished t.execution_status) || needs_delivery t max_attempts)
unfolding is_resumable needs_delivery
is_resumable-needs_delivery max_attempts t =
    by_status t.execution_status t.delivery_status (ltb t.delivery_attempts max_attempts)

-- Recovery takes up every task of the table that is not finished, and every task whose result a
-- repeated request would deliver.
pub list_resumable-Memᴰ :
    (max_attempts : ℕ) (rows : List RuntimeTaskRecord) (t : RuntimeTaskRecord)
    → Memᴰ t rows
    → (not (is_finished t.execution_status) || needs_delivery t max_attempts) ≡ true
    → Memᴰ (map_row t) (list_resumable max_attempts rows)
unfolding list_resumable
list_resumable-Memᴰ max_attempts rows t m h =
    Memᴰ-map map_row (sort_by created_before (filter (is_resumable max_attempts) rows)) (
      sort_by-Memᴰ created_before (filter (is_resumable max_attempts) rows) (
        Memᴰ-filter (is_resumable max_attempts) rows m
          (is_resumable-needs_delivery max_attempts t ∙ h)))
