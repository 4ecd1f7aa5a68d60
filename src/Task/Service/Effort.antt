-- ===== src/Task/Service/Effort.antt =====
-- repo/backend/internal/service/task.go: CalculateEffort.
use training_ops_scheduling.Base.{ℕ, ◌+◌, ◌≤◌, ◌≡◌, List, [], ◌∷◌, arith, All}
use training_ops_scheduling.Base.Int.{
  ℤ, pos, negsuc, pos_part, neg_part, sub_ℕ, max_int64, to_int64, to_int64-pos, to_int64-sub_ℕ,
  ◌+ℤ◌, ◌-ℤ◌,
}
use training_ops_scheduling.Task.Data.{Task}
use training_ops_scheduling.Task.Service.{add_effort, calculate_effort}

-- The minutes of all tasks, as an unbounded number.
unfoldable pub total : (Task → ℤ) → List Task → ℕ
total minutes [] = 0
total minutes (task ∷ rest) = pos_part (minutes task) + total minutes rest

abbrev pub NonNegative : Task → Type 0
NonNegative task = (neg_part task.estimated_minutes ≡ 0) × (neg_part task.actual_minutes ≡ 0)

add_int64 :
    (a : ℕ) (z : ℤ)
    → neg_part z ≡ 0
    → a + pos_part z ≤ max_int64
    → to_int64 (pos a +ℤ z) ≡ pos (a + pos_part z)
unfolding ◌+ℤ◌
add_int64 a (pos n) h bound = ground (arith, to_int64-pos (a + n))
add_int64 a (negsuc n) h bound = ground arith

add_effort-exact :
    (tasks : List Task) (a b : ℕ) (variance : ℤ)
    → All NonNegative tasks
    → a + total (λ t. t.estimated_minutes) tasks ≤ max_int64
    → b + total (λ t. t.actual_minutes) tasks ≤ max_int64
    → add_effort tasks
        (record { estimated_minutes = pos a; actual_minutes = pos b; variance_minutes = variance })
      ≡ record {
        estimated_minutes = pos (a + total (λ t. t.estimated_minutes) tasks);
        actual_minutes = pos (b + total (λ t. t.actual_minutes) tasks);
        variance_minutes = variance;
      }
unfolding add_effort total
add_effort-exact [] a b variance h ha hb = ground arith
add_effort-exact (task ∷ rest) a b variance h ha hb =
    rw
      (
        add_int64 a task.estimated_minutes h.0.0 (omega arith),
        add_int64 b task.actual_minutes h.0.1 (omega arith),
        add_effort-exact rest (a + pos_part task.estimated_minutes)
            (b + pos_part task.actual_minutes) variance h.1 (omega arith) (omega arith),
      )
      (ground arith)

variance-exact : (a b : ℕ) → a ≤ max_int64 → b ≤ max_int64 → to_int64 (pos a -ℤ pos b) ≡ sub_ℕ a b
unfolding ◌-ℤ◌
variance-exact a b ha hb = ground (arith, to_int64-sub_ℕ a b ha hb)

-- For tasks whose minutes are not negative and whose totals fit a 64-bit integer, the summary has the
-- exact totals, and the variance is the actual total less the estimated one, negative or not.
pub calculate_effort-exact :
    (tasks : List Task)
    → All NonNegative tasks
    → total (λ t. t.estimated_minutes) tasks ≤ max_int64
    → total (λ t. t.actual_minutes) tasks ≤ max_int64
    → calculate_effort tasks ≡ record {
      estimated_minutes = pos (total (λ t. t.estimated_minutes) tasks);
      actual_minutes = pos (total (λ t. t.actual_minutes) tasks);
      variance_minutes =
          sub_ℕ (total (λ t. t.actual_minutes) tasks) (total (λ t. t.estimated_minutes) tasks);
    }
unfolding calculate_effort
calculate_effort-exact tasks h he ha =
    let sums = add_effort-exact tasks 0 0 (pos 0) h (omega arith) (omega arith) in
    let variance =
      variance-exact (total (λ t. t.actual_minutes) tasks) (total (λ t. t.estimated_minutes) tasks)
        ha he in
    rw (sums) (ground arith)
