-- ===== src/Stream/Partition.antt =====
-- Stream/leader.go, `PartitionInputData`: the lines of the input file are cut into one partition
-- per task. The ceiling of the quotient of two floats is the exact one for numbers below 2^53, and
-- the line numbers fit in an `int32` for files of less than 2^31 lines.
pub mod Cover
use rain_strom_distributed_s.Prelude.{
  ℕ, zero, suc, ◌+◌, ◌-◌, ◌*◌, ◌/◌, List, [], ◌∷◌, String, if◌then◌else◌, leb, ltb, ℤ, pos, negsuc,
}

pub record Partition : Type 0 where
  pub id : ℕ
  pub file_name : String
  pub start : ℕ
  pub last : ℤ

-- `n - 1`
abbrev pub minus_one : ℕ → ℤ
minus_one zero = negsuc 0
minus_one (suc n) = pos n

-- `int(math.Ceil(float64(lineCount) / float64(job.NumTasks)))`, used with tasks only.
unfoldable pub lines_per_task : ℕ → ℕ → ℕ
lines_per_task line_count num_tasks = (line_count + (num_tasks - 1)) / num_tasks

unfoldable pub partition : String → ℕ → ℕ → ℕ → Partition
partition file line_count lines i = record {
  id = i;
  file_name = file;
  start = i * lines;
  last =
      if ltb line_count (i * lines + lines)
      then minus_one line_count
      else minus_one (i * lines + lines);
}

-- The loop, with the rounds that are left.
unfoldable pub partitions_from : String → ℕ → ℕ → ℕ → ℕ → List Partition
unfolding partition
partitions_from file line_count lines zero i = []
partitions_from file line_count lines (suc k) i =
    partition file line_count lines i ∷ partitions_from file line_count lines k (suc i)

unfoldable pub partition_input_data : String → ℕ → ℕ → List Partition
unfolding partitions_from lines_per_task
partition_input_data file line_count num_tasks =
    partitions_from file line_count (lines_per_task line_count num_tasks) num_tasks 0
