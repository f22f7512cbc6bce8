-- ===== src/Stream/Counting.antt =====
-- Stream/utils-tasks.go and Stream/helper.go with the programs of Stream/App2_Exec: a worker of
-- stage 2 that counts, whose operator is the program itself. `output_map` is read for the arguments
-- of the program and takes what it prints. Files can be opened and written.
pub mod Fresh
pub mod Once
pub mod Sent
pub mod Lines
pub mod Returns
pub mod Whole
use rain_strom_distributed_s.Prelude.{
  ℕ, true, Option, none, some, List, [], ◌∷◌, String, Map, lookup, string_eq, ◌>>=◌,
}
use rain_strom_distributed_s.Stream.Tuples.{Tuple, World, Receiver, exchange}
use rain_strom_distributed_s.Stream.Network.{Output}
use rain_strom_distributed_s.Stream.Sender.{or_zero}
use rain_strom_distributed_s.Stream.Operators.{Packages, app2_op2}

-- `ConvertOutputToTuple`: what is no JSON leaves the zero values.
unfoldable pub convert_output_to_tuple : Packages → String → Output
convert_output_to_tuple lib text = elim (lib.unmarshal text) [
  | none ↦ record { key = ""; value = 0 }
  | some (key, value) ↦ record { key = key; value = value }
]

-- `ProcessReceivedTuples` around the process: its arguments, and the value of what it prints.
unfoldable pub execute_count : Packages → Map String ℕ → Tuple → Option ℕ
unfolding convert_output_to_tuple app2_op2
execute_count lib counts t = do
  out ←
      app2_op2 lib (lib.itoa (or_zero (lookup t.key counts)) ∷ lib.marshal_tuple t.key t.value ∷ [])
  some (convert_output_to_tuple lib out).value

abbrev pub counting : Packages → Receiver → World
counting lib r = record {
  opens_aol = true;
  execute = execute_count lib r.output_map;
  writes_data = λ id. true;
  writes_aol = λ id. true;
}

-- The worker after the tuples of its streams, in the order in which the mutex lets them through.
unfoldable pub count_all : Packages → List Tuple → Receiver → Receiver
unfolding exchange execute_count
count_all lib [] r = r
count_all lib (t ∷ ts) r = count_all lib ts (exchange (counting lib r) t r).0
