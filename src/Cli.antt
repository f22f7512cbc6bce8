-- ===== src/Cli.antt =====
-- CLI/cli.go and CLI/utils.go: what a line at the prompt asks for. The line has been trimmed. Of the
-- numbers that `strconv.Atoi` gives, only those that are not negative are modelled. What a command
-- prints is left out, and so is what the called component does, which its own file models.
pub mod Parse
use Prim.Native.Char.{Char, code}
use Prim.Native.String.{◌++◌ as join}
use rain_strom_distributed_s.Prelude.{
  ℕ, zero, suc, Bool, true, false, not, ◌&&◌, ◌||◌, Option, none, some, List, [], ◌∷◌, map, String,
  str_eq, if◌then◌else◌, ◌==◌, ◌>>=◌, get_elem?, length, last, ltb,
}
use rain_strom_distributed_s.Prelude.Paths.{strip_ext}
use rain_strom_distributed_s.Prelude.Text.{split}
use rain_strom_distributed_s.Hydfs.Requests.{CreateCommand}

-- The character is put behind the text.
unfoldable pub write_rune : Char → String → String
write_rune c String.[] = String.◌∷◌ c String.[]
write_rune c (String.◌∷◌ d s) = String.◌∷◌ d (write_rune c s)

-- `currentArg`, if it is not empty.
unfoldable pub flush : String → List String → List String
flush String.[] rest = rest
flush (String.◌∷◌ c s) rest = String.◌∷◌ c s ∷ rest

-- The body of the loop of `parseArguments` for a character: whether the argument ends, the argument
-- that is built then, and `inQuotes`.
unfoldable pub scan_char : Char → String → Bool → Bool × String × Bool
unfolding write_rune
scan_char c current in_quotes =
    if code c == b'"'
    then (false, current, not in_quotes)
    else if code c == b' ' && not in_quotes
    then (true, String.[], in_quotes)
    else (false, write_rune c current, in_quotes)

unfoldable pub parse_from : String → String → Bool → List String
unfolding scan_char flush
parse_from String.[] current in_quotes = flush current []
parse_from (String.◌∷◌ c s) current in_quotes =
    let (ends, next, quotes) = scan_char c current in_quotes in
    let rest = parse_from s next quotes in if ends then flush current rest else rest

unfoldable pub parse_arguments : String → List String
unfolding parse_from
parse_arguments input = parse_from input String.[] false

abbrev pub hdfs_file_path : String
hdfs_file_path = "HyDfs/Files/HYDFS-Files"

abbrev pub in_hydfs : String → String
in_hydfs name = join hdfs_file_path (join "/" name)

abbrev pub in_files : String → String
in_files name = join "HyDfs/Files/" name

pub record MultiAppendCommand : Type 0 where
  pub hydfs_file_name : String
  pub local_files : List String
  pub vms : List ℕ

-- `RainStromRequest`; `line_count` and `pattern` are its metadata.
pub record RainStromRequest : Type 0 where
  pub op_1_exe : String
  pub op_2_exe : String
  pub hydfs_src_file : String
  pub hydfs_dest_file : String
  pub num_tasks : ℕ
  pub line_count : String
  pub pattern : String

-- The packages that the commands use: `strconv`, and `json.Marshal` of the tuple that `create`
-- writes.
pub record Env : Type 0 where
  pub atoi : String → Option ℕ
  pub itoa : ℕ → String
  pub test_tuple : List ℕ

unfoldable pub parse_vms : Env → List String → Option (List ℕ)
parse_vms env [] = some []
parse_vms env (s ∷ rest) = do vm ← env.atoi s; vms ← parse_vms env rest; some (vm ∷ vms)

unfoldable pub create_multi_append_request :
    Env → String → String → String → Option MultiAppendCommand
unfolding split parse_vms
create_multi_append_request env name arg1 arg2 = do
  vms ← parse_vms env (split b',' arg2)
  some (record {
    hydfs_file_name = in_hydfs name;
    local_files = map in_files (split b',' arg1);
    vms = vms;
  })

-- `ExtractLineCountFromFilename` of HyDfs/utils/utils.go, for a name without a slash.
unfoldable pub extract_line_count_from_filename : Env → String → Option ℕ
unfolding split strip_ext
extract_line_count_from_filename env name =
    let parts = split b'_' (strip_ext name) in
    if ltb (length parts) 2 then none else (last parts >>= env.atoi)

unfoldable pub create_rain_request :
    Env → String → String → String → String → String → RainStromRequest
unfolding extract_line_count_from_filename
create_rain_request env op1 op2 src dest pattern = record {
  op_1_exe = join "./" op1;
  op_2_exe = join "./" op2;
  hydfs_src_file = in_hydfs src;
  hydfs_dest_file = in_hydfs dest;
  num_tasks = 2;
  line_count = elim (extract_line_count_from_filename env src) [
    | none ↦ "1000"
    | some n ↦ env.itoa n
  ];
  pattern = pattern;
}

-- What the loop does with a line. A job goes to the leader of this node, if it has one.
pub data Action : Type 0 where
  list_membership list_self no_join status_suspicion show_suspected exit show_messages : Action
  run_coordinator file_routing store connect print_tasks nothing invalid usage unknown : Action
  join_group leave : ℕ → Action
  set_suspicion : Bool → Action
  write read : CreateCommand → Action
  merge locate : String → Action
  multi_append : MultiAppendCommand → Action
  job : Bool → RainStromRequest → Action

abbrev write_command : String → String → CreateCommand
write_command local_name name = record {
  local_file_name = in_files local_name;
  hydfs_file_name = in_hydfs name;
  is_create = false;
  is_stream_results = false;
  file_data = [];
  vm_id = 0;
}

abbrev read_command : ℕ → String → String → CreateCommand
read_command vm name local_name = record (write_command local_name name) { vm_id = vm }

-- `PerformWriteData` of the command line, as `create` calls it.
abbrev create_command : Env → String → CreateCommand
create_command env name = record {
  local_file_name = "";
  hydfs_file_name = in_hydfs name;
  is_create = true;
  is_stream_results = true;
  file_data = env.test_tuple;
  vm_id = 0;
}

unfoldable pub job_action : Env → Bool → List String → Action
unfolding create_rain_request
job_action env leads (a ∷ op1 ∷ op2 ∷ src ∷ dest ∷ pattern ∷ rest) =
    Action.job leads (create_rain_request env op1 op2 src dest pattern)
job_action env leads _ = Action.usage

-- The `switch` for a command and its arguments. `none` is a panic: an argument that is missing.
unfoldable pub dispatch : Env → ℕ → Bool → String → List String → String → Option Action
unfolding create_multi_append_request parse_arguments job_action
dispatch env server leads name args input =
    let arg = get_elem? args in
    let is : String → Bool = str_eq name in
    if is "list_mem" || is "lm"
    then some Action.list_membership
    else if is "list_self"
    then some Action.list_self
    else if is "join"
    then some (if server == 2 then Action.no_join else Action.join_group server)
    else if is "leave"
    then some (Action.leave server)
    else if is "enable_sus"
    then some (Action.set_suspicion true)
    else if is "disable_sus"
    then some (Action.set_suspicion false)
    else if is "status_sus"
    then some Action.status_suspicion
    else if is "show_sus"
    then some Action.show_suspected
    else if is "exit"
    then some Action.exit
    else if is "show_msgs"
    then some Action.show_messages
    else if is "runCordinator"
    then some Action.run_coordinator
    else if is "rc" || is "create"
    then (do name ← arg 2; some (Action.write (create_command env name)))
    else if is "append"
    then (do local_name ← arg 1; name ← arg 2; some (Action.write (write_command local_name name)))
    else if is "read" || is "get"
    then (do local_name ← arg 2; name ← arg 1; some (Action.read (read_command 0 name local_name)))
    else if is "getfromreplica" || is "getrc"
    then (do
      vm ← arg 1
      local_name ← arg 3
      name ← arg 2
      some (
          Action.read
            (read_command (elim (env.atoi vm) [ none ↦ 0 | some n ↦ n ]) name local_name)))
    else if is "merge"
    then (do name ← arg 1; some (Action.merge (in_hydfs name)))
    else if is "fr"
    then some Action.file_routing
    else if is "store"
    then some Action.store
    else if is "ls"
    then (do name ← arg 1; some (Action.locate (in_hydfs name)))
    else if is "multiappend"
    then (do
      name ← arg 1
      files ← arg 2
      vms ← arg 3
      some (elim (create_multi_append_request env name files vms) [
        | none ↦ Action.invalid
        | some c ↦ Action.multi_append c
      ]))
    else if is "job"
    then some (job_action env leads (parse_arguments input))
    else if is "conn"
    then some Action.connect
    else if is "taskMap"
    then some (if leads then Action.print_tasks else Action.nothing)
    else some Action.unknown

-- A round of `CliUtility`, for the line that was read.
unfoldable pub cli_utility : Env → ℕ → Bool → String → Option Action
unfolding split dispatch
cli_utility env server leads input =
    let args = split b' ' input in
    do name ← get_elem? args 0; dispatch env server leads name args input
