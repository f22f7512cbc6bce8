-- ===== src/Lib.antt =====
-- RainStorm: stream processing over a distributed file system over a gossip membership.
--
-- A node keeps a membership list (GroupMembership/), sorted by the place of each member on a ring
-- of 2048 places. It pings its neighbours, gossips messages about joins, leaves, suspicions and
-- failures, and signals joins and failures to the file system (HyDfs/). The file system places a
-- file on the three peers behind its hash, logs each write, replicates the log entry, merges the
-- log into the file when it is read, and repairs the replicas when a node fails. The stream layer
-- (Stream/) cuts an input file into partitions and assigns tasks to workers: those of stage 1 run an
-- operator on the lines of a partition and send the tuples, by the hash of the key, to those of
-- stage 2, which acknowledge them and write results and ids to the file system. When a worker
-- fails the leader gives its task to another one, which starts from these files. The command line
-- (CLI/) turns what is typed into calls of the three parts.
--
-- The files, by the part of the repository that they model:
--   Prelude         shared names; Go maps as association lists; panics and waiting (`Run`);
--                   path/filepath and strings as far as they are used (`Paths`, `Text`)
--   Config          Config/config.go, Config/hash.go: the configuration and the ring places
--   Membership/Types, Table, Conflicts, Service, Gossip, Detector, Listen, Join, Repair
--                   GroupMembership/: membershipList.go is Table, Service and part of Gossip,
--                   messages.go is Types and Conflicts, process.go is Gossip, Detector and Listen,
--                   introducer.go and suspicion.go are Listen and Join, repairFailures.go is
--                   Repair
--                   A datagram is received into 1024 bytes, and a longer one is not understood; its
--                   length is an argument, since it is that of its JSON text
--   Membership/System
--                   the goroutines of process.go in any order: a step relation over the rounds that
--                   Detector and Listen model, and the states it reaches
--   Hydfs/Routing   HyDfs/utils/ring.go
--   Hydfs/AppendLog HyDfs/AOL/aol.go
--   Hydfs/Cache     HyDfs/utils/cache.go
--   Hydfs/Failure   HyDfs/hydfs.go, GetFilesInRange of HyDfs/utils/utils.go, and
--                   TransferFilesOnFailure of HyDfs/coordinator.go
--   Hydfs/Requests  HyDfs/coordinator.go, HyDfs/fileOperations.go, HyDfs/AOL/replicate-aol.go
--   Hydfs/Replication
--                   ReplicateLogEntryToNeighbors of HyDfs/AOL/replicate-aol.go and
--                   ReplicateLogEntry of HyDfs/fileOperations.go
--   Hydfs/Transfer  TransferFile and the streams of HyDfs/fileOperations.go, ReadFileFromLocal of
--                   HyDfs/utils/utils.go
--   Hydfs/Merging   InitateMerge, TriggerMerge and Multiappend of HyDfs/coordinator.go, MergeFile,
--                   NotifyPrimaryToMerge and MultiAppend of HyDfs/fileOperations.go
--   Stream/Partition, Stream/Leader
--                   Stream/leader.go, Stream/utils-leader.go: partitions, assignment, completion
--   Stream/Recovery the same two files: failed and joined workers, and rescheduling
--   Stream/Progress the same two files: the start of a job, the reports of the workers, the monitor
--   Stream/Tuples   the receiving of tuples in Stream/worker.go and Stream/utils-tasks.go
--   Stream/Prepare  PrepareTask of Stream/utils-tasks.go
--   Stream/Network  the receiver and the sending of a tuple: Stream/models/hash.go,
--                   Stream/network/transfer.go, and parts of Stream/helper.go and
--                   Stream/utils-tasks.go
--   Stream/Sender   the tasks of stage 1 in Stream/utils-tasks.go and Stream/worker.go
--   Stream/Operators
--                   the operator programs Stream/App1_Exec and Stream/App2_Exec
--   Stream/Counting a worker of stage 2 that runs the counting program of Stream/App2_Exec, with
--                   ConvertOutputToTuple of Stream/helper.go; in Whole, this worker together with the
--                   tasks of stage 1 that send to it
--   Cli             CLI/cli.go, CLI/utils.go
--   Witnesses       the theorems at concrete inputs
-- A definition has the name of the Go function in snake case; a loop or a branch of a function that
-- is a definition of its own names the function in its comment. Child modules of a component hold
-- its proofs.
--
-- Numbers are natural numbers; where the source subtracts and may go below zero, the case is
-- written out or the value is an integer (`ℤ`). A mutex is a flag, and waiting for it is the result
-- `blocked`; a panic is `panic`, or `none` where nothing can block. What is sent on a channel or a
-- socket is appended to a list of the state. The rounds of a goroutine, each up to its next wait, are
-- functions that the environment runs in any order; Membership/System has this order as an indexed
-- data type. The order in which Go ranges over a map is an argument.
--
-- Fuel: the binary search of Membership/Repair has the length of the list plus one, which its
-- theorem shows to be enough; the loops of `ReadLog` take fuel as an argument, and their theorem
-- shows that more fuel than the log has entries is enough. The reading of a file in chunks has fuel
-- too, and more than the length of the file is enough. The loop of `ResendUnackedTuples` takes its
-- rounds as fuel, and nine are enough. All other loops are structural.
--
-- Parameters: the hash `murmur3.Sum32` (`Config.sum32`), and the package `arriqaaq/aol` with the
-- JSON encoding of its entries (`Hydfs.AppendLog.Env`), with what the code relies on as laws;
-- SHA-1, `fmt`, JSON, the operator processes and the answers of the network (`Stream.Network.Env`);
-- `strconv` and the test tuple (`Cli.Env`); the files of a worker (`Stream.Tuples`,
-- `Stream.Prepare`); regular expressions, JSON and `strconv` for the operator programs
-- (`Stream.Operators.Packages`), with how JSON prints and reads a plain key and how numbers are
-- printed by digits and read back as laws (`Stream.Operators.Adds.Laws`,
-- `Stream.Counting.Fresh.ReadsBack`).
--
-- Not modelled: sockets, gRPC, timers and the file system beyond the contents of the files, since
-- they are I/O; the log querier, the start-up code and the generated protocol code. The connections between workers,
-- the printing, the collection of the errors of the
-- goroutines of `TriggerMerge` and `Multiappend`, the interleaving of those of `TriggerMerge` (they run
-- one after the other), and the interleaving of the goroutines for several
-- failed workers with each other are not modelled either, nor that of two rounds of a node between
-- their locks.
pub mod Cli
pub mod Config
pub mod Hydfs
pub mod Membership
pub mod Prelude
pub mod Stream
pub mod Witnesses
