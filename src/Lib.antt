-- ===== src/Lib.antt =====
-- TorchSlicer: a model is traced into a graph of layers, a splitter cuts the graph into partitions,
-- validate accepts or rejects them, and the executors run one slice per partition, each on the
-- output of the one before.
--
-- The paths below are under lib/torchslicer/torchslicer/.
--
-- Common holds what all parts share: Boolean tests on the native numbers (Tests), Python's lists
-- (Lists), `sorted` and `set` on numbers (Sorting), and results of code that may raise (Results).
--
-- Graph is core/model_graph.py: LayerNode, ModelGraph, `_chain` (chain), the loop of `_trace` that
-- fills in the successors (link), valid_cuts, index_of and run_nodes. Its modules state when a cut
-- is allowed (Graph/Cuts), that the cuts come in order (Graph/Increasing) and what a chain looks
-- like (Graph/Chains). torch is a parameter, the record Torch: what a layer computes from its
-- inputs.
--
-- Strategy is strategies/: Strategy/Base is base.py (Partition, partitions_from_cuts,
-- _intra_predecessors, validate), Strategy/Balance is the dynamic program balanced_cuts of
-- cost.py, Strategy/Costed its CostSplitter.split and MemorySplitter.split, Strategy/Uniform is
-- uniform.py and Strategy/Named is named.py; Strategy/Recovery is the plan for the survivors of a
-- failure, _build_recovery_partitions of executors/distributed.py. The errors that a function may
-- raise are a data type, and its result is `ok` or `raise`; the texts of the messages are left
-- out. The float arithmetic of balanced_cuts is a parameter, the record Floats, of whose
-- comparison the proofs use that it is a total order (there is no NaN); infinity is `none`, so
-- the costs are finite. A list that the code indexes by partition is a function of the index.
-- `best[p]` and `back[p]` are one list of cells, row `p`.
--
-- Split is core/split_layer.py, SplitLayer.run, and how executors/local.py builds the slices and
-- passes a batch through them (forward), with the users' hooks of the cuts (`_cut_forward`).
-- Exceptions are `none`. Split/Layers, Split/Slices and
-- Split/Paths follow one slice, Split/Refinement all of them.
--
-- Clients is sl/clients.py: ClientSession with its two modes. Clients/Order is `_order`, Clients
-- itself `_switch`, `finish`, `replace_states` and select_clients, and Clients/Rounds is
-- `batches`. The state that the client's slices hold, which the adapter reads and replaces, is a
-- field of the session; what the caller does with a batch is a function on that state and the
-- server's, which all clients share.
--
-- Roles is sl/roles.py: which slices the data owner hosts, and what leaves it.
--
-- Discovery is discovery/coordinator.py: the nodes that have registered, what handle_register
-- makes of them, and what discover and idle_nodes select. Retry is retry.py: a call that fails a
-- number of times.
--
-- Transport is transport/tunnel.py. Transport/Tunnels is one end of a tunnel, whose callers,
-- reader and closer take its lock one after the other: a run is a list of such events.
-- Transport/Routers is a node's router; that the relay's tunnel opens in time, and how a plain
-- channel answers, are arguments.
--
-- Worker is executors/worker.py. Worker/Stages is the work of the pool, which has one thread:
-- jobs with the generation in which they were submitted, run one after the other, with an init
-- between two of them; torch is the record Network, and the calls of other nodes are a list of
-- effects. The record Hooks has the hooks of the cuts, what a forward pass leaves in a layer (the
-- auxiliary loss of a mixture of experts) and the step of a worker with tied parameters; the
-- theorems are of workers with none of these (IsPlain). Worker/Pairs says what a batch's jobs
-- come to. Worker/Pipeline is a batch on its way from _send_batch of executors/distributed.py
-- through a pipeline of such workers and back: the work that a message causes, in all workers, is
-- done before the next micro-batch is sent, while in the program micro-batches overlap; auxiliary
-- inputs are left out, and torch's chunk is an argument. Pipeline/Backprop is the training step
-- that it is compared with. Worker/Overlap has the overlapping micro-batches: each worker with
-- any list of jobs, of which those of the new generation are what its neighbors' jobs sent.
-- Worker/TiedSync is _optimize of workers with tied parameters, in two parts: a replica hands its
-- gradients over, and the owner waits, steps and pushes its values; a replica's own step comes
-- with its hand-over; the parts of different workers come in any order, and a call of another
-- worker takes effect at once. The raw tensor connection between neighbors has two ends:
-- Worker/Wire has the bytes that the sending ends produce, Worker/Frames the receiving loop on a
-- socket that answers a recv with any portion of what is there, or with a timeout; whether the
-- byte that answers a handle can be sent is an argument. pickle, of the handles, is an argument,
-- and struct is written out as the digits of a number.
--
-- Tied is core/tied.py: the groups of a parameter's uses, from the list of the uses that
-- named_parameters gives, and the owner of a group.
--
-- Offload is offload/pager.py. Offload/Layouts lays the tensors of a slice out in a region of
-- bytes, and Offload/FileHome has the transfers of `_FileHome.io` with calls that may transfer
-- less than asked. Offload/Pager is SlicePager: a page and a slot hold what their regions hold as
-- values, and say where the slice's tensors point, so that what a slice reads as is a function on
-- the state. Transfers take effect when they are issued, as they do on a device without streams;
-- on CUDA the events order them. What a computation writes between acquire and release, and what
-- the optimizer makes of the parameters on the host, are arguments. The values of a new buffer
-- are arbitrary.
--
-- DataSplit is data/partition.py: partition with the five methods that ship. numpy and its
-- generator of random numbers are the record Numpy, with the number of a draw for the generator's
-- state; labels and group ids are natural numbers. DataSplit/Covers says what the proofs use of
-- numpy's documentation; the sums of the shares and the cuts between them are written out, on
-- floats that are a type with an addition.
--
-- All loops are structural recursion, or recursion on the number of rounds, which is the length of
-- the range that the source loops over. The exceptions are the parallel order of Clients/Order, on
-- fuel: one pass more than a client has batches is enough for that client; and the transfers of a
-- file home, on as much fuel as there are bytes, of which each call transfers one or more; and the
-- loop of a tensor connection, on one more than the socket's events, of which each round takes one
-- or more.
--
-- Not modelled: tracing by torch.fx, gradients and optimizers, the hooks on the gradients of
-- executors/local.py, how tied parameters and a pipeline's jobs go together, mixed precision, the
-- measurement of node costs, an init of a worker while one of its jobs runs, NCCL, and the
-- threads, channels, processes and logs around the executors.
mod Common
pub mod Graph
pub mod Strategy
pub mod Split
pub mod Tied
pub mod Clients
pub mod Discovery
pub mod Retry
pub mod DataSplit
pub mod Transport
pub mod Worker
pub mod Roles
pub mod Offload
