-- ===== src/Lib.antt =====
-- Verification of the Ascend C operator ChunkScaledDotKkt: for every chunk of at most 64 positions
-- and every KV head, the Gram matrix of the keys is scaled by beta and by a gated exponential.
--
-- The host side validates the input shapes, chooses the number of MIX groups and fills the tiling
-- data. On the device a group is one AIC (Cube) and two AIVs (Vector). The scheduler gives each group
-- a sequence of tasks (chunk, KV head). For each task the AIC computes the Gram tile, waits until
-- the workspace slot of the round is free, writes it and signals READY; both AIVs wait for READY,
-- load the tile, signal FREE where the slot is used again, compute their heads and copy the result
-- out one batch later.
--
-- Files:
--   Prelude        shared names, lists, 32-bit integers, division and ranges.
--   Device         op_kernel/chunk_scaled_dot_kkt_tiling_data.h, and the constants and helpers at the
--                  top of op_kernel/chunk_scaled_dot_kkt.h.
--   Schedule       UseChampionGroupAlignedSchedule, ScheduledTaskCount, ScheduledTaskId; Spec says
--                  what a schedule owes to a launch, Cyclic, Local and Aligned are the three
--                  schedules, Partition and Balance put them together.
--   Host           op_host/chunk_scaled_dot_kkt_tiling.cpp and _infershape.cpp: Shapes is
--                  ValidateAndReadShape, BlockDim the choice of the groups, Host itself the tiling
--                  function, whose writes are returned also where it fails.
--   Vector         the class ChunkScaledDotKktVectorStage: Vector holds its mutable fields, the
--                  commands and the monad of the methods; Output the output slots, Load the
--                  transfers, Factor the vector instructions, Task one task of a lane, Walk the
--                  loops and Process; Turns and Agreement compare the loops with the schedule,
--                  Shares says how lanes and batches share out a task, Copies where the copies of a
--                  batch land, Contract is the contract of the output queue and its events,
--                  Prefetch that of the queues of gates and betas,
--                  Buffers holds the sizes of the local buffers and what a command touches of them,
--                  Handshake is its side of the READY and FREE protocol.
--   Vector/Values  what the buffers and tensors of a lane hold. Values is the effect of an
--                  instruction of PIPE_V, Lane that of every command on local memory, the queues'
--                  tensors and the output tensor; Formula is the factor of an element. Then, from
--                  the inside out: Single, Pair and Prepared for the factor of one and of two heads,
--                  Loaded and Opened for the transfers, Delayed for the batch that is held back,
--                  Finished, Batch, Computed, Range, Steps and Batches for the batches of a task,
--                  Tasks and PipelineTask for a task, FusedFactor, Fused and Adjacent for a pair of
--                  chunks, Expected, Fusion, Run and Whole for the loops and Process, Covered,
--                  Result, Owners and Launch for all lanes, Golden for the function
--                  ComputeExpectedAt of examples/test_aclnn_chunk_scaled_dot_kkt.cpp.
--   Cube           the classes PackedGramMmadCubeStageK256 and K128 as sequences of commands; Events
--                  is the monitor of the flags between the pipelines of the AIC and of the tiles
--                  that they hand over, Handshake the AIC's
--                  side of the READY and FREE protocol, Access and Bounds its reach into the
--                  global tensors.
--   Pipeline       op_kernel/chunk_scaled_dot_kkt.cpp and the three cores of a MIX group together:
--                  every order of their commands that the flags and queues allow.
--
-- A method of a device class is modelled by the fields that it changes and by the commands that it
-- gives to the hardware and to the library's queues, with the operands that the code passes.
-- chunkOffsets is a function from an index to a 32-bit word; the tests on chunks read the words as
-- signed, with wrap-around of the difference. Tiling data are plain numbers, not negative; the
-- int64_t products of the scheduler are taken as exact. The while loops of the R = 3 walks run on
-- fuel, one more than the number of tasks of the group, since every turn consumes a task; the
-- comparison with the schedule would fail if the fuel ran out. The int32_t localRound is a number
-- without bound where only its parity is used, which gives the slot; where it is compared, it is
-- read as the signed low 32 bits (is_late_round, slot_reused in Device), and what depends on that
-- is stated for groups of at most 2^31 tasks.
--
-- The flags between the cores are the framework's. They are taken as documented: in mode 2 each
-- pair of the AIC and one AIV has a counter for every flag, a set raises it and a wait lowers it;
-- the AIC sets for both AIVs and waits for both. A command of a core takes effect before its next
-- one: the order within a core between its pipelines is what the event flags and the queues
-- provide, whose discipline Cube.Events, Vector.Contract, Vector.Prefetch and, for the reads of the
-- workspace, Vector.Handshake watch. In Pipeline all of these flags and queues block.
--
-- The arithmetic of float and bfloat16_t is a parameter: five operations and two zeroes, of which
-- nothing is assumed but, for the comparison with the CPU reference alone, the laws of exact
-- arithmetic. What a newly allocated tensor of a queue holds is a parameter too. A lane's commands
-- take effect one after the other; the barriers and events that make the pipelines of a lane do so
-- are not part of the values. The lanes of a launch are taken one after the other, in any order,
-- the commands of different lanes are not interleaved; the workspace that a lane reads is what it
-- holds in the round that READY has opened. That it holds the inner products of the keys is a
-- hypothesis of the comparison with the CPU reference, for valid chunks and their rows and columns.
--
-- Not modelled: the contents of the Cube's buffers and its sum over K, the timing of the pipelines,
-- logging, registration macros, the pointer set-up of the Init methods, the other
-- functions of the examples, the tools, and the earlier versions under versions/.
pub mod Prelude
pub mod Device
pub mod Schedule
pub mod Host
pub mod Vector
pub mod Cube
pub mod Pipeline
