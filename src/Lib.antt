-- ===== src/Lib.antt =====
-- Shreduler: a fiber scheduler for Ruby on top of tokio (ext/shreduler).
--
-- The program. Ruby calls a method of TokioScheduler when a fiber would wait. The method packs the wait
-- into an async block, spawns it into a JoinSet together with the fiber that runs, and transfers
-- control to the root fiber. The root fiber runs the event loop of close.rs, which joins the next task
-- that is ready and resumes its fiber with the result, until the set is empty. What the parts share is
-- the scheduler: the set and the map of blocked fibers, each in a cell that counts its borrows at run
-- time, and the runtime.
--
-- How it is modelled. A computation is a function from the state of the process to an outcome and the
-- next state (Async): a value, an error, a panic, a future that was dropped at an await, or a loop of
-- the model out of fuel. An async block is such a computation, run to its end with its awaits inside.
-- The state is Scheduler.Process: the scheduler, and all that lies outside it. Another fiber may change
-- any of it while it runs, so that a transfer is a call that returns in any state.
-- Code of other crates and of the Ruby VM is a parameter: Ruby.Ruby, Scheduler.Tokio, the wait of
-- select! in Scheduler.Run, Scheduler.Timeout.Timers, Scheduler.BlockUnblock.Oneshot,
-- Scheduler.ProcessWait.Wait, RubyIo.Io, Intern.Interning, IoBuffer.Buffers, Scheduler.IoReadWrite.Streams,
-- Scheduler.IoSelect.Sets, Scheduler.IoWait.Events, Scheduler.FiberSpawn.FiberClass and
-- Scheduler.AddressResolve.Lookup; all of them together are Scheduler.Methods.Outer. What magnus does for
-- init is Scheduler.Methods.Init.Magnus. What is documented of them, where a theorem relies on it, is a record of
-- laws: TokioLaws, SelectLaws, TimersLaws, FcntlLaws, StreamsLaws, SetsLaws, JoinLaws, OwnershipLaws,
-- OneshotLaws, WaitpidLaws, and for the VM Keeps and Returns. Tests builds small worlds in which they
-- hold.
--
-- The files, below ext/shreduler/src:
--   Base                    numbers, tests, lists, 32-bit words; no code of the program
--   Async                   outcomes and do blocks; no code of the program
--   Errors                  errors.rs
--   GcCell                  gc_cell.rs; GcCell.Guards is a cell with the guards that are alive,
--                           GcCell.Threads a cell and the threads that share it, of which one at a time
--                           makes one access, GcCell.Threads.Refines the two side by side,
--                           GcCell.UnitTests its unit tests
--   Ruby                    what is called of the VM
--   Fiber                   fiber.rs; a method keeps its name
--   FiberFuture             fiber_future.rs; resume_with is the match in resume_if_alive
--   HashMap                 std's HashMap keyed by fibers, as an association list
--   TimeoutDuration         timeout_duration.rs
--   Nilable                 nilable.rs
--   Intern                  intern.rs; memoize! is a parameter
--   RubyIo                  ruby_io.rs; backing_ready and ruby_ready are the two methods named ready,
--                           guard_new and guard_drop those of NonBlockGuard, ruby_drop
--                           that of RubyIo
--   IoBuffer                io_buffer.rs; a mutable slice is where it is and its length, IoBuffer.UnitTests
--                           its unit tests
--   Scheduler               tokio_scheduler.rs; spawn_into is the statement on the cell of the set
--   Scheduler.Methods       the methods that its init registers, as calls
--   Scheduler.Methods.Init  how init of tokio_scheduler.rs and of lib.rs registers them
--   Scheduler.Mark          its mark, with the marked values as the state
--   Scheduler.Run           tokio_scheduler/close.rs; take_task and dispatch are the two halves of a round,
--                           shutdown is what close does after run
--   Scheduler.Timeout       tokio_scheduler/timeout_after.rs and kernel_sleep.rs
--   Scheduler.BlockUnblock  tokio_scheduler/block_unblock.rs
--   Scheduler.ProcessWait   tokio_scheduler/process_wait.rs
--   Scheduler.IoWait        tokio_scheduler/io_wait.rs
--   Scheduler.IoReadWrite   tokio_scheduler/io_read_write.rs
--   Scheduler.IoSelect      tokio_scheduler/io_select.rs
--   Scheduler.AddressResolve  tokio_scheduler/address_resolve.rs
--   Scheduler.FiberSpawn    tokio_scheduler/fiber_spawn.rs
--   Scheduler.Session       all of these at once: the fibers of a program, each with what it does, and the
--                           turns that spawn_and_transfer, the rounds of the loop and fiber hand on
--   Scheduler.Interrupts    thread.rs
--   Tests                   a concrete world, runs in it, and each theorem at an input of it
-- The async block of a method m is named m_future, and its part under a guard m_guarded.
--
-- Sessions. Scheduler.Session.Step is one turn of the whole program, from one transfer of control to the
-- next, made of the operations of the other files; the code of a fiber between two turns may do anything
-- that leaves the set as it is. A session starts from the scheduler that new makes. Its ledger says of
-- each fiber whether it runs, waits for a future, waits for the block of a fiber it has made, has lost
-- its future, or has ended. Scheduler.Session.Progress, Scheduler.Session.Making,
-- Scheduler.Session.GivesBack, Scheduler.Session.Rounds and Scheduler.Session.Interrupts show from the
-- code of spawn_and_transfer, of fiber and of the loop that it takes these turns.
-- Scheduler.Session.Turns forgets all but the fiber that runs and the fibers of the tasks, as a
-- multiset. Not in a session: a wait that is called on the root fiber, futures that act on a fiber
-- themselves, as the timer of timeout_after does, and fibers that other code makes or whose address is
-- used again.
--
-- Bounds and fuel. The counters of a cell are 32-bit patterns that wrap, and the test for positive is
-- the signed one. Pids are 32-bit patterns too. Durations and amounts have no bound; the deadline that
-- the clock cannot hold is the case in which checked_add has no result. The event loop, the poll of a
-- process wait and the interrupt loop take fuel. The loop of a server has no bound of its own: the
-- fuel is enough where it is more than the futures in the set and those that the program is still to
-- spawn. For the poll of a process wait it is enough when some measure of the signals that are left falls
-- with every turn.
--
-- Not modelled: logging and what Debug prints, the files that build the extension, and the parsing of
-- the methods' arguments but for the conversions that the program defines. The bytes that a read puts
-- into a buffer are not modelled, only their number. The scheduler's own steps are not interleaved with
-- other threads; only the cell alone is. Messages carry the numbers that they print and, but for the class
-- in that of a value that is no buffer, no text.
pub mod Base
pub mod Errors
pub mod GcCell
pub mod Async
pub mod Ruby
pub mod Fiber
pub mod FiberFuture
pub mod TimeoutDuration
pub mod HashMap
pub mod Nilable
pub mod RubyIo
pub mod Scheduler
pub mod Tests
pub mod Intern
pub mod IoBuffer
