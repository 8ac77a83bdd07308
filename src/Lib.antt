-- ===== src/Lib.antt =====
-- Verification library for the CNC firmware under stm32_firmware/core-master (the files named
-- below are in that folder): the parts that decide what is executed, and when, and the expressions
-- that programs compute with.
--
-- How the parts interact. Characters reach `protocol_main_loop` (protocol.c) from an input stream.
-- The interrupt of the stream takes realtime commands out of it; override commands among them go
-- to the three rings of override.c, which the realtime executor empties. The main loop collects
-- the rest to lines and hands each line to the module that executes it. A line may open a file
-- (stream_file.c), whose text then takes the place of the input stream until it ends; files nest.
-- O-words in such a file are executed by `ngc_flowctrl` (ngc_flowctrl.c), which may skip lines, go
-- back in the file, or open and close files of named subroutines. The realtime executor hands the
-- requests that interrupts and commands have set (`rt_exec`) to the state machine
-- (state_machine.c), which starts, holds and ends motions, and which parks the tool and switches
-- spindle and coolant off while the safety door is open.
--
--   Override     override.c. `OverrideQueue` is `override_queue_t`, its array a list; `enqueue` and
--                `dequeue` are the bodies that the three pairs of functions share. Override/Queue
--                is the specification, Override/Valid the invariant of the indices,
--                Override/Refine the refinement.
--   StreamFile   stream_file.c. The linked list of `rd_stream_t` is a list, a file is a number, and
--                `FileReader` holds what is left of a file, with whether it stands at a line end.
--   FlowCtrl     ngc_flowctrl.c. `Flow` holds the static variables, the position in the line, the
--                positions of the files and the input stream; `Request` the arguments of one call
--                and what it reads from other modules. Each case of the switch is a function
--                (`exec_if`, `exec_while`, ...), `exec_command` is the switch and `ngc_flowctrl`
--                the whole. `stack` has its top first; the array is cleared above `stack_idx`, so
--                that the list is the whole state. Subroutines are told apart by the number of
--                their node (`malloc`), since the code compares pointers.
--   Expression   ngc_expr.c, and `read_float` and `read_uint` of nuts_bolts.c. `Cursor` is the line from
--                `*pos` on, with the position; `Got` what a reader leaves, and `Outcome` a step that may
--                fail with a status. Expression/Number reads numbers, Operators and Unary have the tables
--                of operators and what they compute, Stack is `values` with `operators` as one list, its
--                top first, Values and Read the readers, Format `ngc_substitute_parameters` and
--                `ngc_process_comment`. The readers call one another by `ngc_read_real_value`, which the
--                others take as the argument `real`. Expression/Tree is the independent description:
--                trees, how they are written, and their value. Its other files prove that what
--                is written is read (Digits, Decimal, Names, Loop, Chosen, Operand, Forms, Arc, Shape,
--                Level, RoundTrip), that the readers end (Progress, Ends, Total), how deep the stack
--                grows (Rising, Depth), and what messages (Message) and names (Name) need of their memory.
--                Expression/Flow joins the readers with `ngc_flowctrl`.
--   StateMachine state_machine.c, with `system_raise_alarm` (system.c) and `mc_parking_motion`
--                (motion_control.c). `Core` holds the static variables, `park`, and the parts of `sys`
--                that are used, `World` what one call reads elsewhere: settings, `hal`, planner and
--                parser. `handler` stands for the function pointer `stateHandler`, `handle` for its
--                call; `log` has the calls into other modules, the latest first. Bits of `rt_exec` are
--                the fields of `RtExec`. StateMachine/Simple, Hold and Parking have the cases of
--                `state_set` and the functions that these call, StateMachine/Events and Resume the
--                handlers, StateMachine/Update `state_update` and `state_suspend_manager`.
--                When spindle and coolant are restored, `spindle_restore` and `coolant_restore` wait,
--                and the realtime executor is called from within that wait: what has become of the
--                machine when the wait is over is `delay` of the `World`, any function.
--                StateMachine/Reach is the step relation of all calls into the module, with any
--                change by other modules that leaves handler and state; a step may wait, and what
--                happens in the wait is a sequence of such steps itself (`Nested`).
--   Executor     `protocol_exec_rt_system` of protocol.c, which joins the state machine with the overrides
--                of Protocol/Overrides: Executor/Alarm is its first part, with the loop of a critical
--                event over the rounds that it sees, Executor/Requests the second. `Setup` is what one
--                call sees, with the world after a stop has reset parser and planner (`stopped`); a
--                round of the loop (`BlockRound`) may read a character of a system command
--                (`protocol_poll_cmd`), and tasks may run (`on_execute_realtime`).
--                Executor/Suspend is `protocol_exec_rt_suspend`, the loop of a suspended machine, with
--                the suspend manager and the sleep check, over the rounds that it sees.
--   Tasks        the tasks of the foreground process in grbllib.c. A linked list of `core_task_t` is a
--                list of nodes, each with its index in `task_pool`; `pool` tells which nodes are in
--                use. Tasks/Run is `task_execute`: a task's function is the list of calls of this
--                module that it makes (`script`), and the loop over the systick tasks looks for the
--                node's successor after each call, as the code does.
--   Crc          crc.c, the checksum `grbl_crc8`.
--   Regex        regex.c. Strings are lists without the terminator; Regex/Meaning is the relation
--                that a pattern stands for.
--   Sleep        sleep.c. The waiting loop runs over the rounds that it sees (`Round`).
--   System       the states, flags and command characters of system.h and grbl.h.
--   Protocol     protocol.c. `Editor` holds the local and static variables of the main loop that
--                belong to the line; `receive` is the body of its inner loop for one character.
--                Protocol/Commands and Protocol/Realtime are `protocol_enqueue_realtime_command`,
--                `Picker` what it changes and `Setup` what it reads. Protocol/Overrides is the
--                execution of overrides by `protocol_exec_rt_system`, with `plan_feed_override`
--                of planner.c.
--   Common       Boolean tests, arrays as lists over the native numbers, masks as remainders.
--
-- Bounds and fuel. Loops over lists are structural; the recursion of `choose` in FlowCtrl/Command
-- is on the fixed tables of names. Indices of rings are native numbers under the mask of the
-- source. A word of the hardware keeps its wrap-around (`add_word`, `sub_word`, the clock of
-- `sleep_check`). The loops that empty a ring (`drain`) take fuel, and 16 is enough since a ring
-- holds 15 commands; no command arrives while such a loop runs, an arrival then being a command
-- for the next round. The wait for the index pulse of a spindle and the loop of a critical event
-- run over the rounds that they see. Parking calls its handlers in a fixed order, so that these
-- calls are nested definitions without fuel. The loops of `task_execute` take fuel, since a task
-- may add itself again; with tasks that add no delayed task, as much as there are delayed tasks is
-- enough. Runs of a block (`rounds` in FlowCtrl/Rounds) take fuel, and the theorem on them asks
-- only for more fuel than rounds. `ngc_read_real_value` takes fuel for its nested calls, one for
-- each character that is left being enough; the loop of `ngc_eval_expression` has that much, and
-- so do the passes of `ngc_substitute_parameters`. `intval` keeps its wrap-around at 32 bits; the
-- counters that the source declares as `uint_fast8_t` have the word size of the processor and are
-- natural numbers.
--
-- What is taken as given. Floats are a type parameter `F` with the operations that the source uses
-- (`FloatOps`); expressions are the parameter `eval` of a request, and in Expression/Flow the
-- readers of Expression; allocation and opening of files are answers in the request, so that every
-- failure is covered. For the expressions, the operations and casts of `float` are `FloatMath`, of
-- which nothing is assumed, and `World` has the lookups of parameters and settings, with `stale`
-- for what a variable holds before it is written; `show` is `ftoa`, with `trim_float` where no
-- decimals are printed, and the message is allocated. What a task does when it runs is the
-- parameter `script`. What happens to the state machine in the waits for restored outputs
-- (`delay`), by a system command (`system_execute_line`) and by the functions on
-- `on_execute_realtime` are functions of which nothing is assumed but what a theorem states.
-- Coordinates of the state machine are a type parameter too (`Coords`). Calls into other modules
-- that return nothing are recorded in `log`.
--
-- Not modelled: reports and other text output, the G-code parser, motion planning and step
-- generation, settings, and the drivers. The user interface, the server, the web client and the
-- mobile application of the repository hold no logic that concerns the machine.
pub mod Common
pub mod System
pub mod Override
pub mod StreamFile
pub mod FlowCtrl
pub mod Protocol
pub mod StateMachine
pub mod Tasks
pub mod Executor
pub mod Expression
pub mod Crc
pub mod Regex
pub mod Sleep
