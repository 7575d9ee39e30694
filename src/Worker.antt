-- ===== src/Worker.antt =====
-- worker/src: the worker's side. `Machine` is the state machine of its connection, `Diagram` and
-- `Busy` are about it, `Leases` has the leases that it works on, `Executor` runs one of them, and
-- `Discovery` finds the master, `Transport` has the connection to it, `Identity` is the name
-- that it takes from the hardware, `Monitor` has the samples of its resources, `Arguments` is another reader of
-- arguments, which the program does not call, and `Main` is the program.
pub mod Machine
pub mod Diagram
pub mod Busy
pub mod Leases
pub mod Executor
pub mod Discovery
pub mod Transport
pub mod Main
pub mod Arguments
pub mod Identity
pub mod Monitor
mod Tests
