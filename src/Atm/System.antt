-- ===== src/Atm/System.antt =====
-- The machines run as threads, as testATM of test/test.cpp starts them. The scheduler and the user
-- choose which thread does its next step; a step takes one message from a queue or makes the sends
-- before a wait. BankMachine::run and InterfaceMachine::run do not catch CloseQueue, and an
-- exception that leaves a thread's function ends the process (std::terminate).
mod Defs
pub mod Sending
pub mod Sessions
pub mod Money
pub mod Races
pub mod Heist
pub mod BankFlow
mod Growth
pub mod Shutdown
pub mod Pin
mod Keeps
pub mod Flow
pub mod Strays
pub mod Handled
unfoldable pub use Defs.*
