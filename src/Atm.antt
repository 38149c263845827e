-- ===== src/Atm.antt =====
-- The teller machine of include/atm: the messages of WithdrawMsg.hpp, the three machines, and the
-- process that runs them as threads, as test/test.cpp does.
pub mod Message
pub mod As
pub mod Bank
pub mod Interface
pub mod Teller
pub mod System
mod Tests
pub mod Weights
