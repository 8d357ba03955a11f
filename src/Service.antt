-- ===== src/Service.antt =====
-- The service table of kernel/core/service.c: ten cooperative services, each with its state machine.
-- What another component answers is a field of `World`, given at each call; what the services call
-- for its effect is the list `effects`. `unsigned long` counters wrap at 2^64.
pub mod Table
pub mod Poll
pub mod Control
pub mod Query
pub mod Validity
pub mod Waiting
pub mod Boot
mod Tests
