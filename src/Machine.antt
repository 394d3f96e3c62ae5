-- ===== src/Machine.antt =====
-- What the program runs on: the host's library and kernel, the program's global state, and commands
-- over that state.
pub mod Host
pub mod State
pub mod Run
pub mod Returns
