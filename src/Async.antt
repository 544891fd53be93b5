-- ===== src/Async.antt =====
-- realtime_tools/include/realtime_tools/async_function_handler.hpp, part by part.
pub mod Policy
pub mod Params
pub mod Handler
pub mod Synchronized
pub mod Detached
pub mod Start
mod Examples
