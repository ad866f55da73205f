-- ===== src/Workers.antt =====
-- The workers (sdks/typescript/src/workers/): routing of a batch, and the error policies with the loop that
-- runs a handler under one.
pub mod Routing
pub mod Policies
pub mod Handler
pub mod Pm
pub mod Processing
