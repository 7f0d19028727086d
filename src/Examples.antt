-- ===== src/Examples.antt =====
-- Concrete runs of the model: a small platform, a coordinator with one worker, and one run at a
-- time.
mod Fixture
mod Scheduling
mod Aggregating
mod Coordinating
mod Supervising
mod Working
mod Assigned
mod Admitting
mod Serving
mod Importing
