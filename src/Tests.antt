-- ===== src/Tests.antt =====
-- Concrete runs, and the theorems at concrete inputs.
mod Streams
mod Seeds
mod Matrices
mod Random
mod Scheme
mod Complete
mod Adding
mod EndToEnd
mod Keys
mod Search
mod Harnesses
mod Returned
mod Challenges
mod Drawn
