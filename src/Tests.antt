-- ===== src/Tests.antt =====
-- Concrete runs: a platform with fixed-point numbers, some units, and an example of each theorem.
mod Sample
mod CoreExamples
mod StorageExamples
mod HandlerExamples
mod NetworkExamples
mod AuthExamples
mod SqlExamples
mod RemoteExamples
mod StartExamples
