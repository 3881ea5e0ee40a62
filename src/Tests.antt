-- ===== src/Tests.antt =====
-- Concrete runs of the model, and each theorem at an input that meets its hypotheses.
mod Fixture
mod StoreTests
mod EngineTests
mod RunTests
mod AskTests
mod DemoTests
mod PostgresTests
mod RecoveryTests
mod StoryTests
mod BenchmarkTests
mod RefinementTests
mod AnswerTests
mod ReplayTests
mod SchemaTests
mod LeaseTests
