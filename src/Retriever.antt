-- ===== src/Retriever.antt =====
-- src/spillover/retriever: what is found again, and how much of it fits.
pub mod Budget
pub mod Fusion
pub mod Lexical
pub mod Answers
pub mod Render
pub mod Walks
use spillover.Prelude.{String, ℕ, Option}

-- A row that a search found, with its scores as floats `F`.
pub record Hit (F : Type 0) : Type 0 where
  pub episode_id : String
  pub score : F
  pub memory_type : Option String
  pub importance : Option F
  pub ts : Option ℕ
  pub source : String
