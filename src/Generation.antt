-- ===== src/Generation.antt =====
-- testpaper_backend/services/paper_generation.py: the marks and the targets of a generated paper, and
-- how the genetic algorithm makes a new paper of two.
pub mod Marks
pub mod Shares
pub mod Targets
pub mod Genes
pub mod Evolve
pub mod Paper
mod Tests
