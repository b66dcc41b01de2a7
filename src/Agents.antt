-- ===== src/Agents.antt =====
-- internal/agentcatalog: the names of agents, the frontmatter of their files and the prompt that a
-- run is given.
pub mod Name
pub mod Front
pub mod Valid
pub mod Split
mod Tests
