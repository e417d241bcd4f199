-- ===== src/Tests.antt =====
-- Concrete inputs on which the theorems apply, and runs of the definitions.
mod Windows
mod Filling
mod Choices
mod Searches
mod Pages
mod Layouts
