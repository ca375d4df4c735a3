-- ===== src/Examples.antt =====
-- Concrete inputs for the theorems of the other modules, and runs of the definitions on them.
mod Data
mod Server
mod Browser
mod Page
mod Panels
mod Classroom
mod Grants
