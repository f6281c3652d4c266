-- ===== src/Tests.antt =====
-- Runs of the definitions at concrete inputs, and the theorems applied to them.
mod Caches
mod Renderer
mod Files
mod Names
mod Queue
mod Serving
mod Templates
