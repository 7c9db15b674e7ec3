-- ===== src/Drivers/Parsers.antt =====
-- The parsers of JSON lines: src/drivers/codex/parser.ts, src/drivers/gemini/parser.ts and
-- src/drivers/ollama/parser.ts. `JSON.parse` and the clock are arguments.
pub mod Step
pub mod Codex
pub mod Gemini
pub mod Ollama
