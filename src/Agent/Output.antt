-- ===== src/Agent/Output.antt =====
-- The output of an agent in pieces, and its buffers (`handleStdoutChunk` and the handler of the
-- standard error in cc-wrapper.ts).
pub mod Touch
pub mod Pieces
