-- ===== src/Sequencer/TieBreak/Nil.antt =====
-- A nil candidate makes the order of the candidates matter.
