-- ===== src/Memoria/PageTable/Walk.antt =====
--
