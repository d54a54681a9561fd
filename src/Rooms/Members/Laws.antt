-- ===== src/Rooms/Members/Laws.antt =====
-- Whom an invitation to a room reaches.
