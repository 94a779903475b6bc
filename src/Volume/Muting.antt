-- ===== src/Volume/Muting.antt =====
-- A command to mute or unmute.
