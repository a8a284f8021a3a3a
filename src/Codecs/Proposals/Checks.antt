-- ===== src/Codecs/Proposals/Checks.antt =====
-- What every proposal that was made from bytes has passed.
