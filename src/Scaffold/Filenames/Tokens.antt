-- ===== src/Scaffold/Filenames/Tokens.antt =====
-- The loop of `translateTokens` without its fuel, and the tokens that it renders.
