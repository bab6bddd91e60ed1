-- ===== src/Handler/Login/Wait.antt =====
-- `respondLoginRateLimited`: the seconds that a client is told to wait.
