-- ===== src/Server/Connection/Balance.antt =====
-- main.rs `connection`: permits, ids and answers are kept in balance by every move.
use velo_bus.Server.Connection.{Connection}
