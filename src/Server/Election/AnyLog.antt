-- ===== src/Server/Election/AnyLog.antt =====
-- What `react2rv` makes of the log of a candidate of a later term.
use my_raft.Prelude.Int.{int_eq}
use my_raft.Wire.{addr_eq, Entry}
use my_raft.Server.State.{Server}
