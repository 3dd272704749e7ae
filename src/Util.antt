-- ===== src/Util.antt =====
-- util.h and util.cpp: texts of servers, and splitting. The random delays stand in Server.State.
pub mod Texts
use my_raft.Prelude.{ℕ, suc, Bytes, List, [], ◌∷◌, ◌++◌, eqb, if◌then◌else◌}
use my_raft.Prelude.Int.{ℤ, pos, negsuc, ltb_ℤ}
use my_raft.Wire.{Addr}
use my_raft.Rpc.{digits}

-- `std::to_string` of an `int`.
unfoldable pub to_string : ℤ → Bytes
to_string (pos n) = digits n n []
to_string (negsuc n) = b'-' ∷ digits (suc n) (suc n) []

abbrev pub into_first : ℕ → List Bytes → List Bytes
into_first c [] = (c ∷ []) ∷ []
into_first c (part ∷ parts) = (c ∷ part) ∷ parts

-- One part more than there are delimiters, empty ones included.
unfoldable pub split_str_boost : Bytes → ℕ → List Bytes
split_str_boost [] delim = [] ∷ []
split_str_boost (c ∷ str) delim =
    let parts = split_str_boost str delim in if eqb c delim then [] ∷ parts else into_first c parts

unfoldable pub smaller : ℤ → ℤ → ℤ
smaller a b = if ltb_ℤ a b then a else b

unfoldable pub server2str : Addr → Bytes
server2str server = server.ip ++ b':' ∷ to_string server.port
