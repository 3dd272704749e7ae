-- ===== src/Startup.antt =====
-- The start of a server: main.cpp, the files that entry/entry.cpp and entry/data.cpp open, and
-- file_exists of util.cpp. The files are a map from paths to contents; what the process may do with
-- a file is for the file system to say.
pub mod Restart
pub mod Durable
pub mod Beginning
use my_raft.Prelude.{
  Bool, true, false, not, Bytes, List, [], ◌∷◌, ◌++◌, Option, none, some, if◌then◌else◌, bytes_eq,
}
use my_raft.Prelude.Int.{ℤ}
use my_raft.Prelude.Assoc.{Map, find, insert}
use my_raft.Prelude.Outcome.{
  Outcome, ok, fail, ◌>>=◌, data_create_failed, data_open_failed, undefined_behaviour,
}
use my_raft.Wire.{Codecs}
use my_raft.Rpc.{atoi}
use my_raft.Rpc.Texts.{text}
use my_raft.Util.{to_string}
use my_raft.Entry.File.{DataFile}
use my_raft.Entry.{Entries, open_entries}
use my_raft.Server.State.{Env, Server}
use my_raft.Server.Config.{load_config_from_file}
use my_raft.Server.Events.{new_server, run}

-- `can_read` and `can_write` are about a file that is there, `can_create` about one that is not.
pub record FileSystem : Type 0 where
  pub files : Map Bytes Bytes
  pub can_read : Bytes → Bool
  pub can_write : Bytes → Bool
  pub can_create : Bytes → Bool

-- What a stream reads that is opened for reading.
unfoldable pub read_file : FileSystem → Bytes → Option Bytes
read_file fs path = elim (find path fs.files) [
  | none ↦ none
  | some content ↦ if fs.can_read path then some content else none
]

-- `fopen(path, "r")`
unfoldable pub file_exists : FileSystem → Bytes → Bool
file_exists fs path = elim (read_file fs path) [ none ↦ false | some _ ↦ true ]

-- `open(path, O_CREAT | O_EXCL | O_RDWR, …)`: not for a file that is there.
unfoldable pub create_data : FileSystem → Bytes → Outcome (FileSystem × DataFile)
create_data fs path = elim (find path fs.files) [
  | some _ ↦ fail data_create_failed
  | none ↦
      if fs.can_create path
      then ok (record fs { files = insert path [] fs.files }, record { content = []; position = 0 })
      else fail data_create_failed
]

-- `open(path, O_RDWR)`
unfoldable pub open_data : FileSystem → Bytes → Outcome (FileSystem × DataFile)
open_data fs path = elim (read_file fs path) [
  | none ↦ fail data_open_failed
  | some content ↦
      if fs.can_write path
      then ok (fs, record { content = content; position = 0 })
      else fail data_open_failed
]

-- `data::data`
unfoldable pub new_data : FileSystem → Bytes → Outcome (FileSystem × DataFile)
new_data fs path = if not (file_exists fs path) then create_data fs path else open_data fs path

abbrev pub base : Bytes
base = text "/Users/ynx/CLionProjects/raft/data"

abbrev pub data_path : ℤ → Bytes
data_path port = (base ++ text "/entry_data.raft") ++ text "." ++ to_string port

abbrev pub offset_path : ℤ → Bytes
offset_path port = (base ++ text "/entry_offset.raft") ++ text "." ++ to_string port

-- `Entries::Entries`
unfoldable pub new_entries : Codecs → ℤ → FileSystem → Outcome (FileSystem × Entries)
new_entries c port fs = do
  opened ← new_data fs (data_path port)
  entries ← open_entries c opened.1 (read_file opened.0 (offset_path port))
  ok (opened.0, entries)

-- `argv` has the program's name in front; behind its last element stands a null pointer.
unfoldable pub main : Env → List Bytes → FileSystem → Outcome Server
main env (_ ∷ config_path ∷ port ∷ _) fs = do
  opened ← new_entries env.codecs (atoi port) fs
  configuration ← load_config_from_file (read_file opened.0 config_path)
  raft_server ← new_server (text "127.0.0.1") (atoi port) configuration opened.1
  run env raft_server
main env _ fs = fail undefined_behaviour
