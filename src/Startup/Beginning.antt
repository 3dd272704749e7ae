-- ===== src/Startup/Beginning.antt =====
-- `main` where there are no files of a log.
use my_raft.Prelude.{
  ◌≡◌, refl, ◌∙◌, true, false, Bytes, List, [], ◌∷◌, none, some, arith, bytes_eq, ◌==◌,
}
use my_raft.Prelude.Int.{ℤ}
use my_raft.Prelude.Assoc.{find, insert, find-insert}
use my_raft.Prelude.Outcome.{ok}
use my_raft.Wire.{Addr, Codecs}
use my_raft.Entry.{Entries, open_entries, load_offset, read_entries}
use my_raft.Server.State.{Env, Server}
use my_raft.Server.Config.Written.{AllPlain, written}
use my_raft.Server.Timers.{CountsHandlers}
use my_raft.Startup.{
  FileSystem, read_file, file_exists, create_data, new_data, data_path, offset_path, new_entries,
  main,
}
use my_raft.Startup.Restart.{Starts, arguments, main-Starts}

new_data-creates :
    (fs : FileSystem) (path : Bytes)
    → find path fs.files ≡ none
    → fs.can_create path ≡ true
    → new_data fs path
      ≡ ok (record fs { files = insert path [] fs.files }, record { content = []; position = 0 })
unfolding new_data file_exists create_data read_file
new_data-creates fs path missing allowed = ground (arith, missing, allowed)

read_file-created :
    (fs : FileSystem) (path other : Bytes)
    → (path == other) ≡ false
    → read_file (record fs { files = insert path [] fs.files }) other ≡ read_file fs other
unfolding read_file
read_file-created fs path other apart = ground (arith, apart, find-insert path other [] fs.files)

-- The log of a server that has never run.
abbrev pub empty_log : Entries
empty_log = record {
  file = record { content = []; position = 0 };
  entries = [];
  offset = 0 ∷ [];
  size = 0;
  offset_file = none;
}

paths_apart : (port : ℤ) → (data_path port == offset_path port) ≡ false
paths_apart port = refl

new_entries-none :
    (c : Codecs) (port : ℤ) (fs : FileSystem)
    → find (data_path port) fs.files ≡ none
    → fs.can_create (data_path port) ≡ true
    → read_file fs (offset_path port) ≡ none
    → new_entries c port fs
      ≡ ok (record fs { files = insert (data_path port) [] fs.files }, empty_log)
unfolding new_entries open_entries load_offset read_entries
new_entries-none c port fs missing allowed no_offsets =
    let created = new_data-creates fs (data_path port) missing allowed in
    let unread : read_file (record fs { files = insert (data_path port) [] fs.files })
          (offset_path port)
        ≡ none =
      read_file-created fs (data_path port) (offset_path port) (paths_apart port) ∙ no_offsets in
    ground (arith, created, unread)

-- Where boost's timers count the handlers that wait, there are no files of a log and the data file
-- can be created, and the configuration file, which is another, has a line for each server: `main`
-- ends without a fault, in a follower of term 0 that has an empty log and these servers.
pub main-begins :
    (env : Env) (name config_path : Bytes) (port : ℤ) (fs : FileSystem) (servers : List Addr)
    → CountsHandlers env
    → find (data_path port) fs.files ≡ none
    → fs.can_create (data_path port) ≡ true
    → read_file fs (offset_path port) ≡ none
    → (data_path port == config_path) ≡ false
    → read_file fs config_path ≡ some (written servers)
    → AllPlain servers
    → (s : Server) × (main env (arguments name config_path port) fs ≡ ok s)
      × Starts s port servers empty_log
main-begins env name config_path port fs servers counts missing allowed no_offsets apart config
      plain =
    main-Starts env name config_path port fs _ empty_log servers counts
      (new_entries-none env.codecs port fs missing allowed no_offsets)
      (read_file-created fs (data_path port) config_path apart ∙ config) plain
