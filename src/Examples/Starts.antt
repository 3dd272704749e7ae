-- ===== src/Examples/Starts.antt =====
-- A server that is started, on the files of a log and on none.
use my_raft.Prelude.{
  arith, List, some, Option, none, subst, length, ◌<◌, ◌^◌, ◌≡◌, refl, true, Bytes, [], ◌∷◌,
  bytes_eq,
}
use my_raft.Prelude.Int.{pos}
use my_raft.Prelude.Assoc.{find}
use my_raft.Prelude.Outcome.{ok, ok-injective}
use my_raft.Entry.{log}
use my_raft.Rpc.{digits}
use my_raft.Util.{to_string}
use my_raft.Wire.{client_apply}
use my_raft.Entry.Layout.{text}
use my_raft.Server.State.{primary, follower, Server}
use my_raft.Server.Events.{Event, incoming, run_events}
use my_raft.Server.Config.Written.{written}
use my_raft.Startup.{FileSystem, read_file, data_path, offset_path, main}
use my_raft.Startup.Restart.{Starts, arguments, main-restarts}
use my_raft.Startup.Beginning.{empty_log, main-begins}
use my_raft.Examples.Codecs.{codecs, entry_codec-IsLossless, offsets_codec-IsLossless}
use my_raft.Examples.Servers.{env, addr, two_entries, server}
use my_raft.Examples.Witnesses.{everything, after}
use my_raft.Startup.Durable.Events.{AllFit, survives}
use my_raft.Examples.Parts.{two_entries-IsValid}
use my_raft.Examples.Programs.{addr-IsPlain}

-- The names of the program and of the configuration file.
abbrev name : Bytes
name = 114 ∷ []

abbrev config_path : Bytes
config_path = 99 ∷ []

abbrev only_config : FileSystem
only_config = record {
  files = (config_path, written (addr 7 ∷ [])) ∷ [];
  can_read = λ _. true;
  can_write = λ _. true;
  can_create = λ _. true;
}

abbrev with_log : FileSystem
with_log = record only_config {
  files =
      (data_path (pos 7), two_entries.file.content)
      ∷ (offset_path (pos 7), 0 ∷ 4 ∷ 8 ∷ [])
      ∷ (config_path, written (addr 7 ∷ []))
      ∷ [];
}

main-restarts_example :
    (s : Server) × (main env (arguments name config_path (pos 7)) with_log ≡ ok s)
    × Starts s (pos 7) (addr 7 ∷ []) (record two_entries {
      file = record { content = two_entries.file.content; position = 0 };
      entries = log two_entries;
    })
unfolding read_file find to_string digits
main-restarts_example =
    main-restarts env name config_path (pos 7) with_log two_entries (addr 7 ∷ []) (λ _ _ _. refl)
      entry_codec-IsLossless offsets_codec-IsLossless two_entries-IsValid
      (record { content = refl; writable = refl; offsets = refl }) refl (addr-IsPlain, tt)

main-begins_example :
    (s : Server) × (main env (arguments name config_path (pos 7)) only_config ≡ ok s)
    × Starts s (pos 7) (addr 7 ∷ []) empty_log
unfolding read_file find to_string digits
main-begins_example =
    main-begins env name config_path (pos 7) only_config (addr 7 ∷ []) (λ _ _ _. refl) refl refl
      refl refl refl (addr-IsPlain, tt)

-- A server that has appended a client's entry to its two, and has stopped.
abbrev primary_7 : Server
primary_7 = server 7 primary two_entries

abbrev history : List Event
history = incoming client_apply (5 ∷ 6 ∷ []) (addr 9) ∷ []

abbrev stopped : Server
stopped = after primary_7 (run_events env history primary_7)

abbrev offsets_of : Option Bytes → Bytes
offsets_of none = []
offsets_of (some bytes) = bytes

abbrev left_behind : FileSystem
left_behind = record only_config {
  files =
      (data_path (pos 7), stopped.entries.file.content)
      ∷ (offset_path (pos 7), offsets_of stopped.entries.offset_file)
      ∷ (config_path, written (addr 7 ∷ []))
      ∷ [];
}

history-AllFit : AllFit env history primary_7
unfolding everything
history-AllFit s' h = (
  subst (λ (t : Server). length (text codecs (log t.entries)) < 2 ^ 31) (ok-injective h)
      (omega arith),
  tt,
)

survives_example :
    (s : Server) × (main env (arguments name config_path (pos 7)) left_behind ≡ ok s)
    × (log s.entries ≡ log stopped.entries)
    × (s.state ≡ follower)
    × (s.configuration ≡ addr 7 ∷ [])
unfolding everything read_file to_string digits
survives_example =
    survives env history primary_7 stopped name config_path (pos 7) left_behind (addr 7 ∷ [])
      (λ _ _ _. refl) entry_codec-IsLossless offsets_codec-IsLossless two_entries-IsValid
      history-AllFit refl (record { content = refl; writable = refl; offsets = refl }) refl
      (addr-IsPlain, tt)
