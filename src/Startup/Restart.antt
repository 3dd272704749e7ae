-- ===== src/Startup/Restart.antt =====
-- `main` on the files of a server that has stopped.
use my_raft.Prelude.{◌≡◌, refl, ap, ◌∙◌, true, false, Bytes, List, [], ◌∷◌, some, arith, bytes_eq}
use my_raft.Prelude.Int.{ℤ, pos, minus_one}
use my_raft.Prelude.Outcome.{ok, ◌>>=◌, wait_not_zero_at_start}
use my_raft.Wire.{Addr, Codecs, IsLossless}
use my_raft.Rpc.Texts.{text}
use my_raft.Util.{to_string}
use my_raft.Util.Texts.{atoi-to_string}
use my_raft.Entry.{Entries, log, open_entries}
use my_raft.Entry.Layout.{IsValid}
use my_raft.Entry.Recovery.{open_entries-IsValid}
use my_raft.StateMachine.Controler.{new_controler}
use my_raft.Server.State.{
  follower, Env, Server, start_accept, candidate_timer, run_hook, random_candidate_expire,
}
use my_raft.Server.Transitions.{log_call}
use my_raft.Server.Config.{load_config_from_file}
use my_raft.Server.Config.Written.{AllPlain, written, load_config-written}
use my_raft.Server.Events.{new_server, run}
use my_raft.Server.Timers.{CountsHandlers, arm-ok}
use my_raft.Server.Frames.{arm-Sends}
use my_raft.Startup.{
  FileSystem, read_file, file_exists, open_data, new_data, data_path, offset_path, new_entries,
  main,
}

-- The files of the log are there, and the process may use them.
pub record Holds (port : ℤ) (es : Entries) (fs : FileSystem) : Type 0 where
  pub content : read_file fs (data_path port) ≡ some es.file.content
  pub writable : fs.can_write (data_path port) ≡ true
  pub offsets : read_file fs (offset_path port) ≡ es.offset_file

-- The descriptor is new.
abbrev reopened : Entries → Entries
reopened es = record es { file = record { content = es.file.content; position = 0 } }

reopened-IsValid : (c : Codecs) (es : Entries) → IsValid c es → IsValid c (reopened es)
reopened-IsValid c es v = record {
  stored = v.stored;
  laid_out = v.laid_out;
  written = v.written;
  fits = v.fits;
  flushed = v.flushed;
}

new_data-opens :
    (fs : FileSystem) (path content : Bytes)
    → read_file fs path ≡ some content
    → fs.can_write path ≡ true
    → new_data fs path ≡ ok (fs, record { content = content; position = 0 })
unfolding new_data file_exists open_data
new_data-opens fs path content found writable = ground (arith, found, writable)

new_entries-Holds :
    (c : Codecs) (port : ℤ) (es : Entries) (fs : FileSystem)
    → IsLossless c.entry
    → IsLossless c.offsets
    → IsValid c es
    → Holds port es fs
    → new_entries c port fs ≡ ok (fs, record (reopened es) { entries = log es })
unfolding new_entries
new_entries-Holds c port es fs lossless lossless_offsets v held =
    let file = new_data-opens fs (data_path port) es.file.content held.content held.writable in
    let opened =
      open_entries-IsValid c (reopened es) lossless lossless_offsets (reopened-IsValid c es v) in
    ground (arith, file, ap (open_entries c (reopened es).file) held.offsets ∙ opened)

-- The server that starts, apart from the calls that it makes.
pub record Starts (s : Server) (port : ℤ) (configuration : List Addr) (entries : Entries)
    : Type 0 where
  pub entries_of : s.entries ≡ entries
  pub configured : s.configuration ≡ configuration
  pub own_port : s.port ≡ port
  pub state : s.state ≡ follower
  pub term : s.term ≡ pos 0
  pub voted : s.already_voted ≡ false
  pub commit_index : s.commit_index ≡ minus_one
  pub tasks : s.smc.write_thread_pool.tasks ≡ []

run-Starts :
    (env : Env) (ip : Bytes) (port : ℤ) (configuration : List Addr) (entries : Entries)
    → CountsHandlers env
    → (s : Server) × ((new_server ip port configuration entries >>= λ t. run env t) ≡ ok s)
      × Starts s port configuration entries
unfolding new_server new_controler run
run-Starts env ip port configuration entries counts =
    let (s, built) = built_server in
    let s₀ = log_call s start_accept in
    let (s₁, started) =
      arm-ok env candidate_timer (random_candidate_expire (env.rand s₀.calls)) run_hook
        wait_not_zero_at_start s₀ (counts s₀.calls candidate_timer refl) in
    let kept = (arm-Sends env _ _ _ _ s₀ s₁ started).same in
    (
      s₁,
      started,
      record {
        entries_of = ap (λ (t : Server). t.entries) kept;
        configured = ap (λ (t : Server). t.configuration) kept;
        own_port = ap (λ (t : Server). t.port) kept;
        state = ap (λ (t : Server). t.state) kept;
        term = ap (λ (t : Server). t.term) kept;
        voted = ap (λ (t : Server). t.already_voted) kept;
        commit_index = ap (λ (t : Server). t.commit_index) kept;
        tasks = ap (λ (t : Server). t.smc.write_thread_pool.tasks) kept;
      },
    )
  where
    built_server : (s : Server) × (new_server ip port configuration entries ≡ ok s)
    built_server = (_, refl)

-- The program's arguments.
abbrev pub arguments : Bytes → Bytes → ℤ → List Bytes
arguments name config_path port = name ∷ config_path ∷ to_string port ∷ []

-- From the log and the configuration that are read.
pub main-Starts :
    (env : Env) (name config_path : Bytes) (port : ℤ) (fs fs' : FileSystem) (es : Entries)
    (servers : List Addr)
    → CountsHandlers env
    → new_entries env.codecs port fs ≡ ok (fs', es)
    → read_file fs' config_path ≡ some (written servers)
    → AllPlain servers
    → (s : Server) × (main env (arguments name config_path port) fs ≡ ok s)
      × Starts s port servers es
unfolding main
main-Starts env name config_path port fs fs' es servers counts opened config plain =
    let (s, started, starts) = run-Starts env (text "127.0.0.1") port servers es counts in
    let number = atoi-to_string port in
    let read = ap load_config_from_file config ∙ load_config-written servers plain in
    let opened' = ap (λ p. new_entries env.codecs p fs) number ∙ opened in
    (s, ground (arith, opened', read, number, started), starts)

-- Where boost's timers count the handlers that wait, the codecs undo each other, the files of a
-- valid log are on the disk, and the configuration file has a line for each server: `main` ends
-- without a fault, in a follower that has this log and these servers. Its term is 0, it has no vote,
-- and nothing counts as committed, whatever the server knew that has stopped.
pub main-restarts :
    (env : Env) (name config_path : Bytes) (port : ℤ) (fs : FileSystem) (es : Entries)
    (servers : List Addr)
    → CountsHandlers env
    → IsLossless env.codecs.entry
    → IsLossless env.codecs.offsets
    → IsValid env.codecs es
    → Holds port es fs
    → read_file fs config_path ≡ some (written servers)
    → AllPlain servers
    → (s : Server) × (main env (arguments name config_path port) fs ≡ ok s)
      × Starts s port servers (record es {
        file = record { content = es.file.content; position = 0 };
        entries = log es;
      })
main-restarts env name config_path port fs es servers counts lossless lossless_offsets v held config
      plain =
    main-Starts env name config_path port fs fs (record (reopened es) { entries = log es }) servers
      counts (new_entries-Holds env.codecs port es fs lossless lossless_offsets v held) config plain
