-- ===== src/Server/Config/Written.antt =====
-- Configuration files with a line `server2str` for each server, and what
-- `load_config_from_file` makes of them.
use my_raft.Prelude.{
  ℕ, suc, ◌≤◌, ◌≡◌, ◌≢◌, refl, sym, ap, ◌∙◌, inl, inr, Bytes, List, [], ◌∷◌, ◌++◌, length,
  length-append, append_assoc, append-nil, ◌-◌, some, arith, subst,
}
use my_raft.Prelude.Outcome.{Outcome, ok, fail, ◌>>=◌, config_line}
use my_raft.Wire.{Addr}
use my_raft.Util.{split_str_boost, server2str, to_string}
use my_raft.Util.Texts.{
  atoi-to_string, Lacks, Lacks-append, Lacks-to_string, split-one, split-append, count_of,
  length-split,
}
use my_raft.Server.Config.{server_of, read_config_line, read_config_lines, load_config_from_file}
use my_raft.Server.Config.Lines.{
  IsLine, then_lines, read_config_lines-line, read_config_lines-enough,
}

-- Nothing in the ip of a server splits the line, and the line fits.
pub record IsPlain (server : Addr) : Type 0 where
  pub no_colon : Lacks b':' server.ip
  pub no_end : Lacks 10 server.ip
  pub no_zero : Lacks 0 server.ip
  pub fits : length (server2str server) ≤ 254

abbrev pub AllPlain : List Addr → Type 0
AllPlain [] = Unit
AllPlain (server ∷ servers) = IsPlain server × AllPlain servers

abbrev pub written : List Addr → Bytes
written [] = []
written (server ∷ servers) = server2str server ++ 10 ∷ written servers

server2str-IsLine : (server : Addr) → IsPlain server → IsLine (server2str server)
unfolding server2str
server2str-IsLine server plain = record {
  fits = plain.fits;
  no_end =
      Lacks-append 10 server.ip (b':' ∷ to_string server.port) plain.no_end
        (refl, Lacks-to_string 10 server.port (inl (omega arith)));
  no_zero =
      Lacks-append 0 server.ip (b':' ∷ to_string server.port) plain.no_zero
        (refl, Lacks-to_string 0 server.port (inl (omega arith)));
}

read_config_line-server2str :
    (server : Addr) → IsPlain server → read_config_line (server2str server) ≡ ok server
unfolding read_config_line server2str
read_config_line-server2str server plain =
    ap server_of (
      split-append server.ip (to_string server.port) b':' plain.no_colon
      ∙ ap (λ parts. server.ip ∷ parts)
          (split-one (to_string server.port) b':'
            (Lacks-to_string b':' server.port (inr (omega arith)))))
    ∙ ap (λ port. ok (record { ip = server.ip; port = port })) (atoi-to_string server.port)

-- A line has a character in front.
server2str-front : (server : Addr) → (c : ℕ) × (str : Bytes) × (server2str server ≡ c ∷ str)
unfolding server2str
server2str-front server = front server.ip (to_string server.port)
  where
    front : (ip port : Bytes) → (c : ℕ) × (str : Bytes) × (ip ++ b':' ∷ port ≡ c ∷ str)
    front [] port = (b':', port, refl)
    front (c ∷ ip) port = (c, ip ++ b':' ∷ port, refl)

line-then :
    (fuel : ℕ) (line rest : Bytes) {c : ℕ} {str : Bytes}
    → line ≡ c ∷ str
    → IsLine line
    → read_config_lines (suc fuel) (line ++ 10 ∷ rest)
      ≡ then_lines (read_config_line line) (read_config_lines fuel rest)
line-then fuel line rest {c} {str} e is_line =
    subst
      (λ l.
        read_config_lines (suc fuel) (l ++ 10 ∷ rest)
        ≡ then_lines (read_config_line l) (read_config_lines fuel rest))
      (sym e) (read_config_lines-line fuel c str rest (subst IsLine e is_line))

>>=-ok : (m : Outcome (List Addr)) → m ≡ (m >>= λ servers. ok servers)
>>=-ok (ok servers) = refl
>>=-ok (fail fault) = refl

then_lines-written :
    (server : Addr) (servers : List Addr) (m : Outcome (List Addr))
    → then_lines (ok server) (m >>= λ later. ok (servers ++ later))
      ≡ (m >>= λ later. ok ((server ∷ servers) ++ later))
unfolding then_lines
then_lines-written server servers (ok later) = refl
then_lines-written server servers (fail fault) = refl

-- The lines of the servers, and then those of the rest.
read_config_lines-written :
    (servers : List Addr) (fuel : ℕ) (text : Bytes)
    → AllPlain servers
    → length (written servers ++ text) ≤ fuel
    → read_config_lines fuel (written servers ++ text)
      ≡ (read_config_lines (length text) text >>= λ later. ok (servers ++ later))
read_config_lines-written [] fuel text plain h =
    read_config_lines-enough fuel (length text) text h (omega arith)
    ∙ >>=-ok (read_config_lines (length text) text)
read_config_lines-written (server ∷ servers) fuel text (plain, later) h =
    let line = server2str server in
    let rest = written servers ++ text in
    let (c, str, front) = server2str-front server in
    let apart : (line ++ 10 ∷ written servers) ++ text ≡ line ++ 10 ∷ rest =
      append_assoc line (10 ∷ written servers) text in
    let long : suc (length rest) ≤ fuel =
      omega (arith, h, ap length apart, length-append line (10 ∷ rest)) in
    let shorter : fuel ≡ suc (fuel - 1) = omega arith in
    ap (read_config_lines fuel) apart
    ∙ ap (λ n. read_config_lines n (line ++ 10 ∷ rest)) shorter
    ∙ line-then (fuel - 1) line rest front (server2str-IsLine server plain)
    ∙ ap (λ first. then_lines first (read_config_lines (fuel - 1) rest))
        (read_config_line-server2str server plain)
    ∙ ap (then_lines (ok server))
        (read_config_lines-written servers (fuel - 1) text later (omega arith))
    ∙ then_lines-written server servers (read_config_lines (length text) text)

-- A file with a line `ip:port` for each server is read as these servers, in their order, if the
-- lines have at most 254 characters and no ip has a colon, a line's end or a zero in it.
pub load_config-written :
    (servers : List Addr)
    → AllPlain servers
    → load_config_from_file (some (written servers)) ≡ ok servers
unfolding load_config_from_file read_config_lines
load_config-written servers plain =
    let whole = append-nil (written servers) in
    ap (λ text. read_config_lines (length (written servers)) text) (sym whole)
    ∙ read_config_lines-written servers (length (written servers)) [] plain
        (omega (arith, ap length whole))
    ∙ ap ok (append-nil servers)

server_of-parts : (parts : List Bytes) → length parts ≢ 2 → server_of parts ≡ fail config_line
server_of-parts [] other = refl
server_of-parts (a ∷ []) other = refl
server_of-parts (a ∷ b ∷ []) other = absurd (other refl)
server_of-parts (a ∷ b ∷ c ∷ parts) other = refl

-- Where lines ip:port of servers are followed by a line with no colon or with several, which is not
-- empty and fits the buffer of `getline`, the reading of the file throws.
pub load_config-bad_line :
    (servers : List Addr) (c : ℕ) (str rest : Bytes)
    → AllPlain servers
    → IsLine (c ∷ str)
    → count_of b':' (c ∷ str) ≢ 1
    → load_config_from_file (some (written servers ++ ((c ∷ str) ++ 10 ∷ rest))) ≡ fail config_line
unfolding load_config_from_file read_config_line then_lines
load_config-bad_line servers c str rest plain line other =
    let text : Bytes = (c ∷ str) ++ 10 ∷ rest in
    let parts = length-split (c ∷ str) b':' in
    let thrown : read_config_line (c ∷ str) ≡ fail config_line =
      server_of-parts (split_str_boost (c ∷ str) b':') (λ two. other (omega (arith, parts, two))) in
    read_config_lines-written servers (length (written servers ++ text)) text plain (omega arith)
    ∙ ap (λ m. m >>= λ later. ok (servers ++ later))
        (read_config_lines-line (length (str ++ 10 ∷ rest)) c str rest line
          ∙ ap (λ first. then_lines first (read_config_lines (length (str ++ 10 ∷ rest)) rest))
              thrown)
