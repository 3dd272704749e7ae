-- ===== src/Client/Session.antt =====
-- A client's call on its way: to the server's log, to the state machine, and back as an answer.
use my_raft.Prelude.{
  ◌^◌, ◌<◌, ◌≡◌, refl, ap, ◌∙◌, true, Bytes, [], ◌∷◌, ◌++◌, length, length-take, take, take-all,
  arith, if◌then◌else◌, bytes_eq,
}
use my_raft.Prelude.Int.{int_eq, ℤ, pos}
use my_raft.Prelude.Assoc.{insert, find_or, find_or-insert, ==_self}
use my_raft.Prelude.Outcome.{Outcome, ok}
use my_raft.Wire.{
  Addr, addr_eq, client_apply, client_query, resp_client_query, Entry, Codecs, IsLossless,
  ApplyCall, QueryCall, RespQuery,
}
use my_raft.Entry.{log}
use my_raft.Entry.Layout.{IsValid, text}
use my_raft.Entry.Insert.{insert-refines}
use my_raft.Util.{to_string}
use my_raft.Rpc.Texts
use my_raft.Rpc.Texts.{rpc_to_str, resp_query2str}
use my_raft.StateMachine.EasyStateMachine.{
  EasyStateMachine, build_apply_str, build_query_str, apply, get, react_to_resp_query,
}
use my_raft.Server.State.{Env, Server, make_rpc_call}
use my_raft.Server.Handlers.{insert_entry, append_client_apply_to_entries}
use my_raft.Server.Events.{react_to_incoming_msg}
use my_raft.Client.{Client, apply_to_server, query_from_server, react_to_resp}

-- The entry that a server makes of a client's call.
abbrev pub entry_of : Server → Bytes → Entry
entry_of s msg = record { term = s.term; index = pos s.entries.size; msg = msg }

append_client_apply-ok :
    (env : Env) (client : Addr) (msg : Bytes) (s : Server)
    → IsValid env.codecs s.entries
    → length (text env.codecs (log s.entries ++ entry_of s msg ∷ [])) < 2 ^ 31
    → (s' : Server) × (append_client_apply_to_entries env client msg s ≡ ok s')
      × (log s'.entries ≡ log s.entries ++ entry_of s msg ∷ [])
unfolding append_client_apply_to_entries insert_entry
append_client_apply-ok env client msg s valid fits =
    let size = s.entries.size in
    let e = entry_of s msg in
    let all : take size (log s.entries) ≡ log s.entries =
      take-all size (log s.entries) (omega (arith, length-take size s.entries.entries)) in
    let (es, inserted, _, cut) =
      insert-refines env.codecs s.entries size e valid (omega arith) (rw all fits) in
    let own : Addr = record { ip = s.ip; port = s.port } in
    (
      record s {
        entry_index_to_socket_addr = insert (pos size) client s.entry_index_to_socket_addr;
        entries = es;
        follower_saved_index = insert own (pos size) s.follower_saved_index;
      },
      ground (arith, inserted),
      cut ∙ ap (λ l. l ++ e ∷ []) all,
    )

-- A client's call to set a key makes a server with a valid log append one entry of its term; and a
-- state machine to which this entry is applied holds the value under the key. The log with the entry
-- has less than 2 ^ 31 bytes.
pub apply_call-stored :
    (env : Env) (key : Bytes) (v : ℤ) (client : Client) (peer : Addr) (s : Server)
    (m : EasyStateMachine)
    → IsLossless env.codecs.apply_call
    → IsValid env.codecs s.entries
    → length (text env.codecs (log s.entries ++ entry_of s (build_apply_str env.codecs key v) ∷ []))
      < 2 ^ 31
    → (msg : Bytes) × ((apply_to_server env.codecs key v client).calls
        ≡ make_rpc_call client_apply client.server msg ∷ client.calls)
      × (s' : Server) × (react_to_incoming_msg env client_apply msg peer s ≡ ok s')
      × (e : Entry) × (log s'.entries ≡ log s.entries ++ e ∷ [])
      × (e.term ≡ s.term)
      × (find_or (pos 0) key (apply env.codecs e.msg m).0 ≡ v)
unfolding apply_to_server react_to_incoming_msg apply build_apply_str
apply_call-stored env key v client peer s m lossless valid fits =
    let msg = build_apply_str env.codecs key v in
    let (s', appended, grown) = append_client_apply-ok env peer msg s valid fits in
    let call = lossless (record { key = key; v = v }) in
    (
      msg,
      refl,
      s',
      appended,
      entry_of s msg,
      grown,
      refl,
      ap (λ (r : ApplyCall). find_or (pos 0) key (insert r.key r.v m)) call
          ∙ find_or-insert (pos 0) key key v m
          ∙ ap (λ b. if b then v else find_or (pos 0) key m) (==_self key),
    )

-- A client asks for a key, a state machine answers, and the client prints the value that the state
-- machine holds under the key, or 0 where it holds none.
pub query-printed :
    (c : Codecs) (key : Bytes) (client : Client) (m : EasyStateMachine)
    → IsLossless c.query_call
    → IsLossless c.resp_query
    → (msg : Bytes) × ((query_from_server c key client).calls
        ≡ make_rpc_call client_query client.server msg ∷ client.calls)
      × (react_to_resp c resp_client_query (get c msg m).1 client
          ≡ ok (record client {
            printed =
                (Texts.text "client received resp_query: resp_query:\nok: 1\nv: "
                  ++ to_string (find_or (pos 0) key m))
                ∷ client.printed;
          }))
unfolding query_from_server react_to_resp react_to_resp_query rpc_to_str resp_query2str get
    build_query_str
query-printed c key client m lossless_call lossless_answer =
    let msg = build_query_str c key in
    let shown : RespQuery → Outcome Client = λ r. ok (record client {
      printed = (Texts.text "client received resp_query: " ++ resp_query2str r) ∷ client.printed;
    }) in
    (
      msg,
      refl,
      ap shown (lossless_answer _)
          ∙ ap (λ (r : QueryCall). shown (record { is_ok = true; v = find_or (pos 0) r.key m }))
              (lossless_call (record { key = key })),
    )
