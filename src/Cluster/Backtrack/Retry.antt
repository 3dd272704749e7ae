-- ===== src/Cluster/Backtrack/Retry.antt =====
-- `react2resp_ae` on a refusal.
use my_raft.Prelude.{
  ℕ, zero, suc, length-take, ◌≤◌, ◌<◌, ◌≡◌, refl, ap, ◌∙◌, true, false, Bytes, List, [], ◌∷◌, some,
  arith, length, ltb, get_elem?-lt,
}
use my_raft.Prelude.Int.{ℤ, pos, ◌+ℤ◌, ◌-ℤ◌, minus_one, pos_suc-sub_one, sub-add}
use my_raft.Prelude.Assoc.{find_or, insert, touch, find_or-touch, ==_self}
use my_raft.Prelude.Outcome.{ok}
use my_raft.Wire.{Addr, addr_eq, append_entry, AppendEntryRpc, RespAppendEntryRpc, Entry}
use my_raft.Entry.{Entries, log, get}
use my_raft.Entry.Get.{get-ok}
use my_raft.Server.State.{
  Call, make_rpc_call, cancel, expires_from_now, async_wait, retry_timer, ae_hook,
  random_ae_retry_expire, Env, Server,
}
use my_raft.Server.Transitions.{
  send, contains, arm, build_rpc_ae, prelog_term_of, entry_to_send, ae,
}
use my_raft.Server.Handlers.{is_primary}
use my_raft.Server.Votes.{
  on_retry_timer, refused_ae, primary_deal_resp_ae_with_same_term, react2resp_ae,
}
use my_raft.Server.Replication.{PrelogMatches}
use my_raft.Server.Replication.Transfer.{prelog_term_of-matches}
use my_raft.Server.Timers.{CountsHandlers}
use my_raft.Cluster.Backtrack.{last_call}
use my_raft.Cluster.Backtrack.Refusal.{find_or-inserted}

pub get_stored :
    (es : Entries) (k : ℕ)
    → k < es.size
    → es.size ≤ length es.entries
    → (e : Entry) × (get es (pos k) ≡ ok e)
get_stored es k below stored =
    let (e, there) = get_elem?-lt (log es) k (omega (arith, length-take es.size es.entries)) in
    (e, get-ok es k e below there)

prelog_term_of-ok :
    (s : Server) (k : ℕ)
    → k ≤ s.entries.size
    → s.entries.size ≤ length s.entries.entries
    → (term : ℤ) × (prelog_term_of s (pos k) ≡ ok term)
unfolding prelog_term_of
prelog_term_of-ok s zero within stored = (minus_one, refl)
prelog_term_of-ok s (suc k) within stored =
    let (e, found) = get_stored s.entries k (omega arith) stored in
    (e.term, ground (arith, found, pos_suc-sub_one k))

entry_to_send-ok :
    (s : Server) (k : ℕ)
    → k < s.entries.size
    → s.entries.size ≤ length s.entries.entries
    → (l : List Entry) × (entry_to_send s (pos k) ≡ ok l) × (ltb 1 (length l) ≡ false)
unfolding entry_to_send
entry_to_send-ok s k below stored =
    let (e, found) = get_stored s.entries k below stored in (e ∷ [], ground (arith, found), refl)

-- The next call, for the position `k`, and what it leaves.
pub record Retries (env : Env) (server : Addr) (s s' : Server) (rpc : AppendEntryRpc) (k : ℕ)
    : Type 0 where
  pub made : last_call server s'.calls ≡ some (env.codecs.ae.serialize rpc)
  pub of_term : rpc.term ≡ s.term
  pub of_ip : rpc.ip ≡ s.ip
  pub of_port : rpc.port ≡ s.port
  pub place : rpc.prelog_index +ℤ pos 1 ≡ pos k
  pub matches : PrelogMatches k rpc.prelog_term (log s.entries)
  pub few : ltb 1 (length rpc.entry) ≡ false
  pub lsn : rpc.lsn ≡ find_or (pos 0) server s.current_rpc_lsn
  pub numbered : find_or (pos 0) server s'.current_rpc_lsn ≡ rpc.lsn +ℤ pos 1
  pub next : find_or (pos 0) server s'.next_index ≡ pos k
  pub same : s' ≡ record s {
    calls = s'.calls;
    current_rpc_lsn = s'.current_rpc_lsn;
    next_index = s'.next_index;
  }

last_call-armed :
    (a : Addr) (msg : Bytes) (ms : ℕ) (calls : List Call)
    → last_call a (
        async_wait (retry_timer a) (ae_hook a)
        ∷ expires_from_now (retry_timer a) ms
        ∷ make_rpc_call append_entry a msg
        ∷ calls)
      ≡ some msg
last_call-armed a msg ms calls = ground (arith, ==_self a)

-- Where nothing waits on the timer once the call is made.
ae-Retries :
    (env : Env) (server : Addr) (s : Server) (k : ℕ)
    → ((msg : Bytes)
        → env.waiting (make_rpc_call append_entry server msg ∷ s.calls) (retry_timer server) ≡ 0)
    → ((calls : List Call) → env.throws calls server ≡ false)
    → find_or (pos 0) server s.next_index ≡ pos k
    → k < s.entries.size
    → s.entries.size ≤ length s.entries.entries
    → contains server s.retry_timers ≡ true
    → (s' : Server) × (rpc : AppendEntryRpc) × (ae env server s ≡ ok s')
      × Retries env server s s' rpc k
unfolding ae build_rpc_ae arm send
ae-Retries env server s k idle valid next below stored timed =
    let (term, before) = prelog_term_of-ok s k (omega arith) stored in
    let (l, carried, few) = entry_to_send-ok s k below stored in
    let before' = ap (prelog_term_of s) next ∙ before in
    let carried' = ap (entry_to_send s) next ∙ carried in
    let lsn = find_or (pos 0) server s.current_rpc_lsn in
    let rpc : AppendEntryRpc = record {
      term = s.term;
      prelog_term = term;
      commit_index = s.commit_index;
      lsn = lsn;
      ip = s.ip;
      port = s.port;
      entry = l;
      prelog_index = find_or (pos 0) server s.next_index -ℤ pos 1;
    } in
    let msg = env.codecs.ae.serialize rpc in
    let calls = make_rpc_call append_entry server msg ∷ s.calls in
    let ms = random_ae_retry_expire (env.rand calls) in
    (
      record s {
        current_rpc_lsn = insert server (lsn +ℤ pos 1) s.current_rpc_lsn;
        next_index = touch (pos 0) server s.next_index;
        calls =
            async_wait (retry_timer server) (ae_hook server)
            ∷ expires_from_now (retry_timer server) ms
            ∷ calls;
      },
      rpc,
      ground (arith, before', carried', timed, idle msg, valid s.calls),
      record {
        made = last_call-armed server msg ms s.calls;
        of_term = refl;
        of_ip = refl;
        of_port = refl;
        place = sub-add (find_or (pos 0) server s.next_index) (pos 1) ∙ next;
        matches = prelog_term_of-matches s k term before;
        few = few;
        lsn = refl;
        numbered = find_or-inserted server (lsn +ℤ pos 1) s.current_rpc_lsn;
        next = find_or-touch (pos 0) server server s.next_index ∙ next;
        same = refl;
      },
    )

-- What the primary is when it makes the next call.
abbrev stepped_back : Addr → ℕ → Server → Server
stepped_back server k s = record s {
  current_rpc_lsn = touch (pos 0) server s.current_rpc_lsn;
  next_index = insert server (pos k) (touch (pos 0) server s.next_index);
  calls = cancel (retry_timer server) ∷ s.calls;
}

stepped_back-Retries :
    (env : Env) (server : Addr) (s : Server) (k : ℕ)
    → CountsHandlers env
    → ((calls : List Call) → env.throws calls server ≡ false)
    → k < s.entries.size
    → s.entries.size ≤ length s.entries.entries
    → contains server s.retry_timers ≡ true
    → (s' : Server) × (rpc : AppendEntryRpc) × (ae env server (stepped_back server k s) ≡ ok s')
      × Retries env server s s' rpc k
stepped_back-Retries env server s k counts valid below stored timed =
    let idle : (msg : Bytes)
        → env.waiting
            (make_rpc_call append_entry server msg ∷ cancel (retry_timer server) ∷ s.calls)
            (retry_timer server)
          ≡ 0 =
      λ msg. counts _ (retry_timer server) (ground (arith, ==_self server)) in
    let next = find_or-inserted server (pos k) (touch (pos 0) server s.next_index) in
    let (s', rpc, sent, r) =
      ae-Retries env server (stepped_back server k s) k idle valid next below stored timed in
    (
      s',
      rpc,
      sent,
      record {
        made = r.made;
        of_term = r.of_term;
        of_ip = r.of_ip;
        of_port = r.of_port;
        place = r.place;
        matches = r.matches;
        few = r.few;
        lsn = r.lsn ∙ find_or-touch (pos 0) server server s.current_rpc_lsn;
        numbered = r.numbered;
        next = r.next;
        same = r.same;
      },
    )

pub react2resp_ae-Retries :
    (env : Env) (resp : RespAppendEntryRpc) (s : Server) (k : ℕ)
    → CountsHandlers env
    → ((calls : List Call) → env.throws calls (record { ip = resp.ip; port = resp.port }) ≡ false)
    → resp.is_ok ≡ false
    → resp.term ≡ s.term
    → is_primary s.state ≡ true
    → find_or (pos 0) (record { ip = resp.ip; port = resp.port }) s.current_rpc_lsn
      ≡ resp.lsn +ℤ pos 1
    → find_or (pos 0) (record { ip = resp.ip; port = resp.port }) s.next_index ≡ pos (suc k)
    → k < s.entries.size
    → s.entries.size ≤ length s.entries.entries
    → contains (record { ip = resp.ip; port = resp.port }) s.retry_timers ≡ true
    → (s' : Server) × (rpc : AppendEntryRpc) × (react2resp_ae env resp s ≡ ok s')
      × Retries env (record { ip = resp.ip; port = resp.port }) s s' rpc k
unfolding react2resp_ae primary_deal_resp_ae_with_same_term refused_ae on_retry_timer
react2resp_ae-Retries env resp s k counts valid refused now reigns numbered next below stored
      timed =
    let server : Addr = record { ip = resp.ip; port = resp.port } in
    let (s', rpc, sent, r) = stepped_back-Retries env server s k counts valid below stored timed in
    (
      s',
      rpc,
      ground (arith, refused, now, reigns, numbered, next, timed, sent, pos_suc-sub_one k),
      r,
    )
