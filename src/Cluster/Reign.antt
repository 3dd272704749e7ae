-- ===== src/Cluster/Reign.antt =====
-- The handlers of the messages of RaftServer.cpp, at a primary that stays primary of its term.
pub mod Events
use my_raft.Prelude.{
  ℕ, zero, suc, ◌+◌, ◌≤◌, ◌≡◌, refl, sym, ap, ◌∙◌, subst, ◌⊎◌, inl, inr, Bool, true, false, not,
  ◌&&◌, Bytes, List, [], ◌∷◌, ◌++◌, length, length-append, length-take, take-all, take, arith, eqb,
  ltb, if◌then◌else◌, none, some, Option,
}
use my_raft.Prelude.Int.{int_eq, ℤ, pos, ◌<ℤ◌, eqb_ℤ, ltb_ℤ, to_unsigned}
use my_raft.Prelude.Assoc.{Map, insert, find}
use my_raft.Prelude.Outcome.{
  Outcome, ok, fail_ne_ok, >>=-eq-ok, ok-injective, if-eq-ok, then-eq-ok, else-eq-ok,
}
use my_raft.Wire.{
  Addr, addr_eq, RpcType, append_entry, resp_vote, resp_append, resp_client_apply,
  resp_client_query, Entry, AppendEntryRpc, RequestVoteRpc, RespAppendEntryRpc, RespRequestVoteRpc,
}
use my_raft.Entry.{log}
use my_raft.StateMachine.Controler
use my_raft.Server.State.{
  State, follower, candidate, primary, candidate_timer, retry_timer, Hook, run_hook, trans2f_hook,
  trans2c_hook, ae_hook, rv_hook, Call, make_rpc_call, Env, Server,
}
use my_raft.Server.Transitions.{trans2f, trans2c, log_call}
use my_raft.Server.Commit.{write_resp_apply_call, write_resp_query_call}
use my_raft.Server.Handlers.{
  is_primary, is_follower, is_candidate, insert_entry, make_resp_rv, make_resp_ae,
  should_ignore_remote_rpc, react2ae, follow_ae, append_client_apply_to_entries,
  get_from_state_machine,
}
use my_raft.Server.Votes.{should_vote, answer_rv, react2rv, react2resp_ae, react2resp_rv}
use my_raft.Server.Events.{
  WaitEnd, Event, incoming, timer_ended, applied, queried, fire, on_timer, react_to_incoming_msg,
  step,
}
use my_raft.Server.Frames.{trans2f-Follows, trans2c-Stands}
use my_raft.Server.Invariant.{insert_entry-log}
use my_raft.Server.Election.Revote.{follow_ae-ballot}
use my_raft.Cluster.Carries.{AllCarried, AllCarried-grown}
use my_raft.Cluster.Commits.{
  AllBelow-insert, AllWithin-mono, AllBelow-mono, saved_values, length-insert,
}
use my_raft.Cluster.Leader.{
  IsLeading, IsLeading-SameReign, SameReign, Keeps, Keeps-refl, Keeps-trans, log_call-Keeps,
  ae-Keeps, rv-Keeps, primary_deal_resp_ae-Keeps,
}

-- The log stays, or gets one entry more, of the server's term.
abbrev pub Grows : Server → Server → Type 0
Grows s s' =
    (log s'.entries ≡ log s.entries)
    ⊎ ((e : Entry) × (e.term ≡ s.term) × (log s'.entries ≡ log s.entries ++ e ∷ []))

-- For a primary that stays primary of its term.
abbrev pub Reigns : Env → Server → Server → Type 0
Reigns env s s' =
    s.state ≡ primary
    → s'.state ≡ primary
    → s'.term ≡ s.term
    → IsLeading env s
    → IsLeading env s' × Grows s s'

pub Keeps-Reigns : (env : Env) (s s' : Server) → Keeps env s s' → Reigns env s s'
Keeps-Reigns env s s' k _ _ _ w = let (w', same) = k w in (w', inl (ap log same))

pub same-Reigns : (env : Env) {s s' : Server} → ok s ≡ ok s' → Reigns env s s'
same-Reigns env {s} h =
    subst (Reigns env s) (ok-injective h) (Keeps-Reigns env s s (Keeps-refl env s))

-- The server is no longer primary.
pub ends :
    (env : Env) (s s' : Server) {state : State}
    → s'.state ≡ state
    → (state ≡ primary → ⊥)
    → Reigns env s s'
ends env s s' became other _ still _ _ = absurd (other (sym became ∙ still))

pub follower_ne_primary : follower ≡ primary → ⊥
follower_ne_primary e = cc

pub candidate_ne_primary : candidate ≡ primary → ⊥
candidate_ne_primary e = cc

-- Numbers of others, and the state machine's queues, do not matter.
heard-Keeps :
    (env : Env) (s : Server) (m : Map Addr ℤ) → Keeps env s (record s { follower_rpc_lsn = m })
heard-Keeps env s m w = (
  IsLeading-SameReign env s (record s { follower_rpc_lsn = m })
      (record {
        entries = refl;
        saved = refl;
        configuration = refl;
        commit_index = refl;
        next_index = λ p. p;
      })
      w.carried w,
  refl,
)

smc-Keeps : (env : Env) (s : Server) (c : Controler.Controler) → Keeps env s (record s { smc = c })
smc-Keeps env s c w = (
  IsLeading-SameReign env s (record s { smc = c })
      (record {
        entries = refl;
        saved = refl;
        configuration = refl;
        commit_index = refl;
        next_index = λ p. p;
      })
      w.carried w,
  refl,
)

-- A call of another type.
pub answer-Keeps :
    (env : Env) (t : RpcType) (addr : Addr) (msg : Bytes) (s : Server)
    → (t ≡ append_entry → ⊥)
    → Keeps env s (log_call s (make_rpc_call t addr msg))
answer-Keeps env t addr msg s other =
    log_call-Keeps env s (make_rpc_call t addr msg) (λ l e. absurd (other e))

heard_if :
    (env : Env) (s : Server) (b : Bool) (m m' : Map Addr ℤ)
    → Keeps env s
        (if◌then◌else◌ {A = Bool × Server} b
          (true, record s { follower_rpc_lsn = m })
          (false, record s { follower_rpc_lsn = m' })).1
heard_if env s true m m' = heard-Keeps env s m
heard_if env s false m m' = heard-Keeps env s m'

checked-Keeps :
    (env : Env) (server : Addr) (lsn : ℤ) (s : Server)
    → Keeps env s (should_ignore_remote_rpc server lsn s).1
unfolding should_ignore_remote_rpc
checked-Keeps env server lsn s = heard_if env s _ _ _

answer_rv-Keeps :
    (env : Env) (rpc : RequestVoteRpc) (server : Addr) (s s' : Server)
    → s.state ≡ primary
    → answer_rv env rpc server s ≡ ok s'
    → Keeps env s s'
unfolding answer_rv make_resp_rv
answer_rv-Keeps env rpc server s s' leads h =
    let checked = should_ignore_remote_rpc server rpc.lsn s in
    elim (if-eq-ok checked.0 (ok checked.1) _ h) [
      | inl (_, ignored) ↦
          subst (Keeps env s) (ok-injective ignored) (checked-Keeps env server rpc.lsn s)
      | inr (_, h₁) ↦ elim (if-eq-ok (not (is_follower s.state)) (ok _) _ h₁) [
        | inl (_, busy) ↦ subst (Keeps env s) (ok-injective busy) (
            Keeps-trans env s checked.1 _ (checked-Keeps env server rpc.lsn s)
              (answer-Keeps env resp_vote server _ checked.1 (λ e. cc)))
        | inr (follows, _) ↦ absurd (ground (arith, leads, follows))
      ]
    ]

answer_rv-state :
    (env : Env) (rpc : RequestVoteRpc) (server : Addr) (s s' : Server)
    → answer_rv env rpc server s ≡ ok s'
    → s'.state ≡ s.state
unfolding answer_rv make_resp_rv should_ignore_remote_rpc
answer_rv-state env rpc server s s' h = ground arith

-- A request of a later term makes a follower; any other leaves the reign alone.
pub react2rv-Reigns :
    (env : Env) (rpc : RequestVoteRpc) (s s' : Server)
    → react2rv env rpc s ≡ ok s'
    → Reigns env s s'
unfolding react2rv make_resp_rv
react2rv-Reigns env rpc s s' h leads = elim (if-eq-ok (ltb_ℤ rpc.term s.term) (ok _) _ h) [
  | inl (_, refused) ↦
      subst (Reigns env s) (ok-injective refused)
        (Keeps-Reigns env s _ (answer-Keeps env resp_vote _ _ s (λ e. cc))) leads
  | inr (_, h₁) ↦
      let (s₁, e, rest) =
        >>=-eq-ok (if ltb_ℤ s.term rpc.term then trans2f env rpc.term s else ok s) _ h₁ in
      elim (if-eq-ok (ltb_ℤ s.term rpc.term) (trans2f env rpc.term s) (ok s) e) [
        | inl (_, f) ↦
            ends env s s'
              (answer_rv-state env rpc _ s₁ s' rest
                ∙ ap (λ (t : Server). t.state) (trans2f-Follows env rpc.term s s₁ f).same)
              follower_ne_primary leads
        | inr (_, same) ↦
            let at_s : answer_rv env rpc _ s ≡ ok s' =
              ap (answer_rv env rpc _) (ok-injective same) ∙ rest in
            Keeps-Reigns env s s' (answer_rv-Keeps env rpc _ s s' leads at_s) leads
      ]
]

-- A call of a later term makes a follower, one of the same term is a fault.
pub react2ae-Reigns :
    (env : Env) (rpc : AppendEntryRpc) (s s' : Server)
    → react2ae env rpc s ≡ ok s'
    → Reigns env s s'
unfolding react2ae make_resp_ae
react2ae-Reigns env rpc s s' h leads =
    let (_, h₁) = else-eq-ok (ltb 1 (length rpc.entry)) _ _ h in
    elim (if-eq-ok (ltb_ℤ rpc.term s.term) (ok _) _ h₁) [
      | inl (_, refused) ↦
          subst (Reigns env s) (ok-injective refused)
            (Keeps-Reigns env s _ (answer-Keeps env resp_append _ _ s (λ e. cc))) leads
      | inr (_, h₂) ↦
          let (_, h₃) = else-eq-ok (is_primary s.state && eqb_ℤ s.term rpc.term) _ _ h₂ in
          let (s₁, e, rest) = >>=-eq-ok (trans2f env rpc.term s) _ h₃ in
          ends env s s'
            (ap (λ (b : ℤ × State × Bool). b.1) (follow_ae-ballot env rpc _ s₁ s' rest)
              ∙ ap (λ (t : Server). t.state) (trans2f-Follows env rpc.term s s₁ e).same)
            follower_ne_primary leads
    ]

pub react2resp_ae-Reigns :
    (env : Env) (resp : RespAppendEntryRpc) (s s' : Server)
    → react2resp_ae env resp s ≡ ok s'
    → Reigns env s s'
unfolding react2resp_ae
react2resp_ae-Reigns env resp s s' h =
    elim (if-eq-ok (ltb_ℤ s.term resp.term) (trans2f env resp.term s) _ h) [
      | inl (_, newer) ↦
          ends env s s'
            (ap (λ (t : Server). t.state) (trans2f-Follows env resp.term s s' newer).same)
            follower_ne_primary
      | inr (_, h₁) ↦ elim (if-eq-ok (ltb_ℤ resp.term s.term) (ok s) _ h₁) [
        | inl (_, same) ↦ same-Reigns env same
        | inr (_, h₂) ↦
            Keeps-Reigns env s s' (
              primary_deal_resp_ae-Keeps env _ resp s s' (then-eq-ok (is_primary s.state) _ _ h₂).1)
      ]
    ]

pub react2resp_rv-Reigns :
    (env : Env) (resp : RespRequestVoteRpc) (s s' : Server)
    → react2resp_rv env resp s ≡ ok s'
    → Reigns env s s'
unfolding react2resp_rv
react2resp_rv-Reigns env resp s s' h leads =
    elim (if-eq-ok (ltb_ℤ s.term resp.term) (trans2f env resp.term s) _ h) [
      | inl (_, newer) ↦
          ends env s s'
            (ap (λ (t : Server). t.state) (trans2f-Follows env resp.term s s' newer).same)
            follower_ne_primary leads
      | inr (_, h₁) ↦ elim (if-eq-ok (ltb_ℤ resp.term s.term) (ok s) _ h₁) [
        | inl (_, same) ↦ same-Reigns env same leads
        | inr (_, h₂) ↦ elim (if-eq-ok (is_candidate s.state) _ (ok s) h₂) [
          | inl (stands, _) ↦ absurd (ground (arith, leads, stands))
          | inr (_, same) ↦ same-Reigns env same leads
        ]
      ]
    ]

IsLeading-appended :
    (env : Env) (s s' : Server) (e : Entry) (own : Addr)
    → log s'.entries ≡ log s.entries ++ e ∷ []
    → s'.entries.size ≡ suc s.entries.size
    → s'.entries.size ≤ length s'.entries.entries
    → s'.calls ≡ s.calls
    → s'.follower_saved_index ≡ insert own (pos s.entries.size) s.follower_saved_index
    → s'.configuration ≡ s.configuration
    → s'.commit_index ≡ s.commit_index
    → s'.next_index ≡ s.next_index
    → IsLeading env s
    → IsLeading env s'
IsLeading-appended env s s' e own grown sized held calls saved config commit next w = record {
  placed =
      rw (sized, next)
        (AllWithin-mono s.entries.size (suc s.entries.size) (saved_values s.next_index)
          (omega arith) w.placed);
  stored = held;
  carried = rw (grown, calls) (AllCarried-grown env (log s.entries) (e ∷ []) s.calls w.carried);
  saved =
      rw (sized, saved)
        (AllBelow-insert (suc s.entries.size) own (pos s.entries.size) s.follower_saved_index
          (omega arith)
          (AllBelow-mono s.entries.size (suc s.entries.size) (saved_values s.follower_saved_index)
            (omega arith) w.saved));
  known =
      rw (config, saved)
        (omega (arith, w.known, length-insert own (pos s.entries.size) s.follower_saved_index));
  committed = rw (sized, commit) (omega (arith, w.committed));
}

-- The clients' entries go to the end of the log.
pub append_client_apply-Reigns :
    (env : Env) (client : Addr) (msg : Bytes) (s s' : Server)
    → append_client_apply_to_entries env client msg s ≡ ok s'
    → Reigns env s s'
unfolding append_client_apply_to_entries
append_client_apply-Reigns env client msg s s' h _ _ _ w =
    let size = s.entries.size in
    let own : Addr = record { ip = s.ip; port = s.port } in
    let e : Entry = record { term = s.term; index = pos size; msg = msg } in
    let s₁ = record s {
      entry_index_to_socket_addr = insert (pos size) client s.entry_index_to_socket_addr;
    } in
    let (s₂, inserted, end) = >>=-eq-ok (insert_entry env (pos size) e s₁) _ h in
    let (_, sized, held, cut, same) = insert_entry-log env (pos size) e s₁ s₂ w.stored inserted in
    let all : take size (log s.entries) ≡ log s.entries =
      take-all size (log s.entries) (omega (arith, length-take size s.entries.entries)) in
    let whole : log s₂.entries ≡ log s.entries ++ e ∷ [] = cut ∙ ap (λ l. l ++ e ∷ []) all in
    let s₃ = record s₂ { follower_saved_index = insert own (pos size) s₂.follower_saved_index } in
    subst (λ t. IsLeading env t × Grows s t) (ok-injective end)
      (
        IsLeading-appended env s s₃ e own whole sized held (ap (λ (t : Server). t.calls) same)
            (ap (λ (t : Server). insert own (pos size) t.follower_saved_index) same)
            (ap (λ (t : Server). t.configuration) same) (ap (λ (t : Server). t.commit_index) same)
            (ap (λ (t : Server). t.next_index) same) w,
        inr (e, refl, whole),
      )

pub get_from_state_machine-Reigns :
    (env : Env) (client : Addr) (msg : Bytes) (s s' : Server)
    → get_from_state_machine client msg s ≡ ok s'
    → Reigns env s s'
unfolding get_from_state_machine
get_from_state_machine-Reigns env client msg s s' h =
    let (smc, _, end) = >>=-eq-ok (Controler.get_from_state_machine s.smc msg client) _ h in
    subst (Reigns env s) (ok-injective end) (Keeps-Reigns env s _ (smc-Keeps env s smc))
