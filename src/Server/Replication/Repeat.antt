-- ===== src/Server/Replication/Repeat.antt =====
-- An append call that reaches a server twice.
use my_raft.Prelude.{
  ◌≡◌, refl, sym, ap, ◌∙◌, ◌⊎◌, inl, inr, Bool, true, false, ◌&&◌, List, [], ◌∷◌, length, arith,
  eqb, ltb, subst,
}
use my_raft.Prelude.Int.{ℤ, pos, ◌≤ℤ◌, eqb_ℤ, ltb_ℤ}
use my_raft.Prelude.Assoc.{find_or, find_or-insert, find_or-touch, ==_self}
use my_raft.Prelude.Outcome.{ok, >>=-eq-ok, ok-injective, if-eq-ok, else-eq-ok}
use my_raft.Wire.{Addr, addr_eq, Entry, AppendEntryRpc}
use my_raft.Entry.{Entries}
use my_raft.Server.State.{State, follower, Env, Server}
use my_raft.Server.Transitions.{trans2f, update_term, cancel_all_timers, arm}
use my_raft.Server.Commit.{follower_update_commit_index, apply_to_state_machine}
use my_raft.Server.Handlers.{
  is_primary, insert_entry, make_resp_ae, should_ignore_remote_rpc, check_prelog, accept_empty,
  accept_entry, accept_ae, follow_ae, react2ae,
}
use my_raft.Server.Frames.{trans2f-Follows}
use my_raft.Server.Timers.{CountsHandlers, trans2f-ok}
use my_raft.Server.Election.Revote.{follow_ae-ballot}

-- The number of the last message from a server that was heeded.
abbrev heeded : Addr → Server → ℤ
heeded server s = find_or (pos 0) server s.follower_rpc_lsn

accept_ae-numbers :
    (env : Env) (rpc : AppendEntryRpc) (entries : List Entry) (server : Addr) (s s' : Server)
    → accept_ae env rpc entries server s ≡ ok s'
    → s'.follower_rpc_lsn ≡ s.follower_rpc_lsn
unfolding accept_ae accept_empty accept_entry make_resp_ae follower_update_commit_index
    apply_to_state_machine insert_entry
accept_ae-numbers env rpc [] server s s' h = ground arith
accept_ae-numbers env rpc (entry ∷ more) server s s' h = ground arith

-- Heeded or not, the number of the message is now at most that of the last one heeded.
checked-heeded :
    (server : Addr) (lsn : ℤ) (s : Server)
    → lsn ≤ℤ heeded server (should_ignore_remote_rpc server lsn s).1
unfolding should_ignore_remote_rpc
checked-heeded server lsn s = ground (
  arith,
  find_or-touch (pos 0) server server s.follower_rpc_lsn,
  find_or-insert (pos 0) server server lsn s.follower_rpc_lsn,
  ==_self server,
)

follow_ae-heeded :
    (env : Env) (rpc : AppendEntryRpc) (server : Addr) (s s' : Server)
    → follow_ae env rpc server s ≡ ok s'
    → rpc.lsn ≤ℤ heeded server s'
unfolding follow_ae make_resp_ae
follow_ae-heeded env rpc server s s' h =
    let checked = should_ignore_remote_rpc server rpc.lsn s in
    let now = checked-heeded server rpc.lsn s in
    elim (if-eq-ok checked.0 (ok checked.1) _ h) [
      | inl (_, ignored) ↦ subst (λ t. rpc.lsn ≤ℤ heeded server t) (ok-injective ignored) now
      | inr (_, rest) ↦
          let (passed, e, last) = >>=-eq-ok (check_prelog rpc checked.1) _ rest in
          elim (if-eq-ok passed (accept_ae env rpc rpc.entry server checked.1) _ last) [
            | inl (_, end) ↦
                subst (λ m. rpc.lsn ≤ℤ find_or (pos 0) server m)
                  (sym (accept_ae-numbers env rpc rpc.entry server checked.1 s' end)) now
            | inr (_, refused) ↦ subst (λ t. rpc.lsn ≤ℤ heeded server t) (ok-injective refused) now
          ]
    ]

-- What a handled call leaves, if it was not of an earlier term.
react2ae-heeded :
    (env : Env) (rpc : AppendEntryRpc) (s s' : Server)
    → react2ae env rpc s ≡ ok s'
    → (ltb_ℤ rpc.term s'.term ≡ true)
      ⊎ ((s'.term ≡ rpc.term)
          × (s'.state ≡ follower)
          × (rpc.lsn ≤ℤ heeded (record { ip = rpc.ip; port = rpc.port }) s'))
unfolding react2ae make_resp_ae
react2ae-heeded env rpc s s' h =
    let (_, h₁) = else-eq-ok (ltb 1 (length rpc.entry)) _ _ h in
    elim (if-eq-ok (ltb_ℤ rpc.term s.term) (ok _) _ h₁) [
      | inl (older, refused) ↦
          inl (subst (λ (t : Server). ltb_ℤ rpc.term t.term ≡ true) (ok-injective refused) older)
      | inr (_, h₂) ↦
          let (_, h₃) = else-eq-ok (is_primary s.state && eqb_ℤ s.term rpc.term) _ _ h₂ in
          let (s₁, e, rest) = >>=-eq-ok (trans2f env rpc.term s) _ h₃ in
          let same = follow_ae-ballot env rpc _ s₁ s' rest in
          let follows = (trans2f-Follows env rpc.term s s₁ e).same in
          inr (
            ap (λ (b : ℤ × State × Bool). b.0) same ∙ ap (λ (t : Server). t.term) follows,
            ap (λ (b : ℤ × State × Bool). b.1) same ∙ ap (λ (t : Server). t.state) follows,
            follow_ae-heeded env rpc _ s₁ s' rest,
          )
    ]

-- `trans2F` to the server's own term leaves the numbers alone.
pub trans2f-numbers :
    (env : Env) (term : ℤ) (s s' : Server)
    → s.term ≡ term
    → trans2f env term s ≡ ok s'
    → s'.follower_rpc_lsn ≡ s.follower_rpc_lsn
unfolding trans2f update_term cancel_all_timers arm
trans2f-numbers env term s s' now h = ground arith

abbrev pub log_and_commit : Server → Entries × ℤ
log_and_commit s = (s.entries, s.commit_index)

follow_ae-ignores :
    (env : Env) (rpc : AppendEntryRpc) (server : Addr) (s : Server)
    → rpc.lsn ≤ℤ heeded server s
    → (s' : Server) × (follow_ae env rpc server s ≡ ok s') × (log_and_commit s' ≡ log_and_commit s)
unfolding follow_ae should_ignore_remote_rpc
follow_ae-ignores env rpc server s stale =
    ((should_ignore_remote_rpc server rpc.lsn s).1, ground arith, ground arith)

few_entries :
    (env : Env) (rpc : AppendEntryRpc) (s s' : Server)
    → react2ae env rpc s ≡ ok s'
    → ltb 1 (length rpc.entry) ≡ false
unfolding react2ae
few_entries env rpc s s' h = (else-eq-ok (ltb 1 (length rpc.entry)) _ _ h).0

-- A follower of the call's term that has heeded it, or a later one, handles it without a fault.
stale-ok :
    (env : Env) (rpc : AppendEntryRpc) (s : Server)
    → CountsHandlers env
    → ltb 1 (length rpc.entry) ≡ false
    → s.term ≡ rpc.term
    → s.state ≡ follower
    → rpc.lsn ≤ℤ heeded (record { ip = rpc.ip; port = rpc.port }) s
    → (s' : Server) × (react2ae env rpc s ≡ ok s') × (log_and_commit s' ≡ log_and_commit s)
unfolding react2ae
stale-ok env rpc s counts few now follows known =
    let server : Addr = record { ip = rpc.ip; port = rpc.port } in
    let (s₁, e) = trans2f-ok env rpc.term s counts (ground (arith, now)) in
    let (s', ignored, same) = follow_ae-ignores env rpc server s₁ (
      subst (λ m. rpc.lsn ≤ℤ find_or (pos 0) server m)
        (sym (trans2f-numbers env rpc.term s s₁ now e)) known) in
    (
      s',
      ground (arith, few, now, follows, e, ignored),
      same ∙ ap log_and_commit (trans2f-Follows env rpc.term s s₁ e).same,
    )

-- Where boost's timers count the handlers that wait: an append call that a server has handled, and
-- that reaches it again before any other event, is handled again without a fault of the server's
-- own (`make_rpc_call` for the answer apart), and leaves the log and the commit index as they are.
pub react2ae-repeated :
    (env : Env) (rpc : AppendEntryRpc) (s s' : Server)
    → CountsHandlers env
    → react2ae env rpc s ≡ ok s'
    → (s'' : Server) × (react2ae env rpc s' ≡ ok s'') × (log_and_commit s'' ≡ log_and_commit s')
unfolding react2ae make_resp_ae
react2ae-repeated env rpc s s' counts first =
    let few = few_entries env rpc s s' first in
    elim (react2ae-heeded env rpc s s' first) [
      | inl older ↦ (
        make_resp_ae env false (record { ip = rpc.ip; port = rpc.port }) rpc.lsn
            (eqb (length rpc.entry) 0) s',
        ground (arith, few, older),
        refl,
      )
      | inr (now, follows, known) ↦ stale-ok env rpc s' counts few now follows known
    ]
