-- ===== src/Server/Election/Revote.antt =====
-- What an append call does to the vote of a server.
use my_raft.Prelude.{
  subst, ◌≡◌, sym, ap, ◌∙◌, inl, inr, Bool, true, false, ◌&&◌, List, [], ◌∷◌, length, arith, ltb,
  suc,
}
use my_raft.Prelude.Int.{ℤ, pos, ◌+ℤ◌, eqb_ℤ, ltb_ℤ, eqb_ℤ_iff}
use my_raft.Prelude.Outcome.{ok, >>=-eq-ok, ok-injective, if-eq-ok, then-eq-ok, else-eq-ok}
use my_raft.Wire.{Addr, addr_eq, Entry, AppendEntryRpc, RequestVoteRpc, IsLossless}
use my_raft.Server.State.{State, follower, Env, Server}
use my_raft.Server.Transitions.{trans2f}
use my_raft.Server.Commit.{follower_update_commit_index, apply_to_state_machine}
use my_raft.Server.Handlers.{
  is_primary, insert_entry, make_resp_ae, make_resp_rv, should_ignore_remote_rpc, check_prelog,
  accept_empty, accept_entry, accept_ae, follow_ae, react2ae,
}
use my_raft.Server.Votes.{answer_rv, react2rv, should_vote}
use my_raft.Server.Frames.{trans2f-Follows}
use my_raft.Server.Election.{votes}
use my_raft.Server.Election.Once.{make_resp_rv-votes, checked-same}

-- What decides on a vote, apart from the log and the number of the request.
abbrev pub ballot : Server → ℤ × State × Bool
ballot s = (s.term, s.state, s.already_voted)

follower_update-ballot :
    (remote : ℤ) (s s' : Server)
    → follower_update_commit_index remote s ≡ ok s'
    → ballot s' ≡ ballot s
unfolding follower_update_commit_index apply_to_state_machine
follower_update-ballot remote s s' h = ground arith

insert_entry-ballot :
    (env : Env) (index : ℤ) (e : Entry) (s s' : Server)
    → insert_entry env index e s ≡ ok s'
    → ballot s' ≡ ballot s
unfolding insert_entry
insert_entry-ballot env index e s s' h = ground arith

accept_ae-ballot :
    (env : Env) (rpc : AppendEntryRpc) (entries : List Entry) (server : Addr) (s s' : Server)
    → accept_ae env rpc entries server s ≡ ok s'
    → ballot s' ≡ ballot s
unfolding accept_ae accept_empty accept_entry make_resp_ae
accept_ae-ballot env rpc [] server s s' h =
    let (_, h₁) = else-eq-ok (ltb_ℤ (pos s.entries.size) rpc.commit_index) _ _ h in
    let (s₁, e, end) = >>=-eq-ok (follower_update_commit_index rpc.commit_index s) _ h₁ in
    sym (ap ballot (ok-injective end)) ∙ follower_update-ballot rpc.commit_index s s₁ e
accept_ae-ballot env rpc (entry ∷ _) server s s' h =
    let (_, h₁) = then-eq-ok (eqb_ℤ entry.index (rpc.prelog_index +ℤ pos 1)) _ _ h in
    let (s₁, e₁, rest) = >>=-eq-ok (insert_entry env (rpc.prelog_index +ℤ pos 1) entry s) _ h₁ in
    let (s₂, e₂, end) = >>=-eq-ok (follower_update_commit_index rpc.commit_index s₁) _ rest in
    sym (ap ballot (ok-injective end))
    ∙ follower_update-ballot rpc.commit_index s₁ s₂ e₂
    ∙ insert_entry-ballot env _ entry s s₁ e₁

checked-ballot :
    (server : Addr) (lsn : ℤ) (s : Server)
    → ballot (should_ignore_remote_rpc server lsn s).1 ≡ ballot s
unfolding should_ignore_remote_rpc
checked-ballot server lsn s = ground arith

pub follow_ae-ballot :
    (env : Env) (rpc : AppendEntryRpc) (server : Addr) (s s' : Server)
    → follow_ae env rpc server s ≡ ok s'
    → ballot s' ≡ ballot s
unfolding follow_ae make_resp_ae
follow_ae-ballot env rpc server s s' h =
    let checked = should_ignore_remote_rpc server rpc.lsn s in
    let same = checked-ballot server rpc.lsn s in
    elim (if-eq-ok checked.0 (ok checked.1) _ h) [
      | inl (_, ignored) ↦ sym (ap ballot (ok-injective ignored)) ∙ same
      | inr (_, rest) ↦
          let (passed, e, last) = >>=-eq-ok (check_prelog rpc checked.1) _ rest in
          elim (if-eq-ok passed (accept_ae env rpc rpc.entry server checked.1) _ last) [
            | inl (_, end) ↦ accept_ae-ballot env rpc rpc.entry server checked.1 s' end ∙ same
            | inr (_, end) ↦ sym (ap ballot (ok-injective end)) ∙ same
          ]
    ]

-- A call of the server's term leaves a follower that has not voted.
react2ae-unvotes :
    (env : Env) (rpc : AppendEntryRpc) (s s' : Server)
    → rpc.term ≡ s.term
    → react2ae env rpc s ≡ ok s'
    → ballot s' ≡ (s.term, follower, false)
unfolding react2ae make_resp_ae
react2ae-unvotes env rpc s s' now h =
    let (_, h₁) = else-eq-ok (ltb 1 (length rpc.entry)) _ _ h in
    elim (if-eq-ok (ltb_ℤ rpc.term s.term) (ok _) _ h₁) [
      | inl (below, _) ↦ absurd (ground (arith, below, now))
      | inr (_, h₂) ↦
          let (_, h₃) = else-eq-ok (is_primary s.state && eqb_ℤ s.term rpc.term) _ _ h₂ in
          let (s₁, e, rest) = >>=-eq-ok (trans2f env rpc.term s) _ h₃ in
          follow_ae-ballot env rpc _ s₁ s' rest
          ∙ ap ballot (trans2f-Follows env rpc.term s s₁ e).same
          ∙ ap (λ t. (t, follower, false)) now
    ]

pub votes_yes :
    (env : Env) (rpc : RequestVoteRpc) (server : Addr) (s : Server)
    → IsLossless env.codecs.resp_rv
    → ballot s ≡ (rpc.term, follower, false)
    → (should_ignore_remote_rpc server rpc.lsn s).0 ≡ false
    → should_vote rpc (should_ignore_remote_rpc server rpc.lsn s).1 ≡ ok true
    → (s' : Server) × (answer_rv env rpc server s ≡ ok s')
      × (votes env rpc.term s'.calls ≡ suc (votes env rpc.term s.calls))
unfolding answer_rv
votes_yes env rpc server s lossless free heard wins =
    let checked = should_ignore_remote_rpc server rpc.lsn s in
    let follows : s.state ≡ follower = ap (λ b. b.1) free in
    let unvoted : s.already_voted ≡ false = ap (λ b. b.2) free in
    let current : s.term ≡ rpc.term = ap (λ b. b.0) free in
    let (same_term, _, same_calls) = checked-same server rpc.lsn s in
    let matches = (eqb_ℤ_iff checked.1.term rpc.term).1 (same_term ∙ current) in
    let answer = make_resp_rv env true server rpc.lsn checked.1 in
    (
      record answer { already_voted = true },
      ground (arith, heard, wins, follows, unvoted),
      make_resp_rv-votes env rpc.term true server rpc.lsn checked.1 lossless
          ∙ ground (arith, matches, ap (votes env rpc.term) same_calls),
    )

-- After a server has handled an append call of its own term, a request for a vote in this same term
-- that is not stale and that the log allows is granted, whether or not the server has voted in the
-- term before: the number of its votes in the term goes up.
pub revotes :
    (env : Env) (call : AppendEntryRpc) (rpc : RequestVoteRpc) (s s₁ : Server)
    → IsLossless env.codecs.resp_rv
    → call.term ≡ s.term
    → react2ae env call s ≡ ok s₁
    → rpc.term ≡ s.term
    → (should_ignore_remote_rpc (record { ip = rpc.ip; port = rpc.port }) rpc.lsn s₁).0 ≡ false
    → should_vote rpc
        (should_ignore_remote_rpc (record { ip = rpc.ip; port = rpc.port }) rpc.lsn s₁).1
      ≡ ok true
    → (s₂ : Server) × (react2rv env rpc s₁ ≡ ok s₂)
      × (votes env s.term s₂.calls ≡ suc (votes env s.term s₁.calls))
unfolding react2rv
revotes env call rpc s s₁ lossless now h same heard wins =
    let free = react2ae-unvotes env call s s₁ now h ∙ ap (λ t. (t, follower, false)) (sym same) in
    let (s₂, answered, counted) = votes_yes env rpc _ s₁ lossless free heard wins in
    let current : s₁.term ≡ rpc.term = ap (λ b. b.0) free in
    (
      s₂,
      ground (arith, answered, current),
      subst (λ t. votes env t s₂.calls ≡ suc (votes env t s₁.calls)) same counted,
    )
