-- ===== src/Server/Preservation/Append.antt =====
-- The invariant under `react2ae` and `react2rv`.
use my_raft.Prelude.{
  ◌≡◌, sym, ap, subst, ◌∙◌, inl, inr, true, ◌&&◌, List, [], ◌∷◌, length, arith, ltb, if◌then◌else◌,
}
use my_raft.Prelude.Int.{ℤ, pos, ◌+ℤ◌, to_unsigned, eqb_ℤ, ltb_ℤ, eqb_ℤ_iff}
use my_raft.Prelude.Outcome.{ok, >>=-eq-ok, ok-injective, if-eq-ok, then-eq-ok, else-eq-ok}
use my_raft.Wire.{Addr, addr_eq, Entry, AppendEntryRpc, RequestVoteRpc}
use my_raft.Entry.{get}
use my_raft.Server.State.{Env, Server}
use my_raft.Server.Transitions.{trans2f}
use my_raft.Server.Commit.{follower_update_commit_index}
use my_raft.Server.Handlers.{
  is_primary, insert_entry, make_resp_ae, make_resp_rv, should_ignore_remote_rpc, check_prelog,
  accept_empty, accept_entry, accept_ae, follow_ae, react2ae,
}
use my_raft.Server.Votes.{answer_rv, react2rv}
use my_raft.Server.Invariant.{Evolves, Evolves-trans, Same, Same-Evolves, insert_entry-Evolves}
use my_raft.Server.Preservation.Transitions.{
  log_call-Evolves, trans2f-Evolves, follower_update_commit_index-Same,
}

pub should_ignore_remote_rpc-Same :
    (server : Addr) (lsn : ℤ) (s : Server) → Same s (should_ignore_remote_rpc server lsn s).1
unfolding should_ignore_remote_rpc
should_ignore_remote_rpc-Same server lsn s = ground arith

-- A call that passes the check has a previous index of -1 or more.
pub check_prelog_index :
    (rpc : AppendEntryRpc) (s : Server)
    → check_prelog rpc s ≡ ok true
    → rpc.prelog_index +ℤ pos 1 ≡ pos (to_unsigned (rpc.prelog_index +ℤ pos 1))
unfolding check_prelog get ◌+ℤ◌
check_prelog_index rpc s h = ground arith

pub accept_empty-Evolves :
    (env : Env) (rpc : AppendEntryRpc) (server : Addr) (s s' : Server)
    → accept_empty env rpc server s ≡ ok s'
    → Evolves s s'
unfolding accept_empty make_resp_ae
accept_empty-Evolves env rpc server s s' h =
    let (_, h₁) = else-eq-ok (ltb_ℤ (pos s.entries.size) rpc.commit_index) _ _ h in
    let (s₁, e, end) = >>=-eq-ok (follower_update_commit_index rpc.commit_index s) _ h₁ in
    Same-Evolves (ground (arith, follower_update_commit_index-Same rpc.commit_index s s₁ e))

pub accept_entry-Evolves :
    (env : Env) (rpc : AppendEntryRpc) (entry : Entry) (server : Addr) (s s' : Server)
    → rpc.prelog_index +ℤ pos 1 ≡ pos (to_unsigned (rpc.prelog_index +ℤ pos 1))
    → accept_entry env rpc entry server s ≡ ok s'
    → Evolves s s'
unfolding accept_entry make_resp_ae
accept_entry-Evolves env rpc entry server s s' place h =
    let (right, h₁) = then-eq-ok (eqb_ℤ entry.index (rpc.prelog_index +ℤ pos 1)) _ _ h in
    let (s₁, e₁, rest) = >>=-eq-ok (insert_entry env (rpc.prelog_index +ℤ pos 1) entry s) _ h₁ in
    let (s₂, e₂, end) = >>=-eq-ok (follower_update_commit_index rpc.commit_index s₁) _ rest in
    let later : Evolves s₁ s' =
      Same-Evolves (ground (arith, follower_update_commit_index-Same rpc.commit_index s₁ s₂ e₂)) in
    Evolves-trans
      (insert_entry-Evolves env (rpc.prelog_index +ℤ pos 1) entry s s₁
        ((eqb_ℤ_iff entry.index _).0 right ∙ place) e₁)
      later

pub accept_ae-Evolves :
    (env : Env) (rpc : AppendEntryRpc) (entries : List Entry) (server : Addr) (s s' : Server)
    → rpc.prelog_index +ℤ pos 1 ≡ pos (to_unsigned (rpc.prelog_index +ℤ pos 1))
    → accept_ae env rpc entries server s ≡ ok s'
    → Evolves s s'
unfolding accept_ae
accept_ae-Evolves env rpc [] server s s' place h = accept_empty-Evolves env rpc server s s' h
accept_ae-Evolves env rpc (entry ∷ _) server s s' place h =
    accept_entry-Evolves env rpc entry server s s' place h

pub follow_ae-Evolves :
    (env : Env) (rpc : AppendEntryRpc) (server : Addr) (s s' : Server)
    → follow_ae env rpc server s ≡ ok s'
    → Evolves s s'
unfolding follow_ae make_resp_ae
follow_ae-Evolves env rpc server s s' h =
    let checked = should_ignore_remote_rpc server rpc.lsn s in
    let first : Evolves s checked.1 =
      Same-Evolves (should_ignore_remote_rpc-Same server rpc.lsn s) in
    elim (if-eq-ok checked.0 (ok checked.1) _ h) [
      | inl (_, same) ↦ subst (Evolves s) (ok-injective same) first
      | inr (_, rest) ↦
          let (passed, e, last) = >>=-eq-ok (check_prelog rpc checked.1) _ rest in
          elim (if-eq-ok passed (accept_ae env rpc rpc.entry server checked.1) _ last) [
            | inl (accepted, end) ↦ Evolves-trans first (
                accept_ae-Evolves env rpc rpc.entry server checked.1 s'
                  (check_prelog_index rpc checked.1 (e ∙ ap ok accepted)) end)
            | inr (_, end) ↦
                subst (Evolves s) (ok-injective end)
                  (Evolves-trans first (log_call-Evolves checked.1 _))
          ]
    ]

pub react2ae-Evolves :
    (env : Env) (rpc : AppendEntryRpc) (s s' : Server) → react2ae env rpc s ≡ ok s' → Evolves s s'
unfolding react2ae make_resp_ae
react2ae-Evolves env rpc s s' h =
    let (_, h₁) = else-eq-ok (ltb 1 (length rpc.entry)) _ _ h in
    elim (if-eq-ok (ltb_ℤ rpc.term s.term) (ok _) _ h₁) [
      | inl (_, refused) ↦ subst (Evolves s) (ok-injective refused) (log_call-Evolves s _)
      | inr (_, h₂) ↦
          let (_, h₃) = else-eq-ok (is_primary s.state && eqb_ℤ s.term rpc.term) _ _ h₂ in
          let (s₁, e, rest) = >>=-eq-ok (trans2f env rpc.term s) _ h₃ in
          Evolves-trans (trans2f-Evolves env rpc.term s s₁ e)
            (follow_ae-Evolves env rpc _ s₁ s' rest)
    ]

pub answer_rv-Evolves :
    (env : Env) (rpc : RequestVoteRpc) (server : Addr) (s s' : Server)
    → answer_rv env rpc server s ≡ ok s'
    → Evolves s s'
unfolding answer_rv make_resp_rv should_ignore_remote_rpc
answer_rv-Evolves env rpc server s s' h = Same-Evolves (ground arith)

pub react2rv-Evolves :
    (env : Env) (rpc : RequestVoteRpc) (s s' : Server) → react2rv env rpc s ≡ ok s' → Evolves s s'
unfolding react2rv make_resp_rv
react2rv-Evolves env rpc s s' h = elim (if-eq-ok (ltb_ℤ rpc.term s.term) (ok _) _ h) [
  | inl (_, refused) ↦ subst (Evolves s) (ok-injective refused) (log_call-Evolves s _)
  | inr (_, h₁) ↦
      let (s₁, e, rest) =
        >>=-eq-ok (if ltb_ℤ s.term rpc.term then trans2f env rpc.term s else ok s) _ h₁ in
      let later = answer_rv-Evolves env rpc _ s₁ s' rest in
      elim (if-eq-ok (ltb_ℤ s.term rpc.term) (trans2f env rpc.term s) (ok s) e) [
        | inl (_, f) ↦ Evolves-trans (trans2f-Evolves env rpc.term s s₁ f) later
        | inr (_, same) ↦ subst (λ t. Evolves t s') (sym (ok-injective same)) later
      ]
]
