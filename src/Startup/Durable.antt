-- ===== src/Startup/Durable.antt =====
-- What the append calls of RaftServer.cpp leave in the files of the log.
pub mod Responses
pub mod Events
use my_raft.Prelude.{
  ℕ, ◌+◌, ◌-◌, ◌^◌, ◌<◌, ◌≡◌, refl, sym, ap, ◌∙◌, subst, ◌⊎◌, inl, inr, Bool, ◌&&◌, not, leb, Bytes,
  List, [], ◌∷◌, length, arith, ltb, if◌then◌else◌,
}
use my_raft.Prelude.Int.{ℤ, pos, ◌+ℤ◌, ◌-ℤ◌, ltb_ℤ, eqb_ℤ, to_unsigned}
use my_raft.Prelude.Assoc.{find_or, touch, insert}
use my_raft.Prelude.Outcome.{
  ok, >>=-eq-ok, ok-injective, if-eq-ok, then-eq-ok, else-eq-ok, fail_ne_ok,
}
use my_raft.Wire.{
  Addr, addr_eq, RpcType, Entry, Codecs, AppendEntryRpc, RespAppendEntryRpc, RespRequestVoteRpc,
}
use my_raft.Entry
use my_raft.Entry.{Entries, log}
use my_raft.StateMachine.Controler
use my_raft.Server.State.{Env, Server}
use my_raft.Server.Transitions.{trans2f, ae, log_call}
use my_raft.Server.Commit.{
  follower_update_commit_index, primary_update_commit_index, write_resp_query_call,
}
use my_raft.Server.Handlers.{
  is_primary, is_candidate, insert_entry, make_resp_ae, should_ignore_remote_rpc, check_prelog,
  accept_empty, accept_entry, accept_ae, follow_ae, react2ae, append_client_apply_to_entries,
  get_from_state_machine,
}
use my_raft.Server.Votes.{
  on_retry_timer, note_accepted, accepted_ae, refused_ae, primary_deal_resp_ae_with_same_term,
  react2resp_ae, candidate_deal_resp_rv_with_same_term, react2resp_rv,
}
use my_raft.Server.Events.{
  Event, incoming, timer_ended, applied, queried, react_to_incoming_msg, step,
}
use my_raft.Server.Frames.{trans2f-Follows, trans2p-Leads, ae-Sends}
use my_raft.Server.Preservation.Transitions.{
  follower_update_commit_index-Same, primary_update_commit_index-Same,
}
use my_raft.Server.Preservation.Append.{should_ignore_remote_rpc-Same}
use my_raft.Entry.Layout.{IsValid, text}
use my_raft.Entry.Insert.{insert-refines, insert-log}
use my_raft.Cluster.Follower.{trans2f-part, stored_part, react2rv-part, on_timer-part, told-part}

-- The log stays, or one entry has been inserted.
abbrev pub Stores : Codecs → Entries → Entries → Type 0
Stores c es es' = (es' ≡ es) ⊎ ((index : ℕ) × (e : Entry) × (Entry.insert c es index e ≡ ok es'))

pub Stores-of_part :
    (c : Codecs) (s s' : Server) → stored_part s' ≡ stored_part s → Stores c s.entries s'.entries
Stores-of_part c s s' same = inl (ap (λ (q : Entries × ℤ). q.0) same)

accept_ae-Stores :
    (env : Env) (rpc : AppendEntryRpc) (entries : List Entry) (server : Addr) (s s' : Server)
    → accept_ae env rpc entries server s ≡ ok s'
    → Stores env.codecs s.entries s'.entries
unfolding accept_ae accept_empty accept_entry make_resp_ae insert_entry
accept_ae-Stores env rpc [] server s s' h =
    let (_, h₁) = else-eq-ok (ltb_ℤ (pos s.entries.size) rpc.commit_index) _ _ h in
    let (s₁, e, end) = >>=-eq-ok (follower_update_commit_index rpc.commit_index s) _ h₁ in
    inl (
      sym (ap (λ (t : Server). t.entries) (ok-injective end))
      ∙ (follower_update_commit_index-Same rpc.commit_index s s₁ e).entries)
accept_ae-Stores env rpc (entry ∷ _) server s s' h =
    let (_, h₁) = then-eq-ok (eqb_ℤ entry.index (rpc.prelog_index +ℤ pos 1)) _ _ h in
    let (s₁, e₁, rest) = >>=-eq-ok (insert_entry env (rpc.prelog_index +ℤ pos 1) entry s) _ h₁ in
    let (es, inserted, put) = >>=-eq-ok (Entry.insert env.codecs s.entries _ entry) _ e₁ in
    let (s₂, e₂, end) = >>=-eq-ok (follower_update_commit_index rpc.commit_index s₁) _ rest in
    let same : es ≡ s'.entries =
      ap (λ (t : Server). t.entries) (ok-injective put)
      ∙ sym (follower_update_commit_index-Same rpc.commit_index s₁ s₂ e₂).entries
      ∙ ap (λ (t : Server). t.entries) (ok-injective end) in
    inr (to_unsigned (rpc.prelog_index +ℤ pos 1), entry, inserted ∙ ap ok same)

follow_ae-Stores :
    (env : Env) (rpc : AppendEntryRpc) (server : Addr) (s s' : Server)
    → follow_ae env rpc server s ≡ ok s'
    → Stores env.codecs s.entries s'.entries
unfolding follow_ae make_resp_ae
follow_ae-Stores env rpc server s s' h =
    let checked = should_ignore_remote_rpc server rpc.lsn s in
    let same = (should_ignore_remote_rpc-Same server rpc.lsn s).entries in
    subst (λ es. Stores env.codecs es s'.entries) same
      (elim (if-eq-ok checked.0 (ok checked.1) _ h) [
        | inl (_, stale) ↦ inl (sym (ap (λ (t : Server). t.entries) (ok-injective stale)))
        | inr (_, rest) ↦
            let (passed, e, last) = >>=-eq-ok (check_prelog rpc checked.1) _ rest in
            elim (if-eq-ok passed (accept_ae env rpc rpc.entry server checked.1) _ last) [
              | inl (_, end) ↦ accept_ae-Stores env rpc rpc.entry server checked.1 s' end
              | inr (_, end) ↦ inl (sym (ap (λ (t : Server). t.entries) (ok-injective end)))
            ]
      ])

pub react2ae-Stores :
    (env : Env) (rpc : AppendEntryRpc) (s s' : Server)
    → react2ae env rpc s ≡ ok s'
    → Stores env.codecs s.entries s'.entries
unfolding react2ae make_resp_ae
react2ae-Stores env rpc s s' h =
    let (_, h₁) = else-eq-ok (ltb 1 (length rpc.entry)) _ _ h in
    elim (if-eq-ok (ltb_ℤ rpc.term s.term) (ok _) _ h₁) [
      | inl (_, refused) ↦ inl (sym (ap (λ (t : Server). t.entries) (ok-injective refused)))
      | inr (_, h₂) ↦
          let (_, h₃) = else-eq-ok (is_primary s.state && eqb_ℤ s.term rpc.term) _ _ h₂ in
          let (s₁, e, rest) = >>=-eq-ok (trans2f env rpc.term s) _ h₃ in
          subst (λ es. Stores env.codecs es s'.entries)
            (ap (λ (t : Server). t.entries) (trans2f-Follows env rpc.term s s₁ e).same)
            (follow_ae-Stores env rpc _ s₁ s' rest)
    ]
