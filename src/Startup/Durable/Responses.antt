-- ===== src/Startup/Durable/Responses.antt =====
-- The answers that RaftServer.cpp handles leave the log alone.
use my_raft.Prelude.{◌+◌, ◌≡◌, sym, ap, ◌∙◌, inl, inr, Bool, not, leb, arith}
use my_raft.Prelude.Int.{ℤ, pos, ◌+ℤ◌, ◌-ℤ◌, ltb_ℤ, eqb_ℤ}
use my_raft.Prelude.Assoc.{find_or, touch}
use my_raft.Prelude.Outcome.{ok, >>=-eq-ok, ok-injective, if-eq-ok, then-eq-ok, else-eq-ok}
use my_raft.Wire.{Addr, addr_eq, RespAppendEntryRpc, RespRequestVoteRpc}
use my_raft.Server.State.{Env, Server}
use my_raft.Server.Transitions.{trans2f}
use my_raft.Server.Commit.{primary_update_commit_index}
use my_raft.Server.Handlers.{is_primary, is_candidate}
use my_raft.Server.Votes.{
  on_retry_timer, note_accepted, accepted_ae, refused_ae, primary_deal_resp_ae_with_same_term,
  react2resp_ae, candidate_deal_resp_rv_with_same_term, react2resp_rv,
}
use my_raft.Server.Frames.{trans2f-Follows, trans2p-Leads, ae-Sends}
use my_raft.Server.Preservation.Transitions.{primary_update_commit_index-Same}

on_retry_timer-entries :
    (server : Addr) (s s' : Server) → on_retry_timer server s ≡ ok s' → s'.entries ≡ s.entries
unfolding on_retry_timer
on_retry_timer-entries server s s' h = ground arith

note_accepted-entries :
    (is_empty_ae : Bool) (next : ℤ) (server : Addr) (s s' : Server)
    → note_accepted is_empty_ae next server s ≡ ok s'
    → s'.entries ≡ s.entries
unfolding note_accepted
note_accepted-entries is_empty_ae next server s s' h =
    elim (if-eq-ok is_empty_ae (primary_update_commit_index server (next -ℤ pos 1) s) _ h) [
      | inl (_, before) ↦
          (primary_update_commit_index-Same server (next -ℤ pos 1) s s' before).entries
      | inr (_, stored) ↦ (primary_update_commit_index-Same server next _ s' stored).entries
    ]

accepted_ae-entries :
    (env : Env) (is_empty_ae : Bool) (next : ℤ) (server : Addr) (s s' : Server)
    → accepted_ae env is_empty_ae next server s ≡ ok s'
    → s'.entries ≡ s.entries
unfolding accepted_ae
accepted_ae-entries env is_empty_ae next server s s' h =
    let (_, h₁) = else-eq-ok (ltb_ℤ (pos s.entries.size) next) _ _ h in
    elim (if-eq-ok (eqb_ℤ next (pos s.entries.size)) _ _ h₁) [
      | inl (_, last) ↦ (primary_update_commit_index-Same server (next -ℤ pos 1) s s' last).entries
      | inr (_, h₂) ↦
          let (s₁, e₁, h₃) = >>=-eq-ok (note_accepted is_empty_ae next server s) _ h₂ in
          let (s₂, e₂, sent) = >>=-eq-ok (on_retry_timer server s₁) _ h₃ in
          ap (λ (t : Server). t.entries) (ae-Sends env server _ s' sent).same
          ∙ on_retry_timer-entries server s₁ s₂ e₂
          ∙ note_accepted-entries is_empty_ae next server s s₁ e₁
    ]

refused_ae-entries :
    (env : Env) (next : ℤ) (server : Addr) (s s' : Server)
    → refused_ae env next server s ≡ ok s'
    → s'.entries ≡ s.entries
unfolding refused_ae
refused_ae-entries env next server s s' h =
    let (_, h₁) = else-eq-ok (eqb_ℤ next (pos 0)) _ _ h in
    let (s₁, e, sent) = >>=-eq-ok (on_retry_timer server _) _ h₁ in
    ap (λ (t : Server). t.entries) (ae-Sends env server _ s' sent).same
    ∙ on_retry_timer-entries server _ s₁ e

pub react2resp_ae-entries :
    (env : Env) (resp : RespAppendEntryRpc) (s s' : Server)
    → react2resp_ae env resp s ≡ ok s'
    → s'.entries ≡ s.entries
unfolding react2resp_ae primary_deal_resp_ae_with_same_term
react2resp_ae-entries env resp s s' h =
    elim (if-eq-ok (ltb_ℤ s.term resp.term) (trans2f env resp.term s) _ h) [
      | inl (_, newer) ↦
          ap (λ (t : Server). t.entries) (trans2f-Follows env resp.term s s' newer).same
      | inr (_, h₁) ↦ elim (if-eq-ok (ltb_ℤ resp.term s.term) (ok s) _ h₁) [
        | inl (_, same) ↦ sym (ap (λ (t : Server). t.entries) (ok-injective same))
        | inr (_, h₂) ↦
            let (_, h₃) = then-eq-ok (is_primary s.state) _ _ h₂ in
            elim (if-eq-ok (not (eqb_ℤ (find_or (pos 0) _ s.current_rpc_lsn) (resp.lsn +ℤ pos 1)))
              (ok _) _ h₃) [
                | inl (_, stale) ↦ sym (ap (λ (t : Server). t.entries) (ok-injective stale))
                | inr (_, h₄) ↦
                    elim (if-eq-ok resp.is_ok (accepted_ae env resp.is_empty_ae _ _ _) _ h₄) [
                      | inl (_, accepted) ↦
                          accepted_ae-entries env resp.is_empty_ae _ _ _ s' accepted
                      | inr (_, refused) ↦ refused_ae-entries env _ _ _ s' refused
                    ]
              ]
      ]
    ]

candidate_deal-entries :
    (env : Env) (server : Addr) (resp : RespRequestVoteRpc) (s s' : Server)
    → candidate_deal_resp_rv_with_same_term env server resp s ≡ ok s'
    → s'.entries ≡ s.entries
unfolding candidate_deal_resp_rv_with_same_term on_retry_timer
candidate_deal-entries env server resp s s' h =
    let checked = record s { current_rpc_lsn = touch (pos 0) server s.current_rpc_lsn } in
    elim (if-eq-ok (not (eqb_ℤ (find_or (pos 0) server s.current_rpc_lsn) (resp.lsn +ℤ pos 1)))
      (ok checked) _ h) [
        | inl (_, stale) ↦ sym (ap (λ (t : Server). t.entries) (ok-injective stale))
        | inr (_, h₁) ↦ elim (if-eq-ok (not resp.is_ok) (ok checked) _ h₁) [
          | inl (_, lost) ↦ sym (ap (λ (t : Server). t.entries) (ok-injective lost))
          | inr (_, h₂) ↦ elim (if-eq-ok (leb s.majority (s.winned_votes + 1)) _ _ h₂) [
            | inl (_, won) ↦ ap (λ (t : Server). t.entries) (trans2p-Leads env _ s' won).same
            | inr (_, waits) ↦ ground (arith, waits)
          ]
        ]
      ]

pub react2resp_rv-entries :
    (env : Env) (resp : RespRequestVoteRpc) (s s' : Server)
    → react2resp_rv env resp s ≡ ok s'
    → s'.entries ≡ s.entries
unfolding react2resp_rv
react2resp_rv-entries env resp s s' h =
    elim (if-eq-ok (ltb_ℤ s.term resp.term) (trans2f env resp.term s) _ h) [
      | inl (_, newer) ↦
          ap (λ (t : Server). t.entries) (trans2f-Follows env resp.term s s' newer).same
      | inr (_, h₁) ↦ elim (if-eq-ok (ltb_ℤ resp.term s.term) (ok s) _ h₁) [
        | inl (_, same) ↦ sym (ap (λ (t : Server). t.entries) (ok-injective same))
        | inr (_, h₂) ↦ elim (if-eq-ok (is_candidate s.state) _ (ok s) h₂) [
          | inl (_, counts) ↦ candidate_deal-entries env _ resp s s' counts
          | inr (_, same) ↦ sym (ap (λ (t : Server). t.entries) (ok-injective same))
        ]
      ]
    ]
