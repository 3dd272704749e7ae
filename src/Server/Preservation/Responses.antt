-- ===== src/Server/Preservation/Responses.antt =====
-- The invariant under `react2resp_ae` and `react2resp_rv`.
use my_raft.Prelude.{◌+◌, ◌≡◌, refl, sym, subst, inl, inr, Bool, true, false, arith, leb, not}
use my_raft.Prelude.Int.{ℤ, pos, ◌+ℤ◌, ◌-ℤ◌, eqb_ℤ, ltb_ℤ}
use my_raft.Prelude.Outcome.{ok, >>=-eq-ok, ok-injective, if-eq-ok, then-eq-ok, else-eq-ok}
use my_raft.Prelude.Assoc.{find_or, touch}
use my_raft.Wire.{Addr, addr_eq, RespAppendEntryRpc, RespRequestVoteRpc}
use my_raft.Server.State.{Call, Env, Server}
use my_raft.Server.Transitions.{trans2f, trans2p, ae, log_call}
use my_raft.Server.Handlers.{is_primary, is_candidate}
use my_raft.Server.Votes.{
  on_retry_timer, note_accepted, accepted_ae, refused_ae, primary_deal_resp_ae_with_same_term,
  react2resp_ae, candidate_deal_resp_rv_with_same_term, react2resp_rv,
}
use my_raft.Server.Frames.{ae-Sends}
use my_raft.Server.Invariant.{
  Evolves, Evolves-refl, Evolves-trans, Same, Same-Evolves, Sends-Evolves,
}
use my_raft.Server.Preservation.Transitions.{
  log_call-Evolves, trans2f-Evolves, trans2p-Evolves, primary_update_commit_index-Same,
}

pub on_retry_timer_lem : (server : Addr) (s s' : Server) → on_retry_timer server s ≡ ok s' → s ≡ s'
unfolding on_retry_timer
on_retry_timer_lem server s s' h = ground arith

-- What a primary does last when it sends again at once.
pub resend-Evolves :
    (env : Env) (server : Addr) (s t s' : Server) (c : Call)
    → on_retry_timer server s ≡ ok t
    → ae env server (log_call t c) ≡ ok s'
    → Evolves s s'
resend-Evolves env server s t s' c same sent =
    subst (λ r. Evolves r s') (sym (on_retry_timer_lem server s t same))
      (Evolves-trans (log_call-Evolves t c)
        (Sends-Evolves (ae-Sends env server (log_call t c) s' sent)))

pub note_accepted-Same :
    (is_empty_ae : Bool) (next : ℤ) (server : Addr) (s s' : Server)
    → note_accepted is_empty_ae next server s ≡ ok s'
    → Same s s'
unfolding note_accepted
note_accepted-Same true next server s s' h =
    primary_update_commit_index-Same server (next -ℤ pos 1) s s' h
note_accepted-Same false next server s s' h =
    ground (arith, primary_update_commit_index-Same server next _ s' h)

pub accepted_ae-Evolves :
    (env : Env) (is_empty_ae : Bool) (next : ℤ) (server : Addr) (s s' : Server)
    → accepted_ae env is_empty_ae next server s ≡ ok s'
    → Evolves s s'
unfolding accepted_ae
accepted_ae-Evolves env is_empty_ae next server s s' h =
    let (_, h₁) = else-eq-ok (ltb_ℤ (pos s.entries.size) next) _ _ h in
    elim (if-eq-ok (eqb_ℤ next (pos s.entries.size)) _ _ h₁) [
      | inl (_, last) ↦ Same-Evolves (primary_update_commit_index-Same server _ s s' last)
      | inr (_, h₂) ↦
          let (s₁, e₁, h₃) = >>=-eq-ok (note_accepted is_empty_ae next server s) _ h₂ in
          let (s₂, e₂, sent) = >>=-eq-ok (on_retry_timer server s₁) _ h₃ in
          Evolves-trans (Same-Evolves (note_accepted-Same is_empty_ae next server s s₁ e₁))
            (resend-Evolves env server s₁ s₂ s' _ e₂ sent)
    ]

pub refused_ae-Evolves :
    (env : Env) (next : ℤ) (server : Addr) (s s' : Server)
    → refused_ae env next server s ≡ ok s'
    → Evolves s s'
unfolding refused_ae
refused_ae-Evolves env next server s s' h =
    let (_, h₁) = else-eq-ok (eqb_ℤ next (pos 0)) _ _ h in
    let (s₁, e, sent) = >>=-eq-ok (on_retry_timer server _) _ h₁ in
    Evolves-trans
      (Same-Evolves (record {
        term = refl;
        ip = refl;
        port = refl;
        configuration = refl;
        majority = refl;
        retry_timers = refl;
        state = refl;
        winned_votes = refl;
        entries = refl;
      }))
      (resend-Evolves env server _ s₁ s' _ e sent)

pub primary_deal_resp_ae-Evolves :
    (env : Env) (server : Addr) (resp : RespAppendEntryRpc) (s s' : Server)
    → primary_deal_resp_ae_with_same_term env server resp s ≡ ok s'
    → Evolves s s'
unfolding primary_deal_resp_ae_with_same_term
primary_deal_resp_ae-Evolves env server resp s s' h =
    let next = find_or (pos 0) server s.next_index in
    elim (if-eq-ok (not (eqb_ℤ (find_or (pos 0) server s.current_rpc_lsn) (resp.lsn +ℤ pos 1)))
      (ok _) _ h) [
        | inl (_, stale) ↦ Same-Evolves (ground arith)
        | inr (_, h₁) ↦
            Evolves-trans (Same-Evolves touched)
              (elim (if-eq-ok resp.is_ok (accepted_ae env resp.is_empty_ae next server _) _ h₁) [
                | inl (_, accepted) ↦
                    accepted_ae-Evolves env resp.is_empty_ae next server _ s' accepted
                | inr (_, refused) ↦ refused_ae-Evolves env next server _ s' refused
              ])
      ]
  where
    touched : Same s (record s {
      current_rpc_lsn = touch (pos 0) server s.current_rpc_lsn;
      next_index = touch (pos 0) server s.next_index;
    })
    touched = record {
      term = refl;
      ip = refl;
      port = refl;
      configuration = refl;
      majority = refl;
      retry_timers = refl;
      state = refl;
      winned_votes = refl;
      entries = refl;
    }

pub react2resp_ae-Evolves :
    (env : Env) (resp : RespAppendEntryRpc) (s s' : Server)
    → react2resp_ae env resp s ≡ ok s'
    → Evolves s s'
unfolding react2resp_ae
react2resp_ae-Evolves env resp s s' h =
    elim (if-eq-ok (ltb_ℤ s.term resp.term) (trans2f env resp.term s) _ h) [
      | inl (_, newer) ↦ trans2f-Evolves env resp.term s s' newer
      | inr (_, h₁) ↦ elim (if-eq-ok (ltb_ℤ resp.term s.term) (ok s) _ h₁) [
        | inl (_, same) ↦ subst (Evolves s) (ok-injective same) (Evolves-refl s)
        | inr (_, h₂) ↦
            primary_deal_resp_ae-Evolves env _ resp s s' (then-eq-ok (is_primary s.state) _ _ h₂).1
      ]
    ]

pub candidate_deal_resp_rv-Evolves :
    (env : Env) (server : Addr) (resp : RespRequestVoteRpc) (s s' : Server)
    → is_candidate s.state ≡ true
    → candidate_deal_resp_rv_with_same_term env server resp s ≡ ok s'
    → Evolves s s'
unfolding candidate_deal_resp_rv_with_same_term
candidate_deal_resp_rv-Evolves env server resp s s' stands h =
    elim (if-eq-ok (not (eqb_ℤ (find_or (pos 0) server s.current_rpc_lsn) (resp.lsn +ℤ pos 1)))
      (ok _) _ h) [
        | inl (_, stale) ↦ Same-Evolves (ground arith)
        | inr (_, h₁) ↦ elim (if-eq-ok (not resp.is_ok) (ok _) _ h₁) [
          | inl (_, refused) ↦ Same-Evolves (ground arith)
          | inr (_, h₂) ↦
              elim (if-eq-ok (leb s.majority (s.winned_votes + 1)) (trans2p env _) _ h₂) [
                | inl (enough, won) ↦
                    Evolves-trans counted (trans2p-Evolves env _ s' (ground arith) won)
                | inr (_, h₃) ↦
                    let (s₁, e, end) = >>=-eq-ok (on_retry_timer server _) _ h₃ in
                    Evolves-trans counted (
                      subst (λ r. Evolves r s') (sym (on_retry_timer_lem server _ s₁ e))
                        (subst (Evolves s₁) (ok-injective end) (log_call-Evolves s₁ _)))
              ]
        ]
      ]
  where
    touched : Server
    touched = record s {
      current_rpc_lsn = touch (pos 0) server s.current_rpc_lsn;
      winned_votes = s.winned_votes + 1;
    }

    -- A vote more does not matter to a candidate.
    counted : Evolves s touched
    counted = record {
      term_le = omega arith;
      ip = refl;
      port = refl;
      configuration = refl;
      majority = refl;
      retry_timers = refl;
      keeps = λ w. record {
        stored = w.stored;
        numbered = w.numbered;
        quorum = w.quorum;
        elected = inl (ground arith);
      };
    }

pub react2resp_rv-Evolves :
    (env : Env) (resp : RespRequestVoteRpc) (s s' : Server)
    → react2resp_rv env resp s ≡ ok s'
    → Evolves s s'
unfolding react2resp_rv
react2resp_rv-Evolves env resp s s' h =
    elim (if-eq-ok (ltb_ℤ s.term resp.term) (trans2f env resp.term s) _ h) [
      | inl (_, newer) ↦ trans2f-Evolves env resp.term s s' newer
      | inr (_, h₁) ↦ elim (if-eq-ok (ltb_ℤ resp.term s.term) (ok s) _ h₁) [
        | inl (_, same) ↦ subst (Evolves s) (ok-injective same) (Evolves-refl s)
        | inr (_, h₂) ↦ elim (if-eq-ok (is_candidate s.state) _ (ok s) h₂) [
          | inl (stands, counted) ↦ candidate_deal_resp_rv-Evolves env _ resp s s' stands counted
          | inr (_, same) ↦ subst (Evolves s) (ok-injective same) (Evolves-refl s)
        ]
      ]
    ]
