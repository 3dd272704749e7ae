-- ===== src/Server/Handover/Messages.antt =====
-- RaftServer.cpp: what `react2ae` and `react2rv` give to the write pool.
use my_raft.Prelude.{
  ◌≡◌, sym, ap, ◌∙◌, inl, inr, ◌&&◌, List, [], ◌∷◌, length, arith, ltb, if◌then◌else◌,
}
use my_raft.Prelude.Int.{ℤ, pos, ◌+ℤ◌, ltb_ℤ, eqb_ℤ}
use my_raft.Prelude.Outcome.{ok, >>=-eq-ok, ok-injective, if-eq-ok, then-eq-ok, else-eq-ok}
use my_raft.Wire.{Addr, addr_eq, Entry, AppendEntryRpc, RequestVoteRpc}
use my_raft.Entry
use my_raft.Entry.{Entries}
use my_raft.Server.State.{Call, Env, Server}
use my_raft.Server.Transitions.{trans2f, log_call}
use my_raft.Server.Commit.{follower_update_commit_index}
use my_raft.Server.Handlers.{
  is_primary, insert_entry, make_resp_ae, make_resp_rv, should_ignore_remote_rpc, check_prelog,
  accept_empty, accept_entry, accept_ae, follow_ae, react2ae,
}
use my_raft.Server.Votes.{answer_rv, react2rv}
use my_raft.Server.Frames.{trans2f-Follows}
use my_raft.Server.Handover.{
  Queue, queue_of, Hands, Hands-none, Hands-before, Hands-after, follower_update-Hands,
}

pub same-Hands : (s s' : Server) → ok s ≡ ok s' → Hands (queue_of s) s'
same-Hands s s' h = Hands-none s s' (sym (ap queue_of (ok-injective h)))

pub trans2f-Hands :
    (env : Env) (term : ℤ) (s s' : Server) → trans2f env term s ≡ ok s' → Hands (queue_of s) s'
trans2f-Hands env term s s' h = Hands-none s s' (ap queue_of (trans2f-Follows env term s s' h).same)

pub insert_entry-queue :
    (env : Env) (index : ℤ) (e : Entry) (s s' : Server)
    → insert_entry env index e s ≡ ok s'
    → queue_of s' ≡ queue_of s
unfolding insert_entry
insert_entry-queue env index e s s' h =
    let (es, _, end) = >>=-eq-ok (Entry.insert env.codecs s.entries _ e) _ h in
    sym (ap queue_of (ok-injective end))

-- A call more does not matter.
answered-Hands :
    (q : Queue) (s s' : Server) (c : Call) → Hands q s → ok (log_call s c) ≡ ok s' → Hands q s'
answered-Hands q s s' c h end =
    Hands-after q s s' h (sym (ap queue_of (ok-injective end)))
      (sym (ap (λ (t : Server). t.entries) (ok-injective end)))

accept_ae-Hands :
    (env : Env) (rpc : AppendEntryRpc) (entries : List Entry) (server : Addr) (s s' : Server)
    → accept_ae env rpc entries server s ≡ ok s'
    → Hands (queue_of s) s'
unfolding accept_ae accept_empty accept_entry make_resp_ae
accept_ae-Hands env rpc [] server s s' h =
    let (_, h₁) = else-eq-ok (ltb_ℤ (pos s.entries.size) rpc.commit_index) _ _ h in
    let (s₁, e, end) = >>=-eq-ok (follower_update_commit_index rpc.commit_index s) _ h₁ in
    answered-Hands (queue_of s) s₁ s' _ (follower_update-Hands rpc.commit_index s s₁ e) end
accept_ae-Hands env rpc (entry ∷ _) server s s' h =
    let (_, h₁) = then-eq-ok (eqb_ℤ entry.index (rpc.prelog_index +ℤ pos 1)) _ _ h in
    let (s₁, e₁, rest) = >>=-eq-ok (insert_entry env (rpc.prelog_index +ℤ pos 1) entry s) _ h₁ in
    let (s₂, e₂, end) = >>=-eq-ok (follower_update_commit_index rpc.commit_index s₁) _ rest in
    Hands-before s s₁ s' (insert_entry-queue env _ entry s s₁ e₁)
      (answered-Hands (queue_of s₁) s₂ s' _ (follower_update-Hands rpc.commit_index s₁ s₂ e₂) end)

checked-queue :
    (server : Addr) (lsn : ℤ) (s : Server)
    → queue_of (should_ignore_remote_rpc server lsn s).1 ≡ queue_of s
unfolding should_ignore_remote_rpc
checked-queue server lsn s = ground arith

follow_ae-Hands :
    (env : Env) (rpc : AppendEntryRpc) (server : Addr) (s s' : Server)
    → follow_ae env rpc server s ≡ ok s'
    → Hands (queue_of s) s'
unfolding follow_ae make_resp_ae
follow_ae-Hands env rpc server s s' h =
    let checked = should_ignore_remote_rpc server rpc.lsn s in
    let same = checked-queue server rpc.lsn s in
    Hands-before s checked.1 s' same (elim (if-eq-ok checked.0 (ok checked.1) _ h) [
      | inl (_, stale) ↦ same-Hands checked.1 s' stale
      | inr (_, rest) ↦
          let (passed, e, last) = >>=-eq-ok (check_prelog rpc checked.1) _ rest in
          elim (if-eq-ok passed (accept_ae env rpc rpc.entry server checked.1) _ last) [
            | inl (_, end) ↦ accept_ae-Hands env rpc rpc.entry server checked.1 s' end
            | inr (_, end) ↦ Hands-none checked.1 s' (sym (ap queue_of (ok-injective end)))
          ]
    ])

pub react2ae-Hands :
    (env : Env) (rpc : AppendEntryRpc) (s s' : Server)
    → react2ae env rpc s ≡ ok s'
    → Hands (queue_of s) s'
unfolding react2ae make_resp_ae
react2ae-Hands env rpc s s' h =
    let (_, h₁) = else-eq-ok (ltb 1 (length rpc.entry)) _ _ h in
    elim (if-eq-ok (ltb_ℤ rpc.term s.term) (ok _) _ h₁) [
      | inl (_, refused) ↦ Hands-none s s' (sym (ap queue_of (ok-injective refused)))
      | inr (_, h₂) ↦
          let (_, h₃) = else-eq-ok (is_primary s.state && eqb_ℤ s.term rpc.term) _ _ h₂ in
          let (s₁, e, rest) = >>=-eq-ok (trans2f env rpc.term s) _ h₃ in
          Hands-before s s₁ s' (ap queue_of (trans2f-Follows env rpc.term s s₁ e).same)
            (follow_ae-Hands env rpc _ s₁ s' rest)
    ]

answer_rv-queue :
    (env : Env) (rpc : RequestVoteRpc) (server : Addr) (s s' : Server)
    → answer_rv env rpc server s ≡ ok s'
    → queue_of s' ≡ queue_of s
unfolding answer_rv make_resp_rv should_ignore_remote_rpc
answer_rv-queue env rpc server s s' h = ground arith

pub react2rv-Hands :
    (env : Env) (rpc : RequestVoteRpc) (s s' : Server)
    → react2rv env rpc s ≡ ok s'
    → Hands (queue_of s) s'
unfolding react2rv make_resp_rv
react2rv-Hands env rpc s s' h = elim (if-eq-ok (ltb_ℤ rpc.term s.term) (ok _) _ h) [
  | inl (_, refused) ↦ Hands-none s s' (sym (ap queue_of (ok-injective refused)))
  | inr (_, h₁) ↦
      let (s₁, e, rest) =
        >>=-eq-ok (if ltb_ℤ s.term rpc.term then trans2f env rpc.term s else ok s) _ h₁ in
      let answered = answer_rv-queue env rpc _ s₁ s' rest in
      elim (if-eq-ok (ltb_ℤ s.term rpc.term) (trans2f env rpc.term s) (ok s) e) [
        | inl (_, f) ↦
            Hands-none s s' (answered ∙ ap queue_of (trans2f-Follows env rpc.term s s₁ f).same)
        | inr (_, same) ↦ Hands-none s s' (answered ∙ sym (ap queue_of (ok-injective same)))
      ]
]
