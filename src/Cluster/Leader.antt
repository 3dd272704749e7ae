-- ===== src/Cluster/Leader.antt =====
-- What a primary does while it stays primary of its term: `react2resp_ae` and what it calls, `AE`,
-- `RV`, and the clients' calls.
use my_raft.Prelude.{
  ℕ, ◌≤◌, ◌≡◌, refl, sym, ap, ◌∙◌, subst, inl, inr, Bool, true, false, not, List, length, arith,
  eqb,
}
use my_raft.Prelude.Int.{ℤ, pos, ◌+ℤ◌, ◌-ℤ◌, ◌<ℤ◌, eqb_ℤ, ltb_ℤ, -ℤ_parts, ◌≤ℤ◌, +ℤ_parts}
use my_raft.Prelude.Assoc.{Map, insert, find_or, touch}
use my_raft.Prelude.Outcome.{Fault, ok, >>=-eq-ok, ok-injective, if-eq-ok, then-eq-ok, else-eq-ok}
use my_raft.Wire.{
  Addr, addr_eq, append_entry, request_vote, Entry, AppendEntryRpc, RespAppendEntryRpc,
}
use my_raft.Entry.{log}
use my_raft.Server.State.{Timer, retry_timer, Hook, Call, Env, Server}
use my_raft.Server.Frames.{send-Sends}
use my_raft.Server.Transitions.{
  send, arm_rv, arm, build_rpc_ae, ae, rv, build_rpc_rv, log_call, prelog_term_of, entry_to_send,
  contains,
}
use my_raft.Server.Commit.{primary_update_commit_index}
use my_raft.Server.Votes.{
  on_retry_timer, note_accepted, accepted_ae, refused_ae, primary_deal_resp_ae_with_same_term,
}
use my_raft.Server.Preservation.Transitions.{primary_update_commit_index-Same}
use my_raft.Server.Preservation.Responses.{on_retry_timer_lem}
use my_raft.Cluster.Carries.{IsCarried, AllCarried, build_rpc_ae-Carries}
use my_raft.Cluster.Commits.{
  primary_update-calls, AllBelow, saved_values, primary_update-below, length-insert,
  AllBelow-insert, AllWithin, AllWithin-touch, AllWithin-insert, AllWithin-find_or,
}

-- What fits a primary's log: the append calls that were made carry it; the values of `Follower_saved_index` and the commit index
-- lie in the log, and there is such a value for each configured server; those of `nextIndex_` lie in
-- the log or at its end.
pub record IsLeading (env : Env) (s : Server) : Type 0 where
  pub stored : s.entries.size ≤ length s.entries.entries
  pub carried : AllCarried env (log s.entries) s.calls
  pub saved : AllBelow s.entries.size (saved_values s.follower_saved_index)
  pub known : length s.configuration ≤ length s.follower_saved_index
  pub committed : s.commit_index <ℤ pos s.entries.size
  pub placed : AllWithin s.entries.size (saved_values s.next_index)

-- The fields that this is about stay, except for the calls.
pub record SameReign (s s' : Server) : Type 0 where
  pub entries : s'.entries ≡ s.entries
  pub saved : s'.follower_saved_index ≡ s.follower_saved_index
  pub configuration : s'.configuration ≡ s.configuration
  pub commit_index : s'.commit_index ≡ s.commit_index
  pub next_index :
      AllWithin s.entries.size (saved_values s.next_index)
      → AllWithin s.entries.size (saved_values s'.next_index)

pub sent_reign :
    (s : Server) (lsn next : Map Addr ℤ) (calls : List Call)
    → (AllWithin s.entries.size (saved_values s.next_index)
        → AllWithin s.entries.size (saved_values next))
    → SameReign s (record s { current_rpc_lsn = lsn; next_index = next; calls = calls })
sent_reign s lsn next calls keeps = record {
  next_index = keeps;
  entries = refl;
  saved = refl;
  configuration = refl;
  commit_index = refl;
}

pub IsLeading-SameReign :
    (env : Env) (s s' : Server)
    → SameReign s s'
    → AllCarried env (log s.entries) s'.calls
    → IsLeading env s
    → IsLeading env s'
IsLeading-SameReign env s s' e carried h = record {
  stored = rw e.entries h.stored;
  carried = rw e.entries carried;
  saved = rw (e.entries, e.saved) h.saved;
  known = rw (e.configuration, e.saved) h.known;
  committed = rw (e.entries, e.commit_index) h.committed;
  placed = rw e.entries (e.next_index h.placed);
}

-- The log stays, and so does the reign.
abbrev pub Keeps : Env → Server → Server → Type 0
Keeps env s s' = IsLeading env s → IsLeading env s' × (s'.entries ≡ s.entries)

pub Keeps-refl : (env : Env) (s : Server) → Keeps env s s
Keeps-refl env s h = (h, refl)

pub Keeps-trans : (env : Env) (s t u : Server) → Keeps env s t → Keeps env t u → Keeps env s u
Keeps-trans env s t u first second h =
    let (mid, e) = first h in let (last, e') = second mid in (last, e' ∙ e)

pub log_call-Keeps :
    (env : Env) (s : Server) (c : Call)
    → ((l : List Entry) → IsCarried env l c)
    → Keeps env s (log_call s c)
log_call-Keeps env s c other h = (
  IsLeading-SameReign env s (log_call s c) (sent_reign s _ _ _ (λ p. p))
      (other (log s.entries), h.carried) h,
  refl,
)

pub arm-Keeps :
    (env : Env) (timer : Timer) (ms : ℕ) (hook : Hook) (fault : Fault) (s s' : Server)
    → arm env timer ms hook fault s ≡ ok s'
    → Keeps env s s'
unfolding arm
arm-Keeps env timer ms hook fault s s' h w =
    let (_, armed) = then-eq-ok (eqb (env.waiting s.calls timer) 0) _ _ h in
    subst (λ t. IsLeading env t × (t.entries ≡ s.entries)) (ok-injective armed)
      (IsLeading-SameReign env s _ (sent_reign s _ _ _ (λ p. p)) (tt, (tt, w.carried)) w, refl)

build_rpc_ae-same :
    (server : Addr) (s : Server) (built : AppendEntryRpc × Server)
    → build_rpc_ae server s ≡ ok built
    → built.1 ≡ record s {
      current_rpc_lsn = built.1.current_rpc_lsn;
      next_index = touch (pos 0) server s.next_index;
    }
unfolding build_rpc_ae
build_rpc_ae-same server s built h =
    let (p, _, rest) = >>=-eq-ok (prelog_term_of s _) _ h in
    let (e, _, end) = >>=-eq-ok (entry_to_send s _) _ rest in ground arith

-- The call that is sent carries the log.
pub ae-Keeps :
    (env : Env) (server : Addr) (s s' : Server) → ae env server s ≡ ok s' → Keeps env s s'
unfolding ae
ae-Keeps env server s s' h w =
    let (built, e, rest) = >>=-eq-ok (build_rpc_ae server s) _ h in
    let (sent, was_sent, then_arm) = >>=-eq-ok (send env append_entry server _ built.1) _ rest in
    let logged = send-Sends env _ server _ built.1 sent was_sent in
    let (_, armed) = then-eq-ok (contains server sent.retry_timers) _ _ then_arm in
    let carries = build_rpc_ae-Carries server s built w.stored w.committed e in
    let kept = build_rpc_ae-same server s built e in
    let mid : IsLeading env sent = subst (IsLeading env) (sym logged) (
      IsLeading-SameReign env s (log_call built.1 _)
        (record {
          entries = ap (λ (t : Server). t.entries) kept;
          saved = ap (λ (t : Server). t.follower_saved_index) kept;
          configuration = ap (λ (t : Server). t.configuration) kept;
          commit_index = ap (λ (t : Server). t.commit_index) kept;
          next_index = λ placed.
              rw (ap (λ (t : Server). t.next_index) kept)
                (AllWithin-touch s.entries.size server s.next_index placed);
        })
        ((λ _. (built.0, refl, carries)), rw (ap (λ (t : Server). t.calls) kept) w.carried) w) in
    let (last, same) = arm-Keeps env _ _ _ _ sent s' armed mid in
    (last, same ∙ ap (λ (t : Server). t.entries) logged ∙ ap (λ (t : Server). t.entries) kept)

vote_ne_append : {X : Type 0} → request_vote ≡ append_entry → X
vote_ne_append e = cc

-- Whether the wait is armed or not, the calls that were added are no append calls.
rv_calls :
    (env : Env) (server : Addr) (l : List Entry) (s s' : Server)
    → rv env server s ≡ ok s'
    → AllCarried env l s.calls
    → SameReign s s' × AllCarried env l s'.calls
unfolding rv build_rpc_rv arm_rv send
rv_calls env server l s s' h₀ w =
    let (s₁, sent, h') = >>=-eq-ok (send env request_vote server _ _) _ h₀ in
    let logged = send-Sends env _ server _ _ s₁ sent in
    let h : arm_rv env server (log_call (build_rpc_rv server s).1 _) ≡ ok s' =
      subst (λ t. arm_rv env server t ≡ ok s') logged h' in
    let (_, h₁) = else-eq-ok (not (contains server s.retry_timers)) _ _ h in
    elim (if-eq-ok (eqb (env.waiting _ (retry_timer server)) 0) (ok _) (ok _) h₁) [
      | inl (_, waits) ↦
          subst (λ t. SameReign s t × AllCarried env l t.calls) (ok-injective waits)
            (sent_reign s _ _ _ (λ p. p), (tt, (tt, (vote_ne_append, w))))
      | inr (_, sent) ↦
          subst (λ t. SameReign s t × AllCarried env l t.calls) (ok-injective sent)
            (sent_reign s _ _ _ (λ p. p), (tt, (vote_ne_append, w)))
    ]

pub rv-Keeps :
    (env : Env) (server : Addr) (s s' : Server) → rv env server s ≡ ok s' → Keeps env s s'
rv-Keeps env server s s' h w =
    let (same, carried) = rv_calls env server (log s.entries) s s' h w.carried in
    (IsLeading-SameReign env s s' same carried w, same.entries)

-- A value in the log for one server.
primary_update-Keeps :
    (env : Env) (server : Addr) (index : ℤ) (s s' : Server)
    → index <ℤ pos s.entries.size
    → primary_update_commit_index server index s ≡ ok s'
    → Keeps env s s'
primary_update-Keeps env server index s s' new h w =
    let same = primary_update_commit_index-Same server index s s' h in
    let (called, next) = primary_update-calls server index s s' h in
    let (saved, committed) =
      primary_update-below server index s s' s.entries.size w.known new w.saved h in
    (
      record {
        stored = rw same.entries w.stored;
        carried = rw (same.entries, called) w.carried;
        saved =
            rw (same.entries, saved)
              (AllBelow-insert s.entries.size server index s.follower_saved_index new w.saved);
        known =
            rw (same.configuration, saved)
              (omega (arith, w.known, length-insert server index s.follower_saved_index));
        committed = rw same.entries committed;
        placed = rw (same.entries, next) w.placed;
      },
      same.entries,
    )

resend-Keeps :
    (env : Env) (server : Addr) (s t s' : Server) (c : Call)
    → ((l : List Entry) → IsCarried env l c)
    → on_retry_timer server s ≡ ok t
    → ae env server (log_call t c) ≡ ok s'
    → Keeps env s s'
resend-Keeps env server s t s' c other same sent =
    subst (λ r. Keeps env r s') (sym (on_retry_timer_lem server s t same))
      (Keeps-trans env t (log_call t c) s' (log_call-Keeps env t c other)
        (ae-Keeps env server (log_call t c) s' sent))

-- A change of the numbers and of `nextIndex_` alone.
numbers-Keeps :
    (env : Env) (s : Server) (lsn next : Map Addr ℤ)
    → (AllWithin s.entries.size (saved_values s.next_index)
        → AllWithin s.entries.size (saved_values next))
    → Keeps env s (record s { current_rpc_lsn = lsn; next_index = next })
numbers-Keeps env s lsn next keeps w =
    (IsLeading-SameReign env s _ (sent_reign s lsn next s.calls keeps) w.carried w, refl)

note_accepted-Keeps :
    (env : Env) (is_empty_ae : Bool) (next : ℤ) (server : Addr) (s s' : Server)
    → pos 0 ≤ℤ next
    → next <ℤ pos s.entries.size
    → note_accepted is_empty_ae next server s ≡ ok s'
    → Keeps env s s'
unfolding note_accepted
note_accepted-Keeps env true next server s s' low below h =
    primary_update-Keeps env server (next -ℤ pos 1) s s' (omega (arith, -ℤ_parts next (pos 1))) h
note_accepted-Keeps env false next server s s' low below h =
    Keeps-trans env s _ s'
      (numbers-Keeps env s s.current_rpc_lsn (insert server (next +ℤ pos 1) s.next_index) (
        AllWithin-insert s.entries.size server (next +ℤ pos 1) s.next_index
          (omega (arith, +ℤ_parts next (pos 1))) (omega (arith, +ℤ_parts next (pos 1)))))
      (primary_update-Keeps env server next _ s' below h)

accepted_ae-Keeps :
    (env : Env) (is_empty_ae : Bool) (next : ℤ) (server : Addr) (s s' : Server)
    → pos 0 ≤ℤ next
    → accepted_ae env is_empty_ae next server s ≡ ok s'
    → Keeps env s s'
unfolding accepted_ae
accepted_ae-Keeps env is_empty_ae next server s s' low h =
    let (reach, h₁) = else-eq-ok (ltb_ℤ (pos s.entries.size) next) _ _ h in
    elim (if-eq-ok (eqb_ℤ next (pos s.entries.size)) _ _ h₁) [
      | inl (at_end, last) ↦
          primary_update-Keeps env server (next -ℤ pos 1) s s'
            (ground (arith, reach, -ℤ_parts next (pos 1))) last
      | inr (inside, h₂) ↦
          let (s₁, e₁, h₃) = >>=-eq-ok (note_accepted is_empty_ae next server s) _ h₂ in
          let (s₂, e₂, sent) = >>=-eq-ok (on_retry_timer server s₁) _ h₃ in
          Keeps-trans env s s₁ s'
            (note_accepted-Keeps env is_empty_ae next server s s₁ low
              (ground (arith, reach, inside)) e₁)
            (resend-Keeps env server s₁ s₂ s' _ (λ _. tt) e₂ sent)
    ]

refused_ae-Keeps :
    (env : Env) (next : ℤ) (server : Addr) (s s' : Server)
    → pos 0 ≤ℤ next
    → next ≤ℤ pos s.entries.size
    → refused_ae env next server s ≡ ok s'
    → Keeps env s s'
unfolding refused_ae
refused_ae-Keeps env next server s s' low high h =
    let (not_first, h₁) = else-eq-ok (eqb_ℤ next (pos 0)) _ _ h in
    let (s₁, e, sent) = >>=-eq-ok (on_retry_timer server _) _ h₁ in
    Keeps-trans env s _ s'
      (numbers-Keeps env s s.current_rpc_lsn (insert server (next -ℤ pos 1) s.next_index) (
        AllWithin-insert s.entries.size server (next -ℤ pos 1) s.next_index
          (ground (arith, not_first, low, -ℤ_parts next (pos 1)))
          (omega (arith, -ℤ_parts next (pos 1)))))
      (resend-Keeps env server _ s₁ s' _ (λ _. tt) e sent)

pub primary_deal_resp_ae-Keeps :
    (env : Env) (server : Addr) (resp : RespAppendEntryRpc) (s s' : Server)
    → primary_deal_resp_ae_with_same_term env server resp s ≡ ok s'
    → Keeps env s s'
unfolding primary_deal_resp_ae_with_same_term
primary_deal_resp_ae-Keeps env server resp s s' h w =
    let next = find_or (pos 0) server s.next_index in
    let lsn = touch (pos 0) server s.current_rpc_lsn in
    let (low, high) = AllWithin-find_or s.entries.size server s.next_index w.placed in
    elim (if-eq-ok (not (eqb_ℤ (find_or (pos 0) server s.current_rpc_lsn) (resp.lsn +ℤ pos 1)))
      (ok _) _ h) [
        | inl (_, stale) ↦
            subst (Keeps env s) (ok-injective stale) (numbers-Keeps env s lsn s.next_index (λ p. p))
              w
        | inr (_, h₁) ↦
            Keeps-trans env s _ s'
              (numbers-Keeps env s lsn (touch (pos 0) server s.next_index)
                (AllWithin-touch s.entries.size server s.next_index))
              (elim (if-eq-ok resp.is_ok (accepted_ae env resp.is_empty_ae next server _) _ h₁) [
                | inl (_, accepted) ↦
                    accepted_ae-Keeps env resp.is_empty_ae next server _ s' low accepted
                | inr (_, refused) ↦ refused_ae-Keeps env next server _ s' low high refused
              ])
              w
      ]
