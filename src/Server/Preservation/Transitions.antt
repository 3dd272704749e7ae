-- ===== src/Server/Preservation/Transitions.antt =====
-- The invariant under the transitions and the changes of the commit index.
use my_raft.Prelude.{◌-◌, ◌≤◌, ◌≡◌, refl, subst, inl, inr, length, arith, if◌then◌else◌}
use my_raft.Prelude.Int.{ℤ, pos, ◌-ℤ◌, int_laws, ltb_ℤ}
use my_raft.Prelude.Outcome.{ok, >>=-eq-ok, ok-injective}
use my_raft.Wire.{Addr, addr_eq}
use my_raft.Entry.{at}
use my_raft.StateMachine.Controler
use my_raft.Server.State.{Call, Env, Server}
use my_raft.Server.Transitions.{trans2f, trans2p, trans2c, log_call}
use my_raft.Server.Commit.{
  apply_to_state_machine, primary_update_commit_index, follower_update_commit_index, temp_sort,
  log_temp_sort,
}
use my_raft.Server.Frames.{log_call-Sends, trans2f-Follows, trans2p-Leads, trans2c-Stands}
use my_raft.Server.Invariant.{Evolves, Evolves-refl, Same, Sends-Evolves}

pub log_call-Evolves : (s : Server) (c : Call) → Evolves s (log_call s c)
log_call-Evolves s c = Sends-Evolves (log_call-Sends s c)

pub same-Evolves : {s s' : Server} → ok s ≡ ok s' → Evolves s s'
same-Evolves {s} h = subst (Evolves s) (ok-injective h) (Evolves-refl s)

pub trans2f-Evolves :
    (env : Env) (term : ℤ) (s s' : Server) → trans2f env term s ≡ ok s' → Evolves s s'
trans2f-Evolves env term s s' h =
    let f = trans2f-Follows env term s s' h in
    rw f.same (record {
      term_le = f.term_le;
      ip = refl;
      port = refl;
      configuration = refl;
      majority = refl;
      retry_timers = refl;
      keeps = λ w. record {
        stored = w.stored;
        numbered = w.numbered;
        quorum = w.quorum;
        elected = inl refl;
      };
    })

pub trans2c-Evolves : (env : Env) (s s' : Server) → trans2c env s ≡ ok s' → Evolves s s'
trans2c-Evolves env s s' h =
    let f = trans2c-Stands env s s' h in
    rw f.same (record {
      term_le = omega int_laws;
      ip = refl;
      port = refl;
      configuration = refl;
      majority = refl;
      retry_timers = refl;
      keeps = λ w. record {
        stored = w.stored;
        numbered = w.numbered;
        quorum = w.quorum;
        elected = inl refl;
      };
    })

-- A server that counts a majority of votes may become primary.
pub trans2p-Evolves :
    (env : Env) (s s' : Server) → s.majority ≤ s.winned_votes → trans2p env s ≡ ok s' → Evolves s s'
trans2p-Evolves env s s' votes h =
    let f = trans2p-Leads env s s' h in
    rw f.same (record {
      term_le = omega arith;
      ip = refl;
      port = refl;
      configuration = refl;
      majority = refl;
      retry_timers = refl;
      keeps = λ w. record {
        stored = w.stored;
        numbered = w.numbered;
        quorum = w.quorum;
        elected = inr votes;
      };
    })

pub apply_to_state_machine-Same :
    (index : ℤ) (s s' : Server) → apply_to_state_machine index s ≡ ok s' → Same s s'
unfolding apply_to_state_machine
apply_to_state_machine-Same index s s' h =
    let (smc, _, e) =
      >>=-eq-ok (Controler.update_commit_index_and_apply s.entries s.smc index) _ h in
    ground arith

pub follower_update_commit_index-Same :
    (index : ℤ) (s s' : Server) → follower_update_commit_index index s ≡ ok s' → Same s s'
unfolding follower_update_commit_index
follower_update_commit_index-Same index s s' h =
    let latest = pos s.entries.size -ℤ pos 1 in
    let next = if ltb_ℤ latest index then latest else index in
    ground (arith, apply_to_state_machine-Same next (record s { commit_index = next }) s')

pub primary_update_commit_index-Same :
    (server : Addr) (index : ℤ) (s s' : Server)
    → primary_update_commit_index server index s ≡ ok s'
    → Same s s'
unfolding primary_update_commit_index
primary_update_commit_index-Same server index s s' h =
    let (sorted, _, h₁) = >>=-eq-ok (temp_sort (length s.configuration) _) _ h in
    let (shown, _, h₂) = >>=-eq-ok (log_temp_sort sorted) _ h₁ in
    let (commit_index, _, h₃) = >>=-eq-ok (at shown (s.majority - 1)) _ h₂ in
    ground (arith, apply_to_state_machine-Same commit_index _ s' h₃)
