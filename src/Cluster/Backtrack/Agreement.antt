-- ===== src/Cluster/Backtrack/Agreement.antt =====
-- The rounds that a primary and another server need until a call fits.
use my_raft.Prelude.{
  ℕ, zero, suc, ◌+◌, ◌≡◌, refl, sym, ap, ◌∙◌, subst, ◌⊎◌, inl, inr, Bool-cases, true, false, Bytes,
  List, arith, leb,
}
use my_raft.Prelude.Int.{pos, ◌+ℤ◌, ◌<ℤ◌, pred_of_zero, pred_of_pos_suc, minus_one, +ℤ_parts, eqb_ℤ}
use my_raft.Prelude.Assoc.{find_or}
use my_raft.Prelude.Outcome.{ok}
use my_raft.Wire.{Addr, addr_eq, AppendEntryRpc, RespAppendEntryRpc}
use my_raft.Server.State.{Call, Env, Server}
use my_raft.Server.Transitions.{contains}
use my_raft.Server.Handlers.{is_primary, check_prelog}
use my_raft.Server.Votes.{react2resp_ae}
use my_raft.Server.Events.{step, react_to_incoming_msg}
use my_raft.Server.Timers.{CountsHandlers}
use my_raft.Cluster.{Cluster}
use my_raft.Prelude.{take}
use my_raft.Prelude.Int.{pos-injective}
use my_raft.Server.Replication.{PrelogMatches, check_prelog-matches}
use my_raft.Cluster.Logs.{Matching, PrelogMatches-take_same}
use my_raft.Entry.{log}
use my_raft.Cluster.Backtrack.{
  last_answer, own_addr, Round, round, Rounds, no_round, then_rounds, Waits,
}
use my_raft.Cluster.Backtrack.Refusal.{refusal, Refuses, react2ae-Refuses}
use my_raft.Cluster.Backtrack.Retry.{get_stored, Retries, react2resp_ae-Retries}

-- The check always ends with an answer.
check_prelog-first :
    (p f : Server) (rpc : AppendEntryRpc) → Waits p f rpc 0 → check_prelog rpc f ≡ ok true
unfolding check_prelog
check_prelog-first p f rpc w =
    let start : rpc.prelog_index ≡ minus_one = pred_of_zero rpc.prelog_index w.place in
    ground (arith, start, w.matches)

check_prelog-decides :
    (p f : Server) (rpc : AppendEntryRpc) (k : ℕ)
    → Waits p f rpc (suc k)
    → (check_prelog rpc f ≡ ok true) ⊎ (check_prelog rpc f ≡ ok false)
unfolding check_prelog
check_prelog-decides p f rpc k w =
    let index : rpc.prelog_index ≡ pos k = pred_of_pos_suc rpc.prelog_index k w.place in
    elim (Bool-cases (leb f.entries.size k)) [
      | inl beyond ↦ inr (ground (arith, index, beyond))
      | inr inside ↦
          let (e, found) = get_stored f.entries k (ground (arith, inside)) w.other_stored in
          elim (Bool-cases (eqb_ℤ rpc.prelog_term e.term)) [
            | inl same ↦ inl (ground (arith, index, inside, found, same))
            | inr other ↦ inr (ground (arith, index, inside, found, other))
          ]
    ]

sender_of :
    (p f : Server) (rpc : AppendEntryRpc) (k : ℕ)
    → Waits p f rpc k
    → ◌≡◌ {A = Addr} (record { ip = rpc.ip; port = rpc.port }) (own_addr p)
sender_of p f rpc k w = rw (w.of_ip, w.of_port) refl

refused-Refuses :
    (env : Env) (p f : Server) (rpc : AppendEntryRpc) (k : ℕ)
    → CountsHandlers env
    → Waits p f rpc k
    → check_prelog rpc f ≡ ok false
    → (f' : Server) × Refuses env rpc f f'
refused-Refuses env p f rpc k counts w refused =
    react2ae-Refuses env rpc f counts w.few (w.same_term ∙ sym w.of_term) w.follows
      (subst (λ a. find_or (pos 0) a f.follower_rpc_lsn <ℤ rpc.lsn) (sym (sender_of p f rpc k w))
        w.fresh)
      refused

-- The refused call, and the next one.
Waits-again :
    (leader_env other_env : Env) (p f p' f' : Server) (rpc rpc' : AppendEntryRpc) (k : ℕ)
    → Waits p f rpc (suc k)
    → Refuses other_env rpc f f'
    → Retries leader_env (own_addr f) p p' rpc' k
    → Waits p' f' rpc' k
Waits-again leader_env other_env p f p' f' rpc rpc' k w d r =
    let of_f : own_addr f' ≡ own_addr f = rw (d.ip, d.port) refl in
    let of_p : own_addr p' ≡ own_addr p = ap own_addr r.same in
    let later : rpc'.lsn ≡ rpc.lsn +ℤ pos 1 = r.lsn ∙ w.numbered in
    let heeded : find_or (pos 0) (own_addr p) f'.follower_rpc_lsn ≡ rpc.lsn =
      ap (λ a. find_or (pos 0) a f'.follower_rpc_lsn) (sym (sender_of p f rpc (suc k) w))
      ∙ d.heeded in
    let entries : p'.entries ≡ p.entries = ap (λ (s : Server). s.entries) r.same in
    record {
      reigns = ap (λ (s : Server). is_primary s.state) r.same ∙ w.reigns;
      of_term = r.of_term ∙ sym (ap (λ (s : Server). s.term) r.same);
      of_ip = r.of_ip ∙ sym (ap (λ (s : Server). s.ip) r.same);
      of_port = r.of_port ∙ sym (ap (λ (s : Server). s.port) r.same);
      place = r.place;
      matches = rw entries r.matches;
      few = r.few;
      numbered = ap (λ a. find_or (pos 0) a p'.current_rpc_lsn) of_f ∙ r.numbered;
      next = ap (λ a. find_or (pos 0) a p'.next_index) of_f ∙ r.next;
      within = rw entries (omega (arith, w.within));
      stored = rw entries w.stored;
      timed =
          ap (λ a. contains a p'.retry_timers) of_f
          ∙ ap (λ (s : Server). contains (own_addr f) s.retry_timers) r.same
          ∙ w.timed;
      follows = d.state;
      same_term = d.term ∙ w.same_term ∙ sym (ap (λ (s : Server). s.term) r.same);
      fresh =
          subst (λ i. i <ℤ rpc'.lsn)
            (sym (ap (λ a. find_or (pos 0) a f'.follower_rpc_lsn) of_p ∙ heeded))
            (subst (λ i. rpc.lsn <ℤ i) (sym later) (omega (arith, +ℤ_parts rpc.lsn (pos 1))));
      other_stored = rw d.entries w.other_stored;
    }

-- What rounds have led to, each of which has stepped back by one position: a call that fits.
abbrev pub Reaches : Env → Env → ℕ → Cluster → Bytes → Type 0
Reaches leader_env other_env k c call =
    (n : ℕ) × (m : ℕ) × (c' : Cluster) × (call' : Bytes) × (n + m ≡ k)
    × Rounds leader_env other_env n c call c' call'
    × Waits c'.leader c'.other (other_env.codecs.ae.parse call') m
    × (c'.leader.entries ≡ c.leader.entries)
    × (c'.other.entries ≡ c.other.entries)
    × (check_prelog (other_env.codecs.ae.parse call') c'.other ≡ ok true)
    × (take m (log c.other.entries) ≡ take m (log c.leader.entries))

-- A call that passes the check, in logs that match.
passed_common :
    (p f : Server) (rpc : AppendEntryRpc) (k : ℕ)
    → Matching (log p.entries) (log f.entries)
    → Waits p f rpc k
    → check_prelog rpc f ≡ ok true
    → take k (log f.entries) ≡ take k (log p.entries)
passed_common p f rpc k match w passes =
    let (j, place, held) = check_prelog-matches rpc f passes in
    let at_k : j ≡ k = pos-injective (sym place ∙ w.place) in
    PrelogMatches-take_same k rpc.prelog_term (log p.entries) (log f.entries) match w.matches
      (subst (λ i. PrelogMatches i rpc.prelog_term (log f.entries)) at_k held)

-- A round, where the check fails.
refused-Round :
    (leader_env other_env : Env)
    → CountsHandlers leader_env
    → CountsHandlers other_env
    → ((rpc : AppendEntryRpc)
        → other_env.codecs.ae.parse (leader_env.codecs.ae.serialize rpc) ≡ rpc)
    → ((resp : RespAppendEntryRpc)
        → leader_env.codecs.resp_ae.parse (other_env.codecs.resp_ae.serialize resp) ≡ resp)
    → (c : Cluster) (call : Bytes) (k : ℕ)
    → ((calls : List Call) → leader_env.throws calls (own_addr c.other) ≡ false)
    → Waits c.leader c.other (other_env.codecs.ae.parse call) (suc k)
    → check_prelog (other_env.codecs.ae.parse call) c.other ≡ ok false
    → (c' : Cluster) × (call' : Bytes) × Round leader_env other_env c call c' call'
      × (c'.leader.entries ≡ c.leader.entries)
      × (c'.other.entries ≡ c.other.entries)
      × (own_addr c'.other ≡ own_addr c.other)
      × Waits c'.leader c'.other (other_env.codecs.ae.parse call') k
unfolding step react_to_incoming_msg
refused-Round leader_env other_env counts counts' lossless lossless' c call k valid w refused =
    let rpc = other_env.codecs.ae.parse call in
    let p = c.leader in
    let f = c.other in
    let (f', d) = refused-Refuses other_env p f rpc (suc k) counts' w refused in
    let (p', rpc', handled, r) =
      react2resp_ae-Retries leader_env (refusal rpc f) p k counts valid refl w.same_term w.reigns
        w.numbered w.next w.within w.stored w.timed in
    let answer = other_env.codecs.resp_ae.serialize (refusal rpc f) in
    let call' = leader_env.codecs.ae.serialize rpc' in
    (
      record { leader = p'; other = f' },
      call',
      round (own_addr p) (own_addr f) answer d.handled
          (ap (λ a. last_answer a f'.calls) (sym (sender_of p f rpc (suc k) w)) ∙ d.answered)
          (ap (λ resp. react2resp_ae leader_env resp p) (lossless' (refusal rpc f)) ∙ handled)
          r.made,
      ap (λ (s : Server). s.entries) r.same,
      d.entries,
      rw (d.ip, d.port) refl,
      subst (λ sent. Waits p' f' sent k) (sym (lossless rpc'))
          (Waits-again leader_env other_env p f p' f' rpc rpc' k w d r),
    )

-- Where boost's timers count the handlers that wait, the codecs undo each other, the primary's
-- `make_rpc_call` to the follower does not throw, the logs of a primary and of a follower of its
-- term match, and the primary waits for the answer to a call for the position `k` that is new to
-- the follower: after `n` rounds, at most `k`, in which each message is delivered once and no
-- handler ends in a fault (the follower's `make_rpc_call` for the answer apart), the primary waits
-- for the answer to a call for the position `k - n` that passes the check of the follower's log.
-- Neither log has changed, and both are the same up to that position.
pub finds_agreement :
    (leader_env other_env : Env)
    → CountsHandlers leader_env
    → CountsHandlers other_env
    → ((rpc : AppendEntryRpc)
        → other_env.codecs.ae.parse (leader_env.codecs.ae.serialize rpc) ≡ rpc)
    → ((resp : RespAppendEntryRpc)
        → leader_env.codecs.resp_ae.parse (other_env.codecs.resp_ae.serialize resp) ≡ resp)
    → (k : ℕ) (c : Cluster) (call : Bytes)
    → ((calls : List Call) → leader_env.throws calls (own_addr c.other) ≡ false)
    → Matching (log c.leader.entries) (log c.other.entries)
    → Waits c.leader c.other (other_env.codecs.ae.parse call) k
    → Reaches leader_env other_env k c call
finds_agreement leader_env other_env counts counts' lossless lossless' zero c call valid match w =
    let rpc = other_env.codecs.ae.parse call in
    let passes = check_prelog-first c.leader c.other rpc w in
    (
      0,
      0,
      c,
      call,
      refl,
      no_round,
      w,
      refl,
      refl,
      passes,
      passed_common c.leader c.other rpc 0 match w passes,
    )
finds_agreement leader_env other_env counts counts' lossless lossless' (suc k) c call valid match
      w =
    let rpc = other_env.codecs.ae.parse call in
    elim (check_prelog-decides c.leader c.other rpc k w) [
      | inl passes ↦ (
        0,
        suc k,
        c,
        call,
        omega arith,
        no_round,
        w,
        refl,
        refl,
        passes,
        passed_common c.leader c.other rpc (suc k) match w passes,
      )
      | inr refused ↦
          let (d, msg, one, leader_kept, other_kept, addr_kept, w') =
            refused-Round leader_env other_env counts counts' lossless lossless' c call k valid w
              refused in
          let still_valid : (calls : List Call)
              → leader_env.throws calls (own_addr d.other) ≡ false =
            subst (λ a. (calls : List Call) → leader_env.throws calls a ≡ false) (sym addr_kept)
              valid in
          let still : Matching (log d.leader.entries) (log d.other.entries) =
            subst (λ es. Matching (log es) (log d.other.entries)) (sym leader_kept)
              (subst (λ es. Matching (log c.leader.entries) (log es)) (sym other_kept) match) in
          let (n, m, c', call', most, rest, waits, leader_kept', other_kept', passes, same) =
            finds_agreement leader_env other_env counts counts' lossless lossless' k d msg
              still_valid still w' in
          (
            suc n,
            m,
            c',
            call',
            omega (arith, most),
            then_rounds one rest,
            waits,
            leader_kept' ∙ leader_kept,
            other_kept' ∙ other_kept,
            passes,
            ap (λ es. take m (log es)) (sym other_kept)
                ∙ same
                ∙ ap (λ es. take m (log es)) leader_kept,
          )
    ]
