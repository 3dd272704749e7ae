-- ===== src/Server/Election/Once.antt =====
-- `react2rv`: the votes of a server over a sequence of requests.
use my_raft.Prelude.{
  ◌+◌, ◌≤◌, ◌≡◌, refl, ap, ap₂, zero-add, subst, ◌∙◌, ◌⊎◌, inl, inr, Bool, true, false, ◌&&◌, not,
  List, [], ◌∷◌, if◌then◌else◌, arith,
}
use my_raft.Prelude.Int.{ℤ, ◌<ℤ◌, eqb_ℤ, ltb_ℤ, eqb_ℤ_iff}
use my_raft.Prelude.Outcome.{ok, >>=-eq-ok, ok-injective, if-eq-ok}
use my_raft.Wire.{Addr, IsLossless, RequestVoteRpc, RespRequestVoteRpc}
use my_raft.Server.State.{Call, expires_at_min, Env, Server, retry_timer, candidate_timer}
use my_raft.Server.Transitions.{
  trans2f, cancel_retry_timers, cancel_all_timers, update_term, reset_both_rpc_lsn, arm,
}
use my_raft.Server.Handlers.{is_follower, make_resp_rv, should_ignore_remote_rpc}
use my_raft.Server.Votes.{react2rv, answer_rv, should_vote}
use my_raft.Server.Frames.{trans2f-Follows}
use my_raft.Server.Election.{votes, votes-nil, react2rvs}

cancel_retry_timers-votes :
    (env : Env) (t : ℤ) (addrs : List Addr) (calls : List Call)
    → votes env t (cancel_retry_timers addrs calls) ≡ votes env t calls
unfolding cancel_retry_timers votes
cancel_retry_timers-votes env t [] calls = refl
cancel_retry_timers-votes env t (a ∷ addrs) calls =
    cancel_retry_timers-votes env t addrs (expires_at_min (retry_timer a) ∷ calls)

-- Becoming a follower votes for nobody.
pub trans2f-votes :
    (env : Env) (t term : ℤ) (s s' : Server)
    → trans2f env term s ≡ ok s'
    → votes env t s'.calls ≡ votes env t s.calls
unfolding trans2f update_term cancel_all_timers reset_both_rpc_lsn arm votes
trans2f-votes env t term s s' h = ground (
  arith,
  cancel_retry_timers-votes env t s.retry_timers (expires_at_min candidate_timer ∷ s.calls),
)

pub make_resp_rv-votes :
    (env : Env) (t : ℤ) (vote : Bool) (server : Addr) (lsn : ℤ) (s : Server)
    → IsLossless env.codecs.resp_rv
    → votes env t (make_resp_rv env vote server lsn s).calls
      ≡ (if vote && eqb_ℤ s.term t then 1 else 0) + votes env t s.calls
unfolding votes make_resp_rv
make_resp_rv-votes env t vote server lsn s lossless =
    ap
      (λ (m : RespRequestVoteRpc).
        (if m.is_ok && eqb_ℤ m.term t then 1 else 0) + votes env t s.calls)
      (lossless (record { is_ok = vote; term = s.term; lsn = lsn; ip = s.ip; port = s.port }))

-- What an answer does: it votes for nobody, or gives the server's one vote.
data Answers (env : Env) (s s' : Server) : Type 0 where
  abstains :
      s'.term ≡ s.term
      → s'.already_voted ≡ s.already_voted
      → ((t : ℤ) → votes env t s'.calls ≡ votes env t s.calls)
      → Answers env s s'
  gives :
      s'.term ≡ s.term
      → s.already_voted ≡ false
      → s'.already_voted ≡ true
      → ((t : ℤ) → votes env t s'.calls ≡ (if eqb_ℤ s.term t then 1 else 0) + votes env t s.calls)
      → Answers env s s'

refuses :
    (env : Env) (server : Addr) (lsn : ℤ) (s r : Server)
    → IsLossless env.codecs.resp_rv
    → r.term ≡ s.term
    → r.already_voted ≡ s.already_voted
    → r.calls ≡ s.calls
    → Answers env s (make_resp_rv env false server lsn r)
unfolding make_resp_rv
refuses env server lsn s r lossless same_term same_vote same_calls =
    abstains same_term same_vote (λ t.
      make_resp_rv-votes env t false server lsn r lossless
      ∙ zero-add _
      ∙ ap (votes env t) same_calls)

consents :
    (env : Env) (server : Addr) (lsn : ℤ) (s r : Server)
    → IsLossless env.codecs.resp_rv
    → s.already_voted ≡ false
    → r.term ≡ s.term
    → r.calls ≡ s.calls
    → Answers env s (record (make_resp_rv env true server lsn r) { already_voted = true })
unfolding make_resp_rv
consents env server lsn s r lossless free same_term same_calls = gives same_term free refl (λ t.
    make_resp_rv-votes env t true server lsn r lossless
    ∙ ap₂ (λ n c. (if eqb_ℤ n t then 1 else 0) + votes env t c) same_term same_calls)

pub checked-same :
    (server : Addr) (lsn : ℤ) (s : Server)
    → let r = (should_ignore_remote_rpc server lsn s).1 in
      (r.term ≡ s.term) × (r.already_voted ≡ s.already_voted) × (r.calls ≡ s.calls)
unfolding should_ignore_remote_rpc
checked-same server lsn s = ground arith

answer_rv-Answers :
    (env : Env) (rpc : RequestVoteRpc) (server : Addr) (s s' : Server)
    → IsLossless env.codecs.resp_rv
    → answer_rv env rpc server s ≡ ok s'
    → Answers env s s'
unfolding answer_rv
answer_rv-Answers env rpc server s s' lossless h =
    let checked = should_ignore_remote_rpc server rpc.lsn s in
    let r = checked.1 in
    let (same_term, same_vote, same_calls) = checked-same server rpc.lsn s in
    elim (if-eq-ok checked.0 (ok r) _ h) [
      | inl (_, ignored) ↦
          subst (Answers env s) (ok-injective ignored)
            (abstains same_term same_vote (λ t. ap (votes env t) same_calls))
      | inr (_, h₁) ↦ elim (if-eq-ok (not (is_follower s.state)) (ok _) _ h₁) [
        | inl (_, busy) ↦
            subst (Answers env s) (ok-injective busy)
              (refuses env server rpc.lsn s r lossless same_term same_vote same_calls)
        | inr (_, h₂) ↦ elim (if-eq-ok s.already_voted (ok _) _ h₂) [
          | inl (_, voted) ↦
              subst (Answers env s) (ok-injective voted)
                (refuses env server rpc.lsn s r lossless same_term same_vote same_calls)
          | inr (free, h₃) ↦
              let (vote, _, h₄) = >>=-eq-ok (should_vote rpc r) _ h₃ in
              elim (if-eq-ok vote (ok _) _ h₄) [
                | inl (_, given) ↦
                    subst (Answers env s) (ok-injective given)
                      (consents env server rpc.lsn s r lossless free same_term same_calls)
                | inr (_, denied) ↦
                    subst (Answers env s) (ok-injective denied)
                      (refuses env server rpc.lsn s r lossless same_term same_vote same_calls)
              ]
        ]
      ]
    ]

record VotesOnce (env : Env) (s : Server) : Type 0 where
  past : (t : ℤ) → votes env t s.calls ≤ 1
  future : (t : ℤ) → s.term <ℤ t → votes env t s.calls ≡ 0
  now : (votes env s.term s.calls ≡ 0) ⊎ (s.already_voted ≡ true)

VotesOnce-Answers :
    (env : Env) (s s' : Server) → VotesOnce env s → Answers env s s' → VotesOnce env s'
VotesOnce-Answers env s s' v (abstains same_term same_vote same) = record {
  past = λ t. rw (same t) (v.past t);
  future = λ t later. same t ∙ v.future t (rw same_term at later);
  now = rw (same_vote, same_term, same s.term) v.now;
}
VotesOnce-Answers env s s' v (gives same_term free voted one) = record {
  past = λ t. ground (arith, one t, v.past t, v.now, eqb_ℤ_iff s.term t);
  future = λ t later. ground (arith, one t, v.future t, same_term);
  now = inr voted;
}

-- Following a later term.
trans2f-VotesOnce :
    (env : Env) (term : ℤ) (s s' : Server)
    → s.term <ℤ term
    → trans2f env term s ≡ ok s'
    → VotesOnce env s
    → VotesOnce env s'
trans2f-VotesOnce env term s s' later h v =
    let of_term : s'.term ≡ term =
      ap (λ (r : Server). r.term) (trans2f-Follows env term s s' h).same in
    record {
      past = λ t. rw (trans2f-votes env t term s s' h) (v.past t);
      future = λ t after. trans2f-votes env t term s s' h ∙ v.future t (ground (arith, of_term));
      now =
          inl (trans2f-votes env s'.term term s s' h ∙ v.future s'.term (ground (arith, of_term)));
    }

react2rv-VotesOnce :
    (env : Env) (rpc : RequestVoteRpc) (s s' : Server)
    → IsLossless env.codecs.resp_rv
    → react2rv env rpc s ≡ ok s'
    → VotesOnce env s
    → VotesOnce env s'
unfolding react2rv
react2rv-VotesOnce env rpc s s' lossless h v = elim (if-eq-ok (ltb_ℤ rpc.term s.term) (ok _) _ h) [
  | inl (_, refused) ↦
      subst (VotesOnce env) (ok-injective refused)
        (VotesOnce-Answers env s _ v (refuses env _ rpc.lsn s s lossless refl refl refl))
  | inr (_, h₁) ↦
      let (s₁, e, rest) =
        >>=-eq-ok (if ltb_ℤ s.term rpc.term then trans2f env rpc.term s else ok s) _ h₁ in
      VotesOnce-Answers env s₁ s'
        (elim (if-eq-ok (ltb_ℤ s.term rpc.term) (trans2f env rpc.term s) (ok s) e) [
          | inl (later, f) ↦ trans2f-VotesOnce env rpc.term s s₁ (ground arith) f v
          | inr (_, same) ↦ subst (VotesOnce env) (ok-injective same) v
        ])
        (answer_rv-Answers env rpc _ s₁ s' lossless rest)
]

react2rvs-VotesOnce :
    (env : Env) (rpcs : List RequestVoteRpc) (s s' : Server)
    → IsLossless env.codecs.resp_rv
    → react2rvs env rpcs s ≡ ok s'
    → VotesOnce env s
    → VotesOnce env s'
unfolding react2rvs
react2rvs-VotesOnce env [] s s' lossless h v = subst (VotesOnce env) (ok-injective h) v
react2rvs-VotesOnce env (rpc ∷ rpcs) s s' lossless h v =
    let (t, first, rest) = >>=-eq-ok (react2rv env rpc s) _ h in
    react2rvs-VotesOnce env rpcs t s' lossless rest
      (react2rv-VotesOnce env rpc s t lossless first v)

-- A server that has made no call yet, and then handles requests for votes alone, of whatever terms
-- and senders, votes at most once in any term.
pub react2rvs-vote_once :
    (env : Env) (rpcs : List RequestVoteRpc) (s s' : Server) (term : ℤ)
    → IsLossless env.codecs.resp_rv
    → s.calls ≡ []
    → react2rvs env rpcs s ≡ ok s'
    → votes env term s'.calls ≤ 1
react2rvs-vote_once env rpcs s s' term lossless fresh h =
    (react2rvs-VotesOnce env rpcs s s' lossless h (record {
      past = λ t. rw (none t) (omega arith);
      future = λ t _. none t;
      now = inl (none s.term);
    })).past
      term
  where
    none : (t : ℤ) → votes env t s.calls ≡ 0
    none t = ap (votes env t) fresh ∙ votes-nil env t
