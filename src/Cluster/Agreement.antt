-- ===== src/Cluster/Agreement.antt =====
-- What RaftServer.cpp keeps true of a primary and another server, over its reign.
use my_raft.Prelude.{
  ℕ, suc, ◌≤◌, ◌<◌, ◌≡◌, ◌≢◌, sym, ap, subst, ◌∙◌, inl, inr, List, [], ◌∷◌, ◌++◌, length,
  length-take, take, take-all, take-take, take-append_left, take-suc, get_elem?, get_elem?-lt,
  get_elem?-take, some, arith,
}
use my_raft.Prelude.Int.{ℤ, pos, ◌+ℤ◌, ◌<ℤ◌, ◌≤ℤ◌, pos-injective, next-parts, next_of_le, pos_part}
use my_raft.Prelude.Outcome.{ok}
use my_raft.Wire.{append_entry, Entry, AppendEntryRpc}
use my_raft.Entry.{Entries, log}
use my_raft.Server.State.{primary, Env, Server}
use my_raft.Server.Events.{incoming, step, react_to_incoming_msg}
use my_raft.Server.Handlers.{react2ae}
use my_raft.Server.Invariant.{IsWellFormed}
use my_raft.Server.Preservation.{step-Evolves}
use my_raft.Server.Replication.{PrelogMatches}
use my_raft.Cluster.{Cluster, Move, leads, delivers, follows, Reach, here, next}
use my_raft.Cluster.Carries.{Carries, AllCarried-Made}
use my_raft.Cluster.Leader.{IsLeading}
use my_raft.Cluster.Reign.{Grows}
use my_raft.Cluster.Reign.Events.{step-Reigns}
use my_raft.Cluster.Follower.{stored_part, quiet_step-part}
use my_raft.Cluster.Takes.{Takes, untouched, learned, taken, react2ae-Takes}
use my_raft.Cluster.Logs.{
  Matching, NoneOf, Matching-grown, NoneOf-grown, Matching-take, NoneOf-take,
  PrelogMatches-take_same,
}

-- All up to the commit index of the second is in both logs, and the same.
abbrev pub CommonUpTo : ℤ → List Entry → List Entry → Type 0
CommonUpTo index l m = (n : ℕ) × (index +ℤ pos 1 ≡ pos n) × (n ≤ length m) × (take n m ≡ take n l)

-- A primary's reign, with what the two logs and the other server's commit index keep to.
pub record Agree (env : Env) (c : Cluster) : Type 0 where
  pub reigns : c.leader.state ≡ primary
  pub leading : IsLeading env c.leader
  pub other_formed : IsWellFormed c.other
  pub other_state : c.other.state ≢ primary
  pub matching : Matching (log c.leader.entries) (log c.other.entries)
  pub none_of : NoneOf c.leader.term (log c.leader.entries) (log c.other.entries)
  pub committed : CommonUpTo c.other.commit_index (log c.leader.entries) (log c.other.entries)

length-log : (es : Entries) → es.size ≤ length es.entries → length (log es) ≡ es.size
length-log es h = omega (arith, length-take es.size es.entries)

-- The part that stays where the other server does nothing to its log and its commit index.
follows-Agree :
    (env : Env) (c : Cluster) (s : Server)
    → IsWellFormed s
    → s.state ≢ primary
    → stored_part s ≡ stored_part c.other
    → Agree env c
    → Agree env (record c { other = s })
follows-Agree env c s formed other same h =
    let es : s.entries ≡ c.other.entries = ap (λ (q : Entries × ℤ). q.0) same in
    let index : s.commit_index ≡ c.other.commit_index = ap (λ (q : Entries × ℤ). q.1) same in
    record {
      reigns = h.reigns;
      leading = h.leading;
      other_formed = formed;
      other_state = other;
      matching = subst (λ m. Matching (log c.leader.entries) (log m)) (sym es) h.matching;
      none_of = subst (λ m. NoneOf c.leader.term (log c.leader.entries) (log m)) (sym es) h.none_of;
      committed = rw (es, index) h.committed;
    }

-- The other server's log is now the first `n` entries of the primary's.
copied-Agree :
    (env : Env) (c : Cluster) (s : Server) (n : ℕ)
    → IsWellFormed s
    → s.state ≢ primary
    → log s.entries ≡ take n (log c.leader.entries)
    → CommonUpTo s.commit_index (log c.leader.entries) (log s.entries)
    → Agree env c
    → Agree env (record c { other = s })
copied-Agree env c s n formed other same common h = record {
  reigns = h.reigns;
  leading = h.leading;
  other_formed = formed;
  other_state = other;
  matching =
      subst (Matching (log c.leader.entries)) (sym same) (Matching-take (log c.leader.entries) n);
  none_of =
      subst (NoneOf c.leader.term (log c.leader.entries)) (sym same)
        (NoneOf-take c.leader.term (log c.leader.entries) n);
  committed = common;
}

-- A commit index in a common part of the logs.
CommonUpTo-in :
    (old new : ℤ) (l m m' : List Entry) (k : ℕ)
    → CommonUpTo old l m
    → old ≤ℤ new
    → new <ℤ pos k
    → k ≤ length m'
    → take k m' ≡ take k l
    → CommonUpTo new l m'
CommonUpTo-in old new l m m' k (n, place, _, _) up inside within same =
    let top = pos_part (new +ℤ pos 1) in
    let at_top : new +ℤ pos 1 ≡ pos top = next_of_le old new n place up in
    let below : top ≤ k = omega (arith, next-parts new top at_top) in
    (
      top,
      at_top,
      omega arith,
      sym (take-take top k m' below) ∙ ap (take top) same ∙ take-take top k l below,
    )

-- The primary's log gets no shorter.
grown-Agree :
    (env : Env) (c : Cluster) (p : Server)
    → p.state ≡ primary
    → p.term ≡ c.leader.term
    → IsLeading env p
    → Grows c.leader p
    → Agree env c
    → Agree env (record c { leader = p })
grown-Agree env c p reigns same leading (inl stays) h = record {
  reigns = reigns;
  leading = leading;
  other_formed = h.other_formed;
  other_state = h.other_state;
  matching = rw stays h.matching;
  none_of = rw (stays, same) h.none_of;
  committed = rw stays h.committed;
}
grown-Agree env c p reigns same leading (inr (e, of_term, grown)) h =
    let l = log c.leader.entries in
    let m = log c.other.entries in
    let (n, place, within, agreed) = h.committed in
    let long : n ≤ length l = omega (arith, length-take n l, length-take n m, ap length agreed) in
    record {
      reigns = reigns;
      leading = leading;
      other_formed = h.other_formed;
      other_state = h.other_state;
      matching = rw grown (Matching-grown c.leader.term l m e of_term h.none_of h.matching);
      none_of = rw (grown, same) (NoneOf-grown c.leader.term l m e h.none_of);
      committed = rw grown (n, place, within, agreed ∙ sym (take-append_left n l (e ∷ []) long));
    }

-- A call that was carried from the one log and passes the check on the other: both hold all before
-- its position, and the same.
passed-same :
    (rpc : AppendEntryRpc) (l m : List Entry) (k : ℕ)
    → Carries rpc l
    → Matching l m
    → rpc.prelog_index +ℤ pos 1 ≡ pos k
    → PrelogMatches k rpc.prelog_term m
    → (take k m ≡ take k l) × (k ≤ length l) × (k ≤ length m)
passed-same rpc l m k carried match place matches =
    let at_k : carried.k ≡ k = pos-injective (sym carried.place ∙ place) in
    let same : take k m ≡ take k l =
      PrelogMatches-take_same k rpc.prelog_term l m match
        (subst (λ i. PrelogMatches i rpc.prelog_term l) at_k carried.matches) matches in
    let within : k ≤ length l = subst (λ i. i ≤ length l) at_k carried.within in
    (same, within, omega (arith, length-take k l, length-take k m, ap length same))

-- A call without an entry names a commit index before its position.
empty_commit :
    (rpc : AppendEntryRpc) (l : List Entry) (k : ℕ) (index : ℤ)
    → Carries rpc l
    → rpc.entry ≡ []
    → rpc.prelog_index +ℤ pos 1 ≡ pos k
    → index ≤ℤ rpc.commit_index
    → index <ℤ pos k
empty_commit rpc l k index carried empty place known =
    let at_k : carried.k ≡ k = pos-injective (sym carried.place ∙ place) in
    elim carried.entry [
      | inl (_, below) ↦ omega (arith, known, below, at_k)
      | inr (e, one, _) ↦ absurd (ground (arith, empty, one))
    ]

-- A call with an entry carries the one at its position.
carried_at :
    (rpc : AppendEntryRpc) (l : List Entry) (k : ℕ) (e : Entry) (more : List Entry)
    → Carries rpc l
    → rpc.entry ≡ e ∷ more
    → rpc.prelog_index +ℤ pos 1 ≡ pos k
    → get_elem? l k ≡ some e
carried_at rpc l k e more carried carries place =
    let at_k : carried.k ≡ k = pos-injective (sym carried.place ∙ place) in
    elim carried.entry [
      | inl (empty, _) ↦ absurd (ground (arith, empty, carries))
      | inr (d, one, found) ↦
          let same : d ≡ e = ground (arith, one, carries) in
          subst (λ i. get_elem? l i ≡ some e) at_k (found ∙ ap some same)
    ]

-- The call that is delivered was carried from the primary's log.
taken-Agree :
    (env : Env) (c : Cluster) (rpc : AppendEntryRpc) (s : Server)
    → Carries rpc (log c.leader.entries)
    → Takes rpc c.other s
    → IsWellFormed s
    → s.state ≢ primary
    → Agree env c
    → Agree env (record c { other = s })
taken-Agree env c rpc s carried (untouched same) formed other h =
    follows-Agree env c s formed other same h
taken-Agree env c rpc s carried (learned k empty place matches kept (up, known, _)) formed other h =
    let l = log c.leader.entries in
    let m = log c.other.entries in
    let (same, _, within) = passed-same rpc l m k carried h.matching place matches in
    record {
      reigns = h.reigns;
      leading = h.leading;
      other_formed = formed;
      other_state = other;
      matching = rw kept h.matching;
      none_of = rw kept h.none_of;
      committed = rw kept (
          CommonUpTo-in c.other.commit_index s.commit_index l m m k h.committed up
            (empty_commit rpc l k s.commit_index carried empty place known) within same);
    }
taken-Agree env c rpc s carried
      (taken k e more carries place matches below cut sized (up, _, inside)) formed other h =
    let l = log c.leader.entries in
    let m = log c.other.entries in
    let (same, _, _) = passed-same rpc l m k carried h.matching place matches in
    let copied : log s.entries ≡ take (suc k) l =
      cut
      ∙ ap (λ xs. xs ++ e ∷ []) same
      ∙ sym (take-suc k l e (carried_at rpc l k e more carried carries place)) in
    let long : length (log s.entries) ≡ suc k = length-log s.entries formed.stored ∙ sized in
    copied-Agree env c s (suc k) formed other copied
      (CommonUpTo-in c.other.commit_index s.commit_index l m (log s.entries) (suc k) h.committed up
        (subst (λ i. s.commit_index <ℤ pos i) sized inside) (omega (arith, long))
        (take-all (suc k) (log s.entries) (omega (arith, long)) ∙ copied))
      h

delivers-Agree :
    (leader_env other_env : Env) (c : Cluster) (rpc : AppendEntryRpc) (s : Server)
    → Carries rpc (log c.leader.entries)
    → react2ae other_env rpc c.other ≡ ok s
    → IsWellFormed s
    → Agree leader_env c
    → Agree leader_env (record c { other = s })
delivers-Agree leader_env other_env c rpc s carried h formed w =
    let (takes, other) =
      react2ae-Takes other_env rpc c.other s w.other_formed.stored w.other_state h in
    taken-Agree leader_env c rpc s carried takes formed other w

pub Move-Agree :
    (leader_env other_env : Env)
    → ((rpc : AppendEntryRpc)
        → other_env.codecs.ae.parse (leader_env.codecs.ae.serialize rpc) ≡ rpc)
    → (c c' : Cluster) → Move leader_env other_env c c'
    → Agree leader_env c
    → Agree leader_env c'
unfolding step react_to_incoming_msg
Move-Agree leader_env other_env lossless c c' (leads e {p} h still same) w =
    let (leading, grows) = step-Reigns leader_env e c.leader p h w.reigns still same w.leading in
    grown-Agree leader_env c p still same leading grows w
Move-Agree leader_env other_env lossless c c' (delivers addr peer msg {s} made h) w =
    let (rpc, sent, carried) =
      AllCarried-Made leader_env (log c.leader.entries) addr msg c.leader.calls w.leading.carried
        made in
    delivers-Agree leader_env other_env c rpc s carried
      (ap (λ r. react2ae other_env r c.other)
          (sym (ap other_env.codecs.ae.parse sent ∙ lossless rpc))
        ∙ h)
      ((step-Evolves other_env (incoming append_entry msg peer) c.other s h).keeps w.other_formed) w
Move-Agree leader_env other_env lossless c c' (follows e {s} quiet h other) w =
    follows-Agree leader_env c s ((step-Evolves other_env e c.other s h).keeps w.other_formed) other
      (quiet_step-part other_env e c.other s quiet w.other_state other h) w

-- Two servers agree if the first is primary, the second is not, their logs match, the second's log
-- has no entry of the primary's term behind the end of the primary's, what the second has committed
-- stands in both logs, and the primary's calls, maps and commit index fit its log. They agree as
-- long as the reign lasts, if the second parses what the primary has serialised: whatever the
-- primary handles, whichever of its append calls are delivered, in any order and any number of
-- times, and whatever else the second handles, save the append calls of others, the clients' calls
-- to set a key, and what makes it primary.
pub Reach-Agree :
    (leader_env other_env : Env)
    → ((rpc : AppendEntryRpc)
        → other_env.codecs.ae.parse (leader_env.codecs.ae.serialize rpc) ≡ rpc)
    → (c c' : Cluster) → Reach leader_env other_env c c'
    → Agree leader_env c
    → Agree leader_env c'
Reach-Agree leader_env other_env lossless c c' here w = w
Reach-Agree leader_env other_env lossless c c' (next {d} reached move) w =
    Move-Agree leader_env other_env lossless d c' move
      (Reach-Agree leader_env other_env lossless c d reached w)

get_elem?-common :
    (l m : List Entry) (n j : ℕ)
    → j < n
    → n ≤ length m
    → take n m ≡ take n l
    → (e : Entry) × (get_elem? m j ≡ some e) × (get_elem? l j ≡ some e)
get_elem?-common l m n j below within same =
    let (e, found) = get_elem?-lt m j (omega arith) in
    (
      e,
      found,
      sym (get_elem?-take n l j below)
          ∙ ap (λ xs. get_elem? xs j) (sym same)
          ∙ get_elem?-take n m j below
          ∙ found,
    )

-- A primary's reign begins where it and another server agree, which `Reach-Agree` explains and
-- which the elections of this code do not ensure; the other parses what the primary has serialised.
-- In each cluster that the reign reaches, in which the other handles no append calls of others and
-- no client's call to set a key, every entry that the other has committed stands in its log, and at
-- the same position in the primary's.
pub committed_same :
    (leader_env other_env : Env)
    → ((rpc : AppendEntryRpc)
        → other_env.codecs.ae.parse (leader_env.codecs.ae.serialize rpc) ≡ rpc)
    → (c c' : Cluster) → Agree leader_env c
    → Reach leader_env other_env c c'
    → (j : ℕ) → pos j ≤ℤ c'.other.commit_index
    → (e : Entry) × (get_elem? (log c'.other.entries) j ≡ some e)
      × (get_elem? (log c'.leader.entries) j ≡ some e)
committed_same leader_env other_env lossless c c' w reached j committed =
    let (n, place, within, same) =
      (Reach-Agree leader_env other_env lossless c c' reached w).committed in
    get_elem?-common (log c'.leader.entries) (log c'.other.entries) n j
      (omega (arith, next-parts c'.other.commit_index n place)) within same
