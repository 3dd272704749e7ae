-- ===== src/Examples/Backtracking.antt =====
-- A new primary, and a follower that has none of its entries.
use my_raft.Prelude.{none_ne_some, refl, arith, subst, sym}
use my_raft.Prelude.Int.{pos, minus_one}
use my_raft.Server.State.{Server, follower}
use my_raft.Cluster.{Cluster}
use my_raft.Cluster.Backtrack.{Waits}
use my_raft.Cluster.Backtrack.Agreement.{Reaches, finds_agreement}
use my_raft.Examples.Codecs.{codecs, ae_codec-IsLossless, resp_ae_codec-IsLossless}
use my_raft.Examples.Servers.{env, no_entries, server}
use my_raft.Examples.Witnesses.{everything}
use my_raft.Examples.Clusters.{elected, empty_call}

abbrev far_behind : Server
far_behind = server 2 follower no_entries

abbrev pair : Cluster
pair = record { leader = elected; other = far_behind }

sent-Waits : Waits elected far_behind (empty_call (pos 0) minus_one) 2
unfolding everything
sent-Waits = record {
  reigns = refl;
  of_term = refl;
  of_ip = refl;
  of_port = refl;
  place = refl;
  matches = (_, refl, refl);
  few = refl;
  numbered = refl;
  next = refl;
  within = omega arith;
  stored = omega arith;
  timed = refl;
  follows = refl;
  same_term = refl;
  fresh = omega arith;
  other_stored = omega arith;
}

finds_agreement_example :
    Reaches env env 2 pair (codecs.ae.serialize (empty_call (pos 0) minus_one))
finds_agreement_example =
    finds_agreement env env (λ _ _ _. refl) (λ _ _ _. refl) ae_codec-IsLossless
      resp_ae_codec-IsLossless 2 pair (codecs.ae.serialize (empty_call (pos 0) minus_one))
      (λ _. refl) (λ j e d at_l at_m same. absurd (none_ne_some at_m))
      (subst (λ rpc. Waits elected far_behind rpc 2)
        (sym (ae_codec-IsLossless (empty_call (pos 0) minus_one))) sent-Waits)
