-- ===== src/Cluster/Queues.antt =====
-- What a primary, over its reign, and another server give to their state machines.
pub mod Reached
pub mod Machine
use my_raft.Prelude.{
  ℕ, zero, suc, ◌+◌, ◌≤◌, ◌<◌, ◌≡◌, ◌≢◌, refl, sym, ap, subst, ◌∙◌, inl, inr, List, [], ◌∷◌, ◌++◌,
  length, length-append, length-take, take, drop, take-take, take-add, take-append_left, get_elem?,
  get_elem?-take, get_elem?-lt_length, some, arith,
}
use my_raft.Prelude.Int.{ℤ, pos, ◌+ℤ◌, ◌≤ℤ◌, pos-injective, next-parts, eq_of_parts}
use my_raft.Prelude.Outcome.{ok}
use my_raft.Wire.{Entry, AppendEntryRpc, append_entry}
use my_raft.Entry.{Entries, log}
use my_raft.StateMachine.Controler.{WriteTask}
use my_raft.StateMachine.Controler.Applied.{number}
use my_raft.Server.State.{Env, Server}
use my_raft.Server.Events.{Event, incoming, step, react_to_incoming_msg}
use my_raft.Server.Handover.{Queue, queue_of, HandsOver}
use my_raft.Server.Handover.Events.{step-HandsOver}
use my_raft.Cluster.{Cluster, Move, leads, delivers, follows, Reach, here, next}
use my_raft.Cluster.Reign.{Grows}
use my_raft.Cluster.Reign.Events.{step-Reigns}
use my_raft.Cluster.Follower.{stored_part, quiet_step-part}
use my_raft.Cluster.Takes.{Takes, untouched, learned, taken, react2ae-Takes}
use my_raft.Cluster.Agreement.{Agree, CommonUpTo, Move-Agree, Reach-Agree}

number-append :
    (a : ℕ) (xs ys : List Entry) → number a (xs ++ ys) ≡ number a xs ++ number (a + length xs) ys
number-append a [] ys = let same : a ≡ a + 0 = omega arith in ap (λ i. number i ys) same
number-append a (x ∷ xs) ys =
    let same : suc a + length xs ≡ a + suc (length xs) = omega arith in
    rw (number-append (suc a) xs ys, same) refl

pub number-take : (a k : ℕ) (xs : List Entry) → number a (take k xs) ≡ take k (number a xs)
number-take a zero xs = refl
number-take a (suc k) [] = refl
number-take a (suc k) (x ∷ xs) = ground (arith, number-take (suc a) k xs)

-- The queue has got exactly the first entries of the log, up to the last one given away.
abbrev pub IsGiven : Queue → List Entry → Type 0
IsGiven q l =
    (k : ℕ) × (q.applied_index +ℤ pos 1 ≡ pos k) × (k ≤ length l) × (q.tasks ≡ number 0 (take k l))

given_more :
    (q q' : Queue) (s' : Server) (k n : ℕ) (l : List Entry)
    → q.tasks ≡ number 0 (take k l)
    → k ≤ length l
    → k ≤ length (log s'.entries)
    → take k (log s'.entries) ≡ take k l
    → HandsOver q q' s'.entries k n
    → IsGiven q' (log s'.entries)
given_more q q' s' k n l given within still same over =
    let m = log s'.entries in
    let at_k : 0 + length (take k m) ≡ k = omega (arith, length-take k m) in
    (
      k + n,
      over.applied,
      elim over.inside [ inl none_more ↦ omega arith | inr (inside, _) ↦ inside ],
      over.tasks
          ∙ ap (λ ts. ts ++ number k (take n (drop k m))) (given ∙ ap (number 0) (sym same))
          ∙ ap (λ i. number 0 (take k m) ++ number i (take n (drop k m))) (sym at_k)
          ∙ sym (number-append 0 (take k m) (take n (drop k m)))
          ∙ ap (number 0) (sym (take-add k n m)),
    )

-- What the other server's agreement with the primary gives, as the primary goes on.
pub grown-IsGiven :
    (leader_env : Env) (e : Event) (s s' : Server)
    → step leader_env e s ≡ ok s'
    → Grows s s'
    → IsGiven (queue_of s) (log s.entries)
    → IsGiven (queue_of s') (log s'.entries)
grown-IsGiven leader_env e s s' h grows (k, place, within, given) =
    let (n, over) = step-HandsOver leader_env e s s' k place h in
    elim grows [
      | inl stays ↦
          given_more (queue_of s) (queue_of s') s' k n (log s.entries) given within
            (subst (λ l. k ≤ length l) (sym stays) within) (ap (take k) stays) over
      | inr (d, _, grown) ↦
          given_more (queue_of s) (queue_of s') s' k n (log s.entries) given within
            (subst (λ l. k ≤ length l) (sym grown)
              (omega (arith, within, length-append (log s.entries) (d ∷ []))))
            (ap (take k) grown ∙ take-append_left k (log s.entries) (d ∷ []) within) over
    ]

-- Both have got the first entries of their logs, and the other server all that it has committed.
pub record Given (c : Cluster) : Type 0 where
  pub leader : IsGiven (queue_of c.leader) (log c.leader.entries)
  pub other : IsGiven (queue_of c.other) (log c.other.entries)
  pub settled : c.other.smc.applied_index ≡ c.other.commit_index

-- The index goes up in logs that agree with the primary's: the common part is the same.
agreed_part :
    (i j : ℤ) (k : ℕ) (l m m' : List Entry)
    → i +ℤ pos 1 ≡ pos k
    → i ≤ℤ j
    → CommonUpTo i l m
    → CommonUpTo j l m'
    → (k ≤ length m') × (take k m' ≡ take k m)
agreed_part i j k l m m' place up (n, at_n, within, same) (n', at_n', within', same') =
    let at_k : n ≡ k = pos-injective (sym at_n ∙ place) in
    let below : k ≤ n' = omega (arith, next-parts i k place, next-parts j n' at_n', up) in
    (
      omega arith,
      sym (take-take k n' m' below)
          ∙ ap (take k) same'
          ∙ take-take k n' l below
          ∙ sym (subst (λ x. take x m ≡ take x l) at_k same),
    )

-- Where the commit index of a server that is settled does not fall, it stays settled.
stays_settled :
    (s s' : Server) (k n : ℕ)
    → s.smc.applied_index +ℤ pos 1 ≡ pos k
    → s.smc.applied_index ≡ s.commit_index
    → s.commit_index ≤ℤ s'.commit_index
    → HandsOver (queue_of s) (queue_of s') s'.entries k n
    → s'.smc.applied_index ≡ s'.commit_index
stays_settled s s' k n place settled up over = elim over.inside [
  | inr (_, reached) ↦ reached
  | inl none_more ↦
      let all = over.caught_up (subst (λ i. s.commit_index ≤ℤ i) (sym settled) (omega arith)) in
      let here' : s'.smc.applied_index +ℤ pos 1 ≡ pos k =
        over.applied ∙ ap pos (omega (arith, none_more)) in
      eq_of_parts s'.smc.applied_index s'.commit_index (
        omega (
          arith,
          all,
          up,
          next-parts s'.smc.applied_index k here',
          next-parts s.commit_index k (ap (λ i. i +ℤ pos 1) (sym settled) ∙ place),
        ))
]

pub other-Given :
    (other_env : Env) (e : Event) (c : Cluster) (s : Server)
    → step other_env e c.other ≡ ok s
    → c.other.commit_index ≤ℤ s.commit_index
    → CommonUpTo c.other.commit_index (log c.leader.entries) (log c.other.entries)
    → CommonUpTo s.commit_index (log c.leader.entries) (log s.entries)
    → Given c
    → Given (record c { other = s })
other-Given other_env e c s h up before after g =
    let (k, place, within, given) = g.other in
    let (n, over) = step-HandsOver other_env e c.other s k place h in
    let at_k : c.other.commit_index +ℤ pos 1 ≡ pos k =
      ap (λ i. i +ℤ pos 1) (sym g.settled) ∙ place in
    let (still, same) =
      agreed_part c.other.commit_index s.commit_index k (log c.leader.entries) (log c.other.entries)
        (log s.entries) at_k up before after in
    record {
      leader = g.leader;
      other =
          given_more (queue_of c.other) (queue_of s) s k n (log c.other.entries) given within still
            same over;
      settled = stays_settled c.other s k n place g.settled up over;
    }
