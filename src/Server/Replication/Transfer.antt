-- ===== src/Server/Replication/Transfer.antt =====
-- A primary's call, built by `build_rpc_ae_string`, handled by a follower.
use my_raft.Prelude.{
  ℕ, zero, suc, ◌≤◌, ◌<◌, ◌≡◌, sym, ap, subst, ◌∙◌, inl, inr, true, false, ◌&&◌, List, [], ◌∷◌,
  ◌++◌, length, take, take-suc, get_elem?, get_elem?-take, some, arith, ltb,
}
use my_raft.Prelude.Int.{
  ℤ, pos, ◌+ℤ◌, ◌-ℤ◌, ◌≤ℤ◌, ◌<ℤ◌, eqb_ℤ, ltb_ℤ, minus_one, pred_of_zero, pred_of_pos_suc,
  pos-injective, pos_suc-sub_one, sub-add,
}
use my_raft.Prelude.Assoc.{find_or, insert}
use my_raft.Prelude.Outcome.{ok, >>=-eq-ok, ok-injective, if-eq-ok, else-eq-ok}
use my_raft.Wire.{Addr, addr_eq, Entry, AppendEntryRpc}
use my_raft.Entry.{log, get}
use my_raft.Entry.Get.{get-log, get-ok}
use my_raft.Server.State.{Env, Server}
use my_raft.Server.Transitions.{trans2f, build_rpc_ae, prelog_term_of, entry_to_send}
use my_raft.Server.Handlers.{
  is_primary, should_ignore_remote_rpc, check_prelog, accept_ae, follow_ae, react2ae,
}
use my_raft.Server.Frames.{trans2f-Follows}
use my_raft.Server.Replication.{PrelogMatches, accept_entry-log}

-- A log that matches passes the check.
check_prelog-passes :
    (rpc : AppendEntryRpc) (s : Server) (k : ℕ)
    → rpc.prelog_index +ℤ pos 1 ≡ pos k
    → k ≤ s.entries.size
    → PrelogMatches k rpc.prelog_term (log s.entries)
    → check_prelog rpc s ≡ ok true
unfolding check_prelog
check_prelog-passes rpc s zero place below matches =
    let first : rpc.prelog_index ≡ minus_one = pred_of_zero rpc.prelog_index place in ground arith
check_prelog-passes rpc s (suc k) place below (prev, found, same) =
    let index : rpc.prelog_index ≡ pos k = pred_of_pos_suc rpc.prelog_index k place in
    ground (arith, get-ok s.entries k prev below found)

-- What a server does with a call that is new to it and matches its log: it takes the entry.
follow_ae-log :
    (env : Env) (rpc : AppendEntryRpc) (server : Addr) (e : Entry) (s s' : Server) (k : ℕ)
    → s.entries.size ≤ length s.entries.entries
    → find_or (pos 0) server s.follower_rpc_lsn <ℤ rpc.lsn
    → rpc.entry ≡ e ∷ []
    → rpc.prelog_index +ℤ pos 1 ≡ pos k
    → k ≤ s.entries.size
    → PrelogMatches k rpc.prelog_term (log s.entries)
    → follow_ae env rpc server s ≡ ok s'
    → log s'.entries ≡ take k (log s.entries) ++ e ∷ []
unfolding follow_ae should_ignore_remote_rpc accept_ae
follow_ae-log env rpc server e s s' k stored fresh carried place below matches h =
    let t : Server = record s { follower_rpc_lsn = insert server rpc.lsn s.follower_rpc_lsn } in
    let accepted : accept_ae env rpc (e ∷ []) server t ≡ ok s' =
      ground (arith, check_prelog-passes rpc t k place below matches) in
    (accept_entry-log env rpc e server t s' k stored place accepted).2

entry_to_send-log :
    (p : Server) (k : ℕ) (l : List Entry)
    → k < p.entries.size
    → entry_to_send p (pos k) ≡ ok l
    → (e : Entry) × (l ≡ e ∷ []) × (get_elem? (log p.entries) k ≡ some e)
unfolding entry_to_send
entry_to_send-log p k l below h = elim (if-eq-ok (eqb_ℤ (pos k) (pos p.entries.size)) (ok []) _ h) [
  | inl (at_end, _) ↦ absurd (ground arith)
  | inr (_, h₁) ↦
      let (e, got, same) = >>=-eq-ok (get p.entries (pos k)) _ h₁ in
      let (j, place, _, found) = get-log p.entries (pos k) e got in
      (e, sym (ok-injective same), ap (get_elem? (log p.entries)) (pos-injective place) ∙ found)
]

pub prelog_term_of-matches :
    (p : Server) (k : ℕ) (term : ℤ)
    → prelog_term_of p (pos k) ≡ ok term
    → PrelogMatches k term (log p.entries)
unfolding prelog_term_of
prelog_term_of-matches p zero term h = sym (ok-injective h)
prelog_term_of-matches p (suc k) term h =
    elim (if-eq-ok (ltb_ℤ (pos 0) (pos (suc k))) _ (ok minus_one) h) [
      | inl (_, h₁) ↦
          let (prev, got, same) = >>=-eq-ok (get p.entries (pos (suc k) -ℤ pos 1)) _ h₁ in
          let (j, place, _, found) = get-log p.entries (pos (suc k) -ℤ pos 1) prev got in
          (
            prev,
            ap (get_elem? (log p.entries)) (pos-injective (sym (pos_suc-sub_one k) ∙ place))
                ∙ found,
            sym (ok-injective same),
          )
      | inr (not_positive, _) ↦ absurd (ground arith)
    ]

-- The call that a primary builds for a follower that it believes to hold `k` entries.
build_rpc_ae-sends :
    (server : Addr) (p p' : Server) (rpc : AppendEntryRpc) (k : ℕ)
    → find_or (pos 0) server p.next_index ≡ pos k
    → k < p.entries.size
    → build_rpc_ae server p ≡ ok (rpc, p')
    → (e : Entry) × (rpc.entry ≡ e ∷ [])
      × (get_elem? (log p.entries) k ≡ some e)
      × (rpc.prelog_index +ℤ pos 1 ≡ pos k)
      × PrelogMatches k rpc.prelog_term (log p.entries)
unfolding build_rpc_ae
build_rpc_ae-sends server p p' rpc k next below h =
    let i = find_or (pos 0) server p.next_index in
    let (term, e₁, rest) = >>=-eq-ok (prelog_term_of p i) _ h in
    let (l, e₂, end) = >>=-eq-ok (entry_to_send p i) _ rest in
    let (e, single, found) = entry_to_send-log p k l below (ap (entry_to_send p) (sym next) ∙ e₂) in
    let built = ap (λ (b : AppendEntryRpc × Server). b.0) (sym (ok-injective end)) in
    (
      e,
      ap (λ (r : AppendEntryRpc). r.entry) built ∙ single,
      found,
      ap (λ (r : AppendEntryRpc). r.prelog_index +ℤ pos 1) built ∙ sub-add i (pos 1) ∙ next,
      subst (λ t. PrelogMatches k t (log p.entries))
          (sym (ap (λ (r : AppendEntryRpc). r.prelog_term) built))
          (prelog_term_of-matches p k term (ap (prelog_term_of p) (sym next) ∙ e₁)),
    )

build_rpc_ae-header :
    (server : Addr) (p p' : Server) (rpc : AppendEntryRpc)
    → build_rpc_ae server p ≡ ok (rpc, p')
    → (rpc.term ≡ p.term) × (rpc.ip ≡ p.ip) × (rpc.port ≡ p.port)
unfolding build_rpc_ae
build_rpc_ae-header server p p' rpc h =
    let (term, _, rest) = >>=-eq-ok (prelog_term_of p _) _ h in
    let (l, _, end) = >>=-eq-ok (entry_to_send p _) _ rest in ground arith

-- Only the entry before the position counts.
PrelogMatches-take :
    (k : ℕ) (term : ℤ) (l l' : List Entry)
    → take k l ≡ take k l'
    → PrelogMatches k term l'
    → PrelogMatches k term l
PrelogMatches-take zero term l l' same h = h
PrelogMatches-take (suc k) term l l' same (prev, found, e) = (
  prev,
  sym (get_elem?-take (suc k) l k (omega arith))
      ∙ ap (λ xs. get_elem? xs k) same
      ∙ get_elem?-take (suc k) l' k (omega arith)
      ∙ found,
  e,
)

-- A primary believes that a follower holds `k` entries, and sends it the next one. If the follower
-- goes with the primary's term, the call is new to it, and its log is the primary's up to `k`, then
-- its log becomes the primary's first `k + 1` entries.
pub replicates :
    (env : Env) (server : Addr) (p p' f f' t : Server) (rpc : AppendEntryRpc) (k : ℕ)
    → f.entries.size ≤ length f.entries.entries
    → find_or (pos 0) server p.next_index ≡ pos k
    → k < p.entries.size
    → build_rpc_ae server p ≡ ok (rpc, p')
    → is_primary f.state ≡ false
    → f.term ≤ℤ p.term
    → trans2f env p.term f ≡ ok t
    → find_or (pos 0) (record { ip = p.ip; port = p.port }) t.follower_rpc_lsn <ℤ rpc.lsn
    → k ≤ f.entries.size
    → take k (log f.entries) ≡ take k (log p.entries)
    → react2ae env rpc f ≡ ok f'
    → log f'.entries ≡ take (suc k) (log p.entries)
unfolding react2ae
replicates env server p p' f f' t rpc k stored next below built not_primary reaches follows fresh
      enough agree h =
    let (e, carried, found, place, matches) =
      build_rpc_ae-sends server p p' rpc k next below built in
    let (of_term, of_ip, of_port) = build_rpc_ae-header server p p' rpc built in
    let (_, h₁) = else-eq-ok (ltb 1 (length rpc.entry)) _ _ h in
    elim (if-eq-ok (ltb_ℤ rpc.term f.term) (ok _) _ h₁) [
      | inl (older, _) ↦ absurd (ground arith)
      | inr (_, h₂) ↦
          let (_, h₃) = else-eq-ok (is_primary f.state && eqb_ℤ f.term rpc.term) _ _ h₂ in
          let (f₁, e₁, rest) = >>=-eq-ok (trans2f env rpc.term f) _ h₃ in
          let same : f₁ ≡ t = ok-injective (sym e₁ ∙ ap (λ n. trans2f env n f) of_term ∙ follows) in
          let kept : t.entries ≡ f.entries =
            ap (λ (r : Server). r.entries) (trans2f-Follows env p.term f t follows).same in
          let sender : Addr = record { ip = rpc.ip; port = rpc.port } in
          let new : find_or (pos 0) sender t.follower_rpc_lsn <ℤ rpc.lsn =
            subst (λ a. find_or (pos 0) a t.follower_rpc_lsn <ℤ rpc.lsn) (ground arith) fresh in
          follow_ae-log env rpc sender e t f' k (rw kept stored) new carried place (rw kept enough)
            (PrelogMatches-take k rpc.prelog_term (log t.entries) (log p.entries)
              (ap (λ es. take k (log es)) kept ∙ agree) matches)
            (subst (λ r. follow_ae env rpc sender r ≡ ok f') same rest)
          ∙ ap (λ l. l ++ e ∷ []) (ap (λ es. take k (log es)) kept ∙ agree)
          ∙ sym (take-suc k (log p.entries) e found)
    ]
