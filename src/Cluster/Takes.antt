-- ===== src/Cluster/Takes.antt =====
-- What `react2ae` does to the log and the commit index of a server that is not primary.
use my_raft.Prelude.{
  ℕ, suc, ◌≤◌, ◌≡◌, ◌≢◌, refl, sym, ap, ◌∙◌, subst, inl, inr, Bool, ◌&&◌, List, [], ◌∷◌, ◌++◌,
  length, take, arith, ltb,
}
use my_raft.Prelude.Int.{ℤ, pos, ◌+ℤ◌, ◌<ℤ◌, ◌≤ℤ◌, eqb_ℤ, ltb_ℤ, -ℤ_parts}
use my_raft.Prelude.Outcome.{ok, >>=-eq-ok, ok-injective, if-eq-ok, then-eq-ok, else-eq-ok}
use my_raft.Wire.{Addr, addr_eq, Entry, AppendEntryRpc}
use my_raft.Entry.{Entries, log}
use my_raft.Server.State.{State, follower, primary, Env, Server}
use my_raft.Server.Transitions.{trans2f}
use my_raft.Server.Commit.{follower_update_commit_index, apply_to_state_machine}
use my_raft.Server.Handlers.{
  is_primary, insert_entry, make_resp_ae, should_ignore_remote_rpc, check_prelog, accept_empty,
  accept_entry, accept_ae, follow_ae, react2ae,
}
use my_raft.Server.Frames.{trans2f-Follows}
use my_raft.Server.Invariant.{insert_entry-log}
use my_raft.Server.Replication.{PrelogMatches, check_prelog-matches}
use my_raft.Server.Election.Revote.{follow_ae-ballot}
use my_raft.Cluster.Follower.{stored_part}
use my_raft.Cluster.Reign.{follower_ne_primary}

-- The commit index went up, at most to that of the call, and stays in the log.
abbrev pub Advanced : AppendEntryRpc → Server → ℤ → ℕ → Type 0
Advanced rpc s index size =
    (s.commit_index ≤ℤ index) × (index ≤ℤ rpc.commit_index) × (index <ℤ pos size)

abbrev pub Advances : AppendEntryRpc → Server → Server → Type 0
Advances rpc s s' = Advanced rpc s s'.commit_index s'.entries.size

-- Nothing happens to both; or the check has passed, and the commit index advances, in the log as it
-- was or after the entry of the call was put into its place.
pub data Takes (rpc : AppendEntryRpc) (s s' : Server) : Type 0 where
  untouched : stored_part s' ≡ stored_part s → Takes rpc s s'
  learned :
      (k : ℕ)
      → rpc.entry ≡ []
      → rpc.prelog_index +ℤ pos 1 ≡ pos k
      → PrelogMatches k rpc.prelog_term (log s.entries)
      → s'.entries ≡ s.entries
      → Advances rpc s s'
      → Takes rpc s s'
  taken :
      (k : ℕ) (entry : Entry) (more : List Entry)
      → rpc.entry ≡ entry ∷ more
      → rpc.prelog_index +ℤ pos 1 ≡ pos k
      → PrelogMatches k rpc.prelog_term (log s.entries)
      → k ≤ s.entries.size
      → log s'.entries ≡ take k (log s.entries) ++ entry ∷ []
      → s'.entries.size ≡ suc k
      → Advances rpc s s'
      → Takes rpc s s'

follower_update-advances :
    (remote : ℤ) (s s' : Server)
    → follower_update_commit_index remote s ≡ ok s'
    → (s'.entries ≡ s.entries)
      × (s.commit_index ≤ℤ s'.commit_index)
      × (s'.commit_index ≤ℤ remote)
      × (s'.commit_index <ℤ pos s.entries.size)
unfolding follower_update_commit_index apply_to_state_machine
follower_update-advances remote s s' h = ground (arith, -ℤ_parts (pos s.entries.size) (pos 1))

accept_empty-Takes :
    (env : Env) (rpc : AppendEntryRpc) (server : Addr) (s s' : Server) (k : ℕ)
    → rpc.entry ≡ []
    → rpc.prelog_index +ℤ pos 1 ≡ pos k
    → PrelogMatches k rpc.prelog_term (log s.entries)
    → accept_empty env rpc server s ≡ ok s'
    → Takes rpc s s'
unfolding accept_empty make_resp_ae
accept_empty-Takes env rpc server s s' k none_carried place matches h =
    let (_, h₁) = else-eq-ok (ltb_ℤ (pos s.entries.size) rpc.commit_index) _ _ h in
    let (s₁, e, end) = >>=-eq-ok (follower_update_commit_index rpc.commit_index s) _ h₁ in
    let (same, up, known, inside) = follower_update-advances rpc.commit_index s s₁ e in
    subst (Takes rpc s) (ok-injective end) (
      learned k none_carried place matches same (
        subst (λ (es : Entries). Advanced rpc s s₁.commit_index es.size) (sym same)
          (up, known, inside)))

accept_entry-Takes :
    (env : Env) (rpc : AppendEntryRpc) (entry : Entry) (more : List Entry) (server : Addr)
    (s s' : Server) (k : ℕ)
    → s.entries.size ≤ length s.entries.entries
    → rpc.entry ≡ entry ∷ more
    → rpc.prelog_index +ℤ pos 1 ≡ pos k
    → PrelogMatches k rpc.prelog_term (log s.entries)
    → accept_entry env rpc entry server s ≡ ok s'
    → Takes rpc s s'
unfolding accept_entry make_resp_ae
accept_entry-Takes env rpc entry more server s s' k stored carried place matches h =
    let (_, h₁) = then-eq-ok (eqb_ℤ entry.index (rpc.prelog_index +ℤ pos 1)) _ _ h in
    let (s₁, e₁, rest) = >>=-eq-ok (insert_entry env (rpc.prelog_index +ℤ pos 1) entry s) _ h₁ in
    let (s₂, e₂, end) = >>=-eq-ok (follower_update_commit_index rpc.commit_index s₁) _ rest in
    let at_k : insert_entry env (pos k) entry s ≡ ok s₁ =
      ap (λ i. insert_entry env i entry s) (sym place) ∙ e₁ in
    let (below, sized, _, cut, frame) = insert_entry-log env (pos k) entry s s₁ stored at_k in
    let (same, up, known, inside) = follower_update-advances rpc.commit_index s₁ s₂ e₂ in
    let old : s₁.commit_index ≡ s.commit_index = ap (λ (r : Server). r.commit_index) frame in
    subst (Takes rpc s) (ok-injective end) (
      taken k entry more carried place matches below (ap log same ∙ cut)
        (ap (λ (es : Entries). es.size) same ∙ sized)
        (
          subst (λ i. i ≤ℤ s₂.commit_index) old up,
          known,
          subst (λ (es : Entries). s₂.commit_index <ℤ pos es.size) (sym same) inside,
        ))

checked-part :
    (server : Addr) (lsn : ℤ) (s : Server)
    → stored_part (should_ignore_remote_rpc server lsn s).1 ≡ stored_part s
unfolding should_ignore_remote_rpc
checked-part server lsn s = ground arith

-- Only the log and the commit index count.
Takes-from :
    (rpc : AppendEntryRpc) (s t s' : Server)
    → stored_part t ≡ stored_part s
    → Takes rpc t s'
    → Takes rpc s s'
Takes-from rpc s t s' same (untouched e) = untouched (e ∙ same)
Takes-from rpc s t s' same (learned k none_carried place matches kept (up, known, inside)) =
    let es : t.entries ≡ s.entries = ap (λ (q : Entries × ℤ). q.0) same in
    let old : t.commit_index ≡ s.commit_index = ap (λ (q : Entries × ℤ). q.1) same in
    learned k none_carried place (subst (λ l. PrelogMatches k rpc.prelog_term (log l)) es matches)
      (kept ∙ es) (subst (λ i. i ≤ℤ s'.commit_index) old up, known, inside)
Takes-from rpc s t s' same
      (taken k entry more carried place matches below cut sized (up, known, inside)) =
    let es : t.entries ≡ s.entries = ap (λ (q : Entries × ℤ). q.0) same in
    let old : t.commit_index ≡ s.commit_index = ap (λ (q : Entries × ℤ). q.1) same in
    taken k entry more carried place
      (subst (λ l. PrelogMatches k rpc.prelog_term (log l)) es matches)
      (subst (λ (l : Entries). k ≤ l.size) es below)
      (cut ∙ ap (λ l. take k (log l) ++ entry ∷ []) es) sized
      (subst (λ i. i ≤ℤ s'.commit_index) old up, known, inside)

accept_ae-Takes :
    (env : Env) (rpc : AppendEntryRpc) (entries : List Entry) (server : Addr) (s s' : Server)
    (k : ℕ)
    → s.entries.size ≤ length s.entries.entries
    → rpc.entry ≡ entries
    → rpc.prelog_index +ℤ pos 1 ≡ pos k
    → PrelogMatches k rpc.prelog_term (log s.entries)
    → accept_ae env rpc entries server s ≡ ok s'
    → Takes rpc s s'
unfolding accept_ae
accept_ae-Takes env rpc [] server s s' k stored carried place matches h =
    accept_empty-Takes env rpc server s s' k carried place matches h
accept_ae-Takes env rpc (entry ∷ more) server s s' k stored carried place matches h =
    accept_entry-Takes env rpc entry more server s s' k stored carried place matches h

follow_ae-Takes :
    (env : Env) (rpc : AppendEntryRpc) (server : Addr) (s s' : Server)
    → s.entries.size ≤ length s.entries.entries
    → follow_ae env rpc server s ≡ ok s'
    → Takes rpc s s'
unfolding follow_ae make_resp_ae
follow_ae-Takes env rpc server s s' stored h =
    let checked = should_ignore_remote_rpc server rpc.lsn s in
    let first = checked-part server rpc.lsn s in
    elim (if-eq-ok checked.0 (ok checked.1) _ h) [
      | inl (_, ignored) ↦ untouched (sym (ap stored_part (ok-injective ignored)) ∙ first)
      | inr (_, rest) ↦
          let (passed, e, last) = >>=-eq-ok (check_prelog rpc checked.1) _ rest in
          elim (if-eq-ok passed (accept_ae env rpc rpc.entry server checked.1) _ last) [
            | inl (did, end) ↦
                let (k, place, matches) = check_prelog-matches rpc checked.1 (e ∙ ap ok did) in
                let kept : checked.1.entries ≡ s.entries = ap (λ (q : Entries × ℤ). q.0) first in
                Takes-from rpc s checked.1 s' first (
                  accept_ae-Takes env rpc rpc.entry server checked.1 s' k (rw kept stored) refl
                    place matches end)
            | inr (_, refused) ↦ untouched (sym (ap stored_part (ok-injective refused)) ∙ first)
          ]
    ]

-- The server stays no primary, too.
pub react2ae-Takes :
    (env : Env) (rpc : AppendEntryRpc) (s s' : Server)
    → s.entries.size ≤ length s.entries.entries
    → s.state ≢ primary
    → react2ae env rpc s ≡ ok s'
    → Takes rpc s s' × (s'.state ≢ primary)
unfolding react2ae make_resp_ae
react2ae-Takes env rpc s s' stored other h =
    let (_, h₁) = else-eq-ok (ltb 1 (length rpc.entry)) _ _ h in
    elim (if-eq-ok (ltb_ℤ rpc.term s.term) (ok _) _ h₁) [
      | inl (_, refused) ↦ (
        untouched (sym (ap stored_part (ok-injective refused))),
        λ leads. other (ap (λ (t : Server). t.state) (ok-injective refused) ∙ leads),
      )
      | inr (_, h₂) ↦
          let (_, h₃) = else-eq-ok (is_primary s.state && eqb_ℤ s.term rpc.term) _ _ h₂ in
          let (s₁, e, rest) = >>=-eq-ok (trans2f env rpc.term s) _ h₃ in
          let follows = (trans2f-Follows env rpc.term s s₁ e).same in
          let kept : s₁.entries ≡ s.entries = ap (λ (t : Server). t.entries) follows in
          let still : s'.state ≡ follower =
            ap (λ (b : ℤ × State × Bool). b.1) (follow_ae-ballot env rpc _ s₁ s' rest)
            ∙ ap (λ (t : Server). t.state) follows in
          (
            Takes-from rpc s s₁ s' (ap stored_part follows)
                (follow_ae-Takes env rpc _ s₁ s' (rw kept stored) rest),
            λ leads. follower_ne_primary (sym still ∙ leads),
          )
    ]
