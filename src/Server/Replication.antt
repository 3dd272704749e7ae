-- ===== src/Server/Replication.antt =====
-- What `react2ae` does to a follower's log, and how a primary's call carries an entry across.
pub mod Transfer
pub mod Repeat
use my_raft.Prelude.{
  ℕ, zero, suc, ◌+◌, ◌≤◌, ◌<◌, ◌≡◌, refl, sym, ap, subst, ◌∙◌, ◌⊎◌, inl, inr, Bool, true, false,
  ◌&&◌, List, [], ◌∷◌, ◌++◌, length, length-take, take, get_elem?, get_elem?-take, Option, some,
  arith, eqb, ltb,
}
use my_raft.Prelude.Int.{
  ℤ, pos, negsuc, ◌+ℤ◌, leb_ℤ, eqb_ℤ_iff, pos-add, minus_one-add_one, to_unsigned, eqb_ℤ, ltb_ℤ,
  minus_one,
}
use my_raft.Prelude.Outcome.{Outcome, ok, >>=-eq-ok, ok-injective, if-eq-ok, then-eq-ok, else-eq-ok}
use my_raft.Wire.{Addr, Entry, AppendEntryRpc}
use mathlib.Core.Bool.{false≢true}
use my_raft.Entry.{Entries, log, get}
use my_raft.Entry.Get.{get-log}
use my_raft.Server.State.{Env, Server}
use my_raft.Server.Transitions.{trans2f}
use my_raft.Server.Commit.{follower_update_commit_index}
use my_raft.Server.Handlers.{
  is_primary, insert_entry, make_resp_ae, should_ignore_remote_rpc, check_prelog, accept_empty,
  accept_entry, accept_ae, follow_ae, react2ae,
}
use my_raft.Server.Frames.{Follows, trans2f-Follows}
use my_raft.Server.Invariant.{insert_entry-log}
use my_raft.Server.Preservation.Transitions.{follower_update_commit_index-Same}
use my_raft.Server.Preservation.Append.{should_ignore_remote_rpc-Same}

-- The log holds, before the position `k`, an entry of the term `prelog_term`; before the first
-- position that term is -1.
abbrev pub PrelogMatches : ℕ → ℤ → List Entry → Type 0
PrelogMatches zero prelog_term l = prelog_term ≡ minus_one
PrelogMatches (suc k) prelog_term l =
    (prev : Entry) × (get_elem? l k ≡ some prev) × (prelog_term ≡ prev.term)

-- What a call may do to a log: nothing, or replace all from its position on by its one entry,
-- where the entry before is of the term that the call names.
pub data Appends (rpc : AppendEntryRpc) (l l' : List Entry) : Type 0 where
  unchanged : l' ≡ l → Appends rpc l l'
  appended :
      (k : ℕ) (entry : Entry)
      → rpc.entry ≡ entry ∷ []
      → rpc.prelog_index +ℤ pos 1 ≡ pos k
      → entry.index ≡ pos k
      → k ≤ length l
      → PrelogMatches k rpc.prelog_term l
      → l' ≡ take k l ++ entry ∷ []
      → Appends rpc l l'

-- The check, in terms of the log.
pub check_prelog-matches :
    (rpc : AppendEntryRpc) (s : Server)
    → check_prelog rpc s ≡ ok true
    → (k : ℕ) × (rpc.prelog_index +ℤ pos 1 ≡ pos k)
      × PrelogMatches k rpc.prelog_term (log s.entries)
unfolding check_prelog
check_prelog-matches rpc s h = elim (if-eq-ok (eqb_ℤ rpc.prelog_index minus_one) _ _ h) [
  | inl (first, h₁) ↦ (
    0,
    ap (λ i. i +ℤ pos 1) ((eqb_ℤ_iff rpc.prelog_index minus_one).0 first) ∙ minus_one-add_one,
    ground arith,
  )
  | inr (_, h₁) ↦ elim (if-eq-ok (leb_ℤ (pos s.entries.size) rpc.prelog_index) (ok false) _ h₁) [
    | inl (_, no_match) ↦ absurd (false≢true (ok-injective no_match))
    | inr (_, h₂) ↦
        let (prev, got, same) = >>=-eq-ok (get s.entries rpc.prelog_index) _ h₂ in
        let (k, place, _, found) = get-log s.entries rpc.prelog_index prev got in
        (
          suc k,
          rw (place, pos-add) (ap pos (omega arith)),
          (prev, found, (eqb_ℤ_iff rpc.prelog_term prev.term).0 (ok-injective same)),
        )
  ]
]

-- What an accepted entry does to the log.
pub accept_entry-log :
    (env : Env) (rpc : AppendEntryRpc) (entry : Entry) (server : Addr) (s s' : Server) (k : ℕ)
    → s.entries.size ≤ length s.entries.entries
    → rpc.prelog_index +ℤ pos 1 ≡ pos k
    → accept_entry env rpc entry server s ≡ ok s'
    → (k ≤ s.entries.size)
      × (entry.index ≡ pos k)
      × (log s'.entries ≡ take k (log s.entries) ++ entry ∷ [])
unfolding accept_entry make_resp_ae
accept_entry-log env rpc entry server s s' k stored place h =
    let (right, h₁) = then-eq-ok (eqb_ℤ entry.index (rpc.prelog_index +ℤ pos 1)) _ _ h in
    let (s₁, e₁, rest) = >>=-eq-ok (insert_entry env (rpc.prelog_index +ℤ pos 1) entry s) _ h₁ in
    let (s₂, e₂, end) = >>=-eq-ok (follower_update_commit_index rpc.commit_index s₁) _ rest in
    let at_k : insert_entry env (pos k) entry s ≡ ok s₁ =
      ap (λ i. insert_entry env i entry s) (sym place) ∙ e₁ in
    let (below, _, _, cut, _) = insert_entry-log env (pos k) entry s s₁ stored at_k in
    let kept : s'.entries ≡ s₁.entries =
      ground (arith, follower_update_commit_index-Same rpc.commit_index s₁ s₂ e₂) in
    (below, (eqb_ℤ_iff entry.index _).0 right ∙ place, ap log kept ∙ cut)

accept_ae-Appends :
    (env : Env) (rpc : AppendEntryRpc) (entries : List Entry) (server : Addr) (s s' : Server)
    (k : ℕ)
    → s.entries.size ≤ length s.entries.entries
    → ltb 1 (length entries) ≡ false
    → rpc.entry ≡ entries
    → rpc.prelog_index +ℤ pos 1 ≡ pos k
    → PrelogMatches k rpc.prelog_term (log s.entries)
    → accept_ae env rpc entries server s ≡ ok s'
    → Appends rpc (log s.entries) (log s'.entries)
unfolding accept_ae accept_empty make_resp_ae
accept_ae-Appends env rpc [] server s s' k stored few carried place matches h =
    let (_, h₁) = else-eq-ok (ltb_ℤ (pos s.entries.size) rpc.commit_index) _ _ h in
    let (s₁, e, end) = >>=-eq-ok (follower_update_commit_index rpc.commit_index s) _ h₁ in
    unchanged (ground (arith, follower_update_commit_index-Same rpc.commit_index s s₁ e))
accept_ae-Appends env rpc (entry ∷ more) server s s' k stored few carried place matches h =
    let (below, index, cut) = accept_entry-log env rpc entry server s s' k stored place h in
    appended k entry (carried ∙ ap (◌∷◌ entry) (ground arith)) place index
      (omega (arith, length-take s.entries.size s.entries.entries)) matches cut

follow_ae-Appends :
    (env : Env) (rpc : AppendEntryRpc) (server : Addr) (s s' : Server)
    → s.entries.size ≤ length s.entries.entries
    → ltb 1 (length rpc.entry) ≡ false
    → follow_ae env rpc server s ≡ ok s'
    → Appends rpc (log s.entries) (log s'.entries)
unfolding follow_ae make_resp_ae
follow_ae-Appends env rpc server s s' stored few h =
    let checked = should_ignore_remote_rpc server rpc.lsn s in
    let first : checked.1.entries ≡ s.entries =
      (should_ignore_remote_rpc-Same server rpc.lsn s).entries in
    elim (if-eq-ok checked.0 (ok checked.1) _ h) [
      | inl (_, same) ↦
          unchanged (ap (λ (r : Server). log r.entries) (sym (ok-injective same)) ∙ ap log first)
      | inr (_, rest) ↦
          let (passed, e, last) = >>=-eq-ok (check_prelog rpc checked.1) _ rest in
          elim (if-eq-ok passed (accept_ae env rpc rpc.entry server checked.1) _ last) [
            | inl (accepted, end) ↦
                let (k, place, matches) = check_prelog-matches rpc checked.1 (e ∙ ap ok accepted) in
                subst (λ (es : Entries). Appends rpc (log es) (log s'.entries)) first
                  (accept_ae-Appends env rpc rpc.entry server checked.1 s' k (rw first stored) few
                    refl place matches end)
            | inr (_, end) ↦
                unchanged
                  (ap (λ (r : Server). log r.entries) (sym (ok-injective end)) ∙ ap log first)
          ]
    ]

-- A server that handles an append call to its end has its log as before, or has replaced all from
-- the call's position on by the call's one entry, and then the entry before that position is of the
-- term that the call names.
pub react2ae-Appends :
    (env : Env) (rpc : AppendEntryRpc) (s s' : Server)
    → s.entries.size ≤ length s.entries.entries
    → react2ae env rpc s ≡ ok s'
    → Appends rpc (log s.entries) (log s'.entries)
unfolding react2ae make_resp_ae
react2ae-Appends env rpc s s' stored h =
    let (few, h₁) = else-eq-ok (ltb 1 (length rpc.entry)) _ _ h in
    elim (if-eq-ok (ltb_ℤ rpc.term s.term) (ok _) _ h₁) [
      | inl (_, refused) ↦
          unchanged (ap (λ (r : Server). log r.entries) (sym (ok-injective refused)))
      | inr (_, h₂) ↦
          let (_, h₃) = else-eq-ok (is_primary s.state && eqb_ℤ s.term rpc.term) _ _ h₂ in
          let (s₁, e, rest) = >>=-eq-ok (trans2f env rpc.term s) _ h₃ in
          let f = trans2f-Follows env rpc.term s s₁ e in
          let kept : s₁.entries ≡ s.entries = ap (λ (r : Server). r.entries) f.same in
          subst (λ (es : Entries). Appends rpc (log es) (log s'.entries)) kept
            (follow_ae-Appends env rpc _ s₁ s' (rw kept stored) few rest)
    ]
