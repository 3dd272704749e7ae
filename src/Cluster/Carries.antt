-- ===== src/Cluster/Carries.antt =====
-- The append calls that `build_rpc_ae_string` makes from a log.
use my_raft.Prelude.{
  get_elem?-grown, ℕ, zero, suc, ◌≤◌, ◌≡◌, refl, sym, ap, subst, ◌∙◌, ◌⊎◌, inl, inr, List, [], ◌∷◌,
  ◌++◌, length, length-append, get_elem?, some, length-take, Bytes, arith,
}
use my_raft.Prelude.Int.{ℤ, pos, ◌+ℤ◌, ◌<ℤ◌, eqb_ℤ, eqb_ℤ_iff, sub-add, pos-injective}
use my_raft.Prelude.Assoc.{find_or}
use my_raft.Prelude.Outcome.{ok, >>=-eq-ok, ok-injective, if-eq-ok}
use my_raft.Wire.{Addr, addr_eq, append_entry, Entry, AppendEntryRpc}
use my_raft.Entry.{log, get}
use my_raft.Entry.Get.{get-log}
use my_raft.Server.State.{Call, make_rpc_call, Env, Server}
use my_raft.Server.Transitions.{build_rpc_ae, prelog_term_of, entry_to_send}
use my_raft.Cluster.{Made}
use my_raft.Server.Replication.{PrelogMatches}
use my_raft.Server.Replication.Transfer.{prelog_term_of-matches}

-- The call carries what stands at its position `k`: the entry, and the term of the one before. If
-- it carries none, its commit index is below the position.
pub record Carries (rpc : AppendEntryRpc) (l : List Entry) : Type 0 where
  pub k : ℕ
  pub place : rpc.prelog_index +ℤ pos 1 ≡ pos k
  pub within : k ≤ length l
  pub matches : PrelogMatches k rpc.prelog_term l
  pub entry :
      ((rpc.entry ≡ []) × (rpc.commit_index <ℤ pos k))
      ⊎ ((e : Entry) × (rpc.entry ≡ e ∷ []) × (get_elem? l k ≡ some e))

PrelogMatches-grown :
    (k : ℕ) (term : ℤ) (l more : List Entry)
    → PrelogMatches k term l
    → PrelogMatches k term (l ++ more)
PrelogMatches-grown zero term l more h = h
PrelogMatches-grown (suc k) term l more (prev, found, same) =
    (prev, get_elem?-grown l more k found, same)

-- A log that grows still holds what was carried.
pub Carries-grown :
    (rpc : AppendEntryRpc) (l more : List Entry) → Carries rpc l → Carries rpc (l ++ more)
Carries-grown rpc l more c = record {
  k = c.k;
  place = c.place;
  within = omega (arith, c.within, length-append l more);
  matches = PrelogMatches-grown c.k rpc.prelog_term l more c.matches;
  entry = elim c.entry [
    | inl none_carried ↦ inl none_carried
    | inr (e, one, found) ↦ inr (e, one, get_elem?-grown l more c.k found)
  ];
}

entry_to_send-carries :
    (p : Server) (i : ℤ) (l : List Entry) (k : ℕ)
    → i ≡ pos k
    → entry_to_send p i ≡ ok l
    → ((l ≡ []) × (k ≡ p.entries.size))
      ⊎ ((e : Entry) × (l ≡ e ∷ []) × (get_elem? (log p.entries) k ≡ some e))
unfolding entry_to_send
entry_to_send-carries p i l k at_k h = elim (if-eq-ok (eqb_ℤ i (pos p.entries.size)) (ok []) _ h) [
  | inl (at_end, empty) ↦ inl (sym (ok-injective empty), ground arith)
  | inr (_, h₁) ↦
      let (e, got, same) = >>=-eq-ok (get p.entries i) _ h₁ in
      let (j, place, _, found) = get-log p.entries i e got in
      let at_j : k ≡ j = pos-injective (sym at_k ∙ place) in
      inr (e, sym (ok-injective same), ap (get_elem? (log p.entries)) at_j ∙ found)
]

-- The index that is sent lies in the log or at its end.
entry_to_send-place :
    (p : Server) (i : ℤ) (l : List Entry)
    → entry_to_send p i ≡ ok l
    → (k : ℕ) × (i ≡ pos k) × (k ≤ p.entries.size)
unfolding entry_to_send
entry_to_send-place p i l h = elim (if-eq-ok (eqb_ℤ i (pos p.entries.size)) (ok []) _ h) [
  | inl (at_end, _) ↦ (p.entries.size, (eqb_ℤ_iff i _).0 at_end, omega arith)
  | inr (_, h₁) ↦
      let (e, got, _) = >>=-eq-ok (get p.entries i) _ h₁ in
      let (j, place, below, _) = get-log p.entries i e got in (j, place, omega arith)
]

-- The call that is built carries the log, if the commit index lies in the log.
pub build_rpc_ae-Carries :
    (server : Addr) (p : Server) (built : AppendEntryRpc × Server)
    → p.entries.size ≤ length p.entries.entries
    → p.commit_index <ℤ pos p.entries.size
    → build_rpc_ae server p ≡ ok built
    → Carries built.0 (log p.entries)
unfolding build_rpc_ae
build_rpc_ae-Carries server p built stored committed h =
    let i = find_or (pos 0) server p.next_index in
    let (term, e₁, rest) = >>=-eq-ok (prelog_term_of p i) _ h in
    let (l, e₂, end) = >>=-eq-ok (entry_to_send p i) _ rest in
    let (k, at_k, below) = entry_to_send-place p i l e₂ in
    let rpc = ap (λ (b : AppendEntryRpc × Server). b.0) (sym (ok-injective end)) in
    let size = length-take p.entries.size p.entries.entries in
    record {
      k = k;
      place = ap (λ (r : AppendEntryRpc). r.prelog_index +ℤ pos 1) rpc ∙ sub-add i (pos 1) ∙ at_k;
      within = omega (arith, size);
      matches =
          subst (λ t. PrelogMatches k t (log p.entries))
            (sym (ap (λ (r : AppendEntryRpc). r.prelog_term) rpc))
            (prelog_term_of-matches p k term (ap (prelog_term_of p) (sym at_k) ∙ e₁));
      entry = elim (entry_to_send-carries p i l k at_k e₂) [
        | inl (empty, at_end) ↦ inl (
          ap (λ (r : AppendEntryRpc). r.entry) rpc ∙ empty,
          ground (arith, ap (λ (r : AppendEntryRpc). r.commit_index) rpc, at_end),
        )
        | inr (e, one, found) ↦ inr (e, ap (λ (r : AppendEntryRpc). r.entry) rpc ∙ one, found)
      ];
    }

-- A call that was made carries the log, if it is an append call.
abbrev pub IsCarried : Env → List Entry → Call → Type 0
IsCarried env l (make_rpc_call t addr msg) =
    t ≡ append_entry → (rpc : AppendEntryRpc) × (msg ≡ env.codecs.ae.serialize rpc) × Carries rpc l
IsCarried env l _ = Unit

abbrev pub AllCarried : Env → List Entry → List Call → Type 0
AllCarried env l [] = Unit
AllCarried env l (c ∷ calls) = IsCarried env l c × AllCarried env l calls

IsCarried-grown :
    (env : Env) (l more : List Entry) (c : Call) → IsCarried env l c → IsCarried env (l ++ more) c
IsCarried-grown env l more (make_rpc_call t addr msg) h =
    λ e. let (rpc, same, carried) = h e in (rpc, same, Carries-grown rpc l more carried)
IsCarried-grown env l more _ h = tt

pub AllCarried-grown :
    (env : Env) (l more : List Entry) (calls : List Call)
    → AllCarried env l calls
    → AllCarried env (l ++ more) calls
AllCarried-grown env l more [] h = tt
AllCarried-grown env l more (c ∷ calls) h =
    (IsCarried-grown env l more c h.0, AllCarried-grown env l more calls h.1)

pub AllCarried-Made :
    (env : Env) (l : List Entry) (addr : Addr) (msg : Bytes) (calls : List Call)
    → AllCarried env l calls
    → Made (make_rpc_call append_entry addr msg) calls
    → (rpc : AppendEntryRpc) × (msg ≡ env.codecs.ae.serialize rpc) × Carries rpc l
AllCarried-Made env l addr msg [] h m = absurd m
AllCarried-Made env l addr msg (c ∷ calls) h (inl same) =
    (subst (IsCarried env l) (sym same) h.0) refl
AllCarried-Made env l addr msg (c ∷ calls) h (inr later) =
    AllCarried-Made env l addr msg calls h.1 later
