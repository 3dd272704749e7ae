-- ===== src/Network/Routing.antt =====
-- Connections and the servers at their other ends.
pub mod Steps
use my_raft.Prelude.{
  get_elem?-grown, ℕ, zero, suc, ◌+◌, ◌<◌, ◌≡◌, refl, sym, ap, subst, ◌∙◌, ◌⊎◌, inl, inr, Bool,
  true, false, Bytes, List, [], ◌∷◌, ◌++◌, length, length-append, get_elem?, get_elem?-append_left,
  get_elem?-append_last, Option, none, some, arith, none_ne_some, Option-cases,
}
use my_raft.Prelude.Int.{pos}
use my_raft.Prelude.Assoc.{Map, find, find-insert, insert, erase, ==_self}
use my_raft.Prelude.Outcome.{Outcome, ok, fail, fail_ne_ok, ◌>>=◌, >>=-eq-ok, ok-injective}
use my_raft.Wire.{Addr, addr_eq, RpcType, Codecs}
use my_raft.Rpc.{encoded_call}
use my_raft.Rpc.Texts.{rpc_to_str}
use my_raft.Network.{
  Network, new_network, deliver, new_connection, insert_connection, remove, make_rpc_call, without,
  send_on, connected, connect_at, remote_of, accepted, failed, Event, calls, connect_ended,
  accept_failed, accept_ended, header_failed, body_failed, write_ended, step, run,
}

module _ (P : Addr → Bytes → Type 0) where
  -- The connection leads to a server for which the message is.
  abbrev pub IsFor : List Addr → ℕ × Bytes → Type 0
  IsFor remotes (connection, msg) =
      (remote : Addr) × (get_elem? remotes connection ≡ some remote) × P remote msg

  abbrev pub AllFor : List Addr → List (ℕ × Bytes) → Type 0
  AllFor remotes [] = Unit
  AllFor remotes (w ∷ writes) = IsFor remotes w × AllFor remotes writes

  pub AllFor-more :
      (remotes : List Addr) (new : Addr) (writes : List (ℕ × Bytes))
      → AllFor remotes writes
      → AllFor (remotes ++ new ∷ []) writes
  AllFor-more remotes new [] h = tt
  AllFor-more remotes new ((i, msg) ∷ writes) ((remote, found, meant), h) = (
    (remote, get_elem?-grown remotes (new ∷ []) i found, meant),
    AllFor-more remotes new writes h,
  )

  pub AllFor-last :
      (remotes : List Addr) (writes : List (ℕ × Bytes)) (w : ℕ × Bytes)
      → AllFor remotes writes
      → IsFor remotes w
      → AllFor remotes (writes ++ w ∷ [])
  AllFor-last remotes [] w h new = (new, tt)
  AllFor-last remotes (v ∷ writes) w h new = (h.0, AllFor-last remotes writes w h.1 new)

  pub AllFor-without :
      (remotes : List Addr) (i : ℕ) (writes : List (ℕ × Bytes))
      → AllFor remotes writes
      → AllFor remotes (without i writes)
  AllFor-without remotes i [] h = tt
  AllFor-without remotes zero (w ∷ writes) h = h.1
  AllFor-without remotes (suc i) (w ∷ writes) h = (h.0, AllFor-without remotes i writes h.1)

  pub AllFor-get_elem? :
      (remotes : List Addr) (i : ℕ) (writes : List (ℕ × Bytes)) {w : ℕ × Bytes}
      → AllFor remotes writes
      → get_elem? writes i ≡ some w
      → IsFor remotes w
  AllFor-get_elem? remotes i [] h found = absurd (none_ne_some found)
  AllFor-get_elem? remotes zero (w ∷ writes) h found = subst (IsFor remotes) (cc) h.0
  AllFor-get_elem? remotes (suc i) (w ∷ writes) h found =
      AllFor-get_elem? remotes i writes h.1 found

-- Every entry of the map is the number of a connection to this server.
abbrev pub LeadsTo : List Addr → Map Addr ℕ → Type 0
LeadsTo remotes [] = Unit
LeadsTo remotes ((a, i) ∷ m) = (get_elem? remotes i ≡ some a) × LeadsTo remotes m

pub LeadsTo-more :
    (remotes : List Addr) (new : Addr) (m : Map Addr ℕ)
    → LeadsTo remotes m
    → LeadsTo (remotes ++ new ∷ []) m
LeadsTo-more remotes new [] h = tt
LeadsTo-more remotes new ((a, i) ∷ m) h =
    (get_elem?-grown remotes (new ∷ []) i h.0, LeadsTo-more remotes new m h.1)

pub LeadsTo-insert :
    (remotes : List Addr) (a : Addr) (i : ℕ) (m : Map Addr ℕ)
    → get_elem? remotes i ≡ some a
    → LeadsTo remotes m
    → LeadsTo remotes (insert a i m)
unfolding insert
LeadsTo-insert remotes a i [] new h = (new, tt)
LeadsTo-insert remotes a i ((b, j) ∷ m) new h =
    ground (arith, addr_eq.equal_iff b a, LeadsTo-insert remotes a i m new h.1)

pub LeadsTo-erase :
    (remotes : List Addr) (a : Addr) (m : Map Addr ℕ)
    → LeadsTo remotes m
    → LeadsTo remotes (erase a m)
unfolding erase
LeadsTo-erase remotes a [] h = tt
LeadsTo-erase remotes a ((b, j) ∷ m) h = ground (arith, LeadsTo-erase remotes a m h.1)

pub LeadsTo-find :
    (remotes : List Addr) (a : Addr) (m : Map Addr ℕ) {i : ℕ}
    → LeadsTo remotes m
    → find a m ≡ some i
    → get_elem? remotes i ≡ some a
unfolding find
LeadsTo-find remotes a [] h found = absurd (none_ne_some found)
LeadsTo-find remotes a ((b, j) ∷ m) {i} h found =
    ground (arith, addr_eq.equal_iff b a, LeadsTo-find remotes a m {i = i} h.1)
