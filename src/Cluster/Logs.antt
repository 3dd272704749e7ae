-- ===== src/Cluster/Logs.antt =====
-- The log of a primary, and that of another server.
use my_raft.Prelude.{
  get_elem?-lt_length, ℕ, zero, suc, ◌≤◌, ◌<◌, ◌≡◌, ◌≢◌, refl, sym, ap, ◌∙◌, ◌⊎◌, inl, inr, List,
  [], ◌∷◌, ◌++◌, length, length-append, length-take, take, take-take, take-append_left, get_elem?,
  get_elem?-append_left, get_elem?-append_last, some, arith,
}
use my_raft.Prelude.Int.{ℤ}
use my_raft.Wire.{Entry}
use my_raft.Server.Replication.{PrelogMatches}

-- Where two logs hold entries of one term at one position, they are the same up to this position.
abbrev pub Matching : List Entry → List Entry → Type 0
Matching l m =
    (j : ℕ) (e d : Entry)
    → get_elem? l j ≡ some e
    → get_elem? m j ≡ some d
    → e.term ≡ d.term
    → take (suc j) m ≡ take (suc j) l

-- No entry of `m` behind the end of `l` is of the term.
abbrev pub NoneOf : ℤ → List Entry → List Entry → Type 0
NoneOf term l m = (j : ℕ) (d : Entry) → length l ≤ j → get_elem? m j ≡ some d → d.term ≢ term

-- The primary's log grows.
pub Matching-grown :
    (term : ℤ) (l m : List Entry) (new : Entry)
    → new.term ≡ term
    → NoneOf term l m
    → Matching l m
    → Matching (l ++ new ∷ []) m
Matching-grown term l m new of_term none_of match j e d at_l at_m same =
    let below : (j < length l) ⊎ (j ≡ length l) =
      omega (arith, get_elem?-lt_length (l ++ new ∷ []) j at_l, length-append l (new ∷ [])) in
    elim below [
      | inl inside ↦
          match j e d (sym (get_elem?-append_left l (new ∷ []) j inside) ∙ at_l) at_m same
          ∙ sym (take-append_left (suc j) l (new ∷ []) inside)
      | inr at_end ↦
          let last : get_elem? (l ++ new ∷ []) j ≡ some new =
            ap (get_elem? (l ++ new ∷ [])) at_end ∙ get_elem?-append_last l new in
          let it : some new ≡ some e = sym last ∙ at_l in
          absurd (none_of j d (omega arith) at_m (ground (arith, it, same, of_term)))
    ]

pub NoneOf-grown :
    (term : ℤ) (l m : List Entry) (new : Entry) → NoneOf term l m → NoneOf term (l ++ new ∷ []) m
NoneOf-grown term l m new none_of j d far at_m =
    none_of j d (omega (arith, length-append l (new ∷ []))) at_m

-- The other log becomes a part of the primary's.
pub Matching-take : (l : List Entry) (n : ℕ) → Matching l (take n l)
Matching-take l n j e d at_l at_m same =
    take-take (suc j) n l (omega (arith, get_elem?-lt_length (take n l) j at_m, length-take n l))

pub NoneOf-take : (term : ℤ) (l : List Entry) (n : ℕ) → NoneOf term l (take n l)
NoneOf-take term l n j d far at_m =
    absurd (omega (arith, get_elem?-lt_length (take n l) j at_m, length-take n l))

-- What the check of the entry before a position means.
pub PrelogMatches-take_same :
    (k : ℕ) (term : ℤ) (l m : List Entry)
    → Matching l m
    → PrelogMatches k term l
    → PrelogMatches k term m
    → take k m ≡ take k l
PrelogMatches-take_same zero term l m match in_l in_m = refl
PrelogMatches-take_same (suc k) term l m match (e, at_l, of_e) (d, at_m, of_d) =
    match k e d at_l at_m (sym of_e ∙ of_d)
