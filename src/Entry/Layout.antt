-- ===== src/Entry/Layout.antt =====
-- Where the entries of a log lie in the data file, and the offsets that say so.
use mathlib.Core.List.{append_assoc, append-nil}
use my_raft.Prelude.{
  ℕ, zero, suc, ◌+◌, ◌≤◌, ◌<◌, ◌^◌, ◌≡◌, refl, ap, ◌∙◌, ◌⊎◌, Bytes, List, [], ◌∷◌, ◌++◌, length,
  take, get_elem?, none, some, arith, length-append, take-append, drop, sym,
}
use my_raft.Wire.{Entry, Codecs}
use my_raft.Entry.File.{padded}
use my_raft.Entry.{Entries, log}

-- The serialised entries, one behind the other.
abbrev pub text : Codecs → List Entry → Bytes
text c [] = []
text c (e ∷ es) = c.entry.serialize e ++ text c es

-- Where each entry begins if the first does at `b`, and the end of the last.
abbrev pub offsets_from : Codecs → ℕ → List Entry → List ℕ
offsets_from c b [] = b ∷ []
offsets_from c b (e ∷ es) = b ∷ offsets_from c (b + length (c.entry.serialize e)) es

-- The files hold the log: the offsets are those of the log's entries, the data file begins with
-- them, and the offset file was written last with these offsets. Offsets fit an `int`.
pub record IsValid (c : Codecs) (es : Entries) : Type 0 where
  pub stored : es.size ≤ length es.entries
  pub laid_out : es.offset ≡ offsets_from c 0 (log es)
  pub written : padded (length (text c (log es))) es.file.content ≡ text c (log es)
  pub fits : length (text c (log es)) < 2 ^ 31
  pub flushed :
      (es.offset_file ≡ some (c.offsets.serialize es.offset))
      ⊎ ((es.offset_file ≡ none) × (es.size ≡ 0))

module _ (c : Codecs) where
  pub text-append :
      (l : List Entry) (e : Entry) → text c (l ++ e ∷ []) ≡ text c l ++ c.entry.serialize e
  text-append [] e = append-nil (c.entry.serialize e)
  text-append (x ∷ l) e = rw (text-append l e, ← append_assoc (c.entry.serialize x) (text c l))

  text-take-drop : (n : ℕ) (l : List Entry) → text c l ≡ text c (take n l) ++ text c (drop n l)
  text-take-drop zero l = refl
  text-take-drop (suc n) [] = refl
  text-take-drop (suc n) (x ∷ l) =
      ap (◌++◌ (c.entry.serialize x)) (text-take-drop n l)
      ∙ sym (append_assoc (c.entry.serialize x) (text c (take n l)) (text c (drop n l)))

  -- The front of the text of a log is the text of the log's front.
  pub take-text :
      (n : ℕ) (l : List Entry) → take (length (text c (take n l))) (text c l) ≡ text c (take n l)
  take-text n l = rw (text-take-drop n l) (take-append (text c (take n l)) (text c (drop n l)))

  pub text-take_le : (n : ℕ) (l : List Entry) → length (text c (take n l)) ≤ length (text c l)
  text-take_le zero l = omega arith
  text-take_le (suc n) [] = omega arith
  text-take_le (suc n) (x ∷ l) = omega (
    arith,
    text-take_le n l,
    length-append (c.entry.serialize x) (text c l),
    length-append (c.entry.serialize x) (text c (take n l)),
  )

  pub length-offsets_from : (b : ℕ) (l : List Entry) → length (offsets_from c b l) ≡ suc (length l)
  length-offsets_from b [] = refl
  length-offsets_from b (x ∷ l) = ap suc (length-offsets_from (b + length (c.entry.serialize x)) l)

  pub offsets_from-take :
      (b n : ℕ) (l : List Entry)
      → n ≤ length l
      → take (suc n) (offsets_from c b l) ≡ offsets_from c b (take n l)
  offsets_from-take b zero [] h = refl
  offsets_from-take b zero (x ∷ l) h = refl
  offsets_from-take b (suc n) [] h = absurd (omega arith)
  offsets_from-take b (suc n) (x ∷ l) h =
      ap (◌∷◌ b) (offsets_from-take (b + length (c.entry.serialize x)) n l (omega arith))

  pub get_elem?-offsets_from :
      (b n : ℕ) (l : List Entry)
      → n ≤ length l
      → get_elem? (offsets_from c b l) n ≡ some (b + length (text c (take n l)))
  get_elem?-offsets_from b zero [] h = ap some (omega arith)
  get_elem?-offsets_from b zero (x ∷ l) h = ap some (omega arith)
  get_elem?-offsets_from b (suc n) [] h = absurd (omega arith)
  get_elem?-offsets_from b (suc n) (x ∷ l) h =
      get_elem?-offsets_from (b + length (c.entry.serialize x)) n l (omega arith)
      ∙ ap some (omega (arith, length-append (c.entry.serialize x) (text c (take n l))))

  pub offsets_from-append :
      (b : ℕ) (l : List Entry) (e : Entry)
      → offsets_from c b (l ++ e ∷ [])
        ≡ offsets_from c b l ++ (b + length (text c l) + length (c.entry.serialize e)) ∷ []
  offsets_from-append b [] e = ap (λ n. b ∷ n ∷ []) (omega arith)
  offsets_from-append b (x ∷ l) e =
      rw (offsets_from-append (b + length (c.entry.serialize x)) l e) (
        ap (λ n. b ∷ (offsets_from c (b + length (c.entry.serialize x)) l ++ n ∷ []))
          (omega (arith, length-append (c.entry.serialize x) (text c l))))
