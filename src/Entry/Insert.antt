-- ===== src/Entry/Insert.antt =====
-- `Entries::insert`, in memory and in both files, against an insertion into the log.
use native.Mathlib.Nat.{mod-eq_of_lt}
use native.Mathlib.Numerals.{add-one}
use my_raft.Prelude.{
  ℕ, suc, ◌+◌, ◌≤◌, ◌<◌, ◌^◌, ◌≡◌, refl, ap, ◌∙◌, Bytes, List, [], ◌∷◌, ◌++◌, length, take,
  get_elem?, set, some, arith, length-append, length-take, length-set, take-all, take-set,
  take-take, Bool-cases, inl, inr, if◌then◌else◌, ltb,
}
use my_raft.Prelude.Int.{pos}
use my_raft.Prelude.Outcome.{ok, fail, >>=-eq-ok, fail_ne_ok, insert_out_of_range}
use my_raft.Wire.{Entry, Codecs}
use my_raft.Entry.File.{
  DataFile, padded, write_from_offset, content-write_from_offset, padded_self, padded-drop,
}
use my_raft.Entry.Layout.{
  IsValid, text, offsets_from, text-append, text-take_le, take-text, length-offsets_from,
  offsets_from-take, get_elem?-offsets_from, offsets_from-append,
}
use my_raft.Entry.{
  Entries, log, get_offset, insert, modify_offset_vector_after_insert, write_offset_to_file,
  store_entry, assign_entry,
}

-- The vector of entries after the last step.
abbrev stored_vector : List Entry → ℕ → Entry → List Entry
stored_vector xs index e = if ltb index (length xs) then set xs index e else xs ++ e ∷ []

store_entry_lem :
    (es : Entries) (index : ℕ) (e : Entry)
    → index ≤ es.size
    → es.size ≤ length es.entries
    → store_entry es index e ≡ ok (record es { entries = stored_vector es.entries index e })
unfolding store_entry assign_entry
store_entry_lem es index e h k = ground arith

length-stored_vector :
    (xs : List Entry) (index : ℕ) (e : Entry)
    → index ≤ length xs
    → suc index ≤ length (stored_vector xs index e)
length-stored_vector xs index e h = ground (arith, length-set xs index e, length-append xs (e ∷ []))

take-stored_vector :
    (xs : List Entry) (index : ℕ) (e : Entry)
    → index ≤ length xs
    → take (suc index) (stored_vector xs index e) ≡ take index xs ++ e ∷ []
take-stored_vector xs index e h = elim (Bool-cases (ltb index (length xs))) [
  | inl inside ↦ rw inside (take-set index xs e (ground arith))
  | inr outside ↦
      rw (outside, take-all index xs (ground arith))
        (take-all (suc index) (xs ++ e ∷ []) (ground (arith, length-append xs (e ∷ []))))
]

module _ (c : Codecs) (es : Entries) (v : IsValid c es) (index : ℕ) (h : index ≤ es.size)
    (e : Entry) where
  -- The log that the insertion leaves.
  abbrev new_log : List Entry
  new_log = take index (log es) ++ e ∷ []

  length-log : length (log es) ≡ es.size
  length-log = omega (arith, length-take es.size es.entries, v.stored)

  head_offset : get_elem? es.offset index ≡ some (length (text c (take index (log es))))
  head_offset = rw v.laid_out (
      get_elem?-offsets_from c 0 index (log es) (omega (arith, length-log)) ∙ ap some (omega arith))

  length-offset : length es.offset ≡ suc es.size
  length-offset = rw v.laid_out (omega (arith, length-offsets_from c 0 (log es), length-log))

  -- The offset behind the new entry.
  abbrev new_end : ℕ
  new_end = length (text c (take index (log es))) + length (c.entry.serialize e)

  new_offsets : offsets_from c 0 new_log ≡ take (suc index) es.offset ++ new_end ∷ []
  new_offsets =
      rw
        (
          offsets_from-append c 0 (take index (log es)) e,
          v.laid_out,
          offsets_from-take c 0 index (log es) (omega (arith, length-log)),
        )
        (ap (λ n. offsets_from c 0 (take index (log es)) ++ n ∷ []) (omega arith))

  modify_offset_vector_lem :
      (f : DataFile)
      → new_end < 2 ^ 32
      → modify_offset_vector_after_insert (record es { file = f }) index (c.entry.serialize e)
        ≡ ok (record es { file = f; offset = offsets_from c 0 new_log })
  unfolding modify_offset_vector_after_insert
  modify_offset_vector_lem f small = ground (
    arith,
    head_offset,
    new_offsets,
    length-offset,
    take-all (suc index) es.offset,
    take-set (suc index) es.offset new_end,
    mod-eq_of_lt small,
  )

  inserted : Entries
  inserted = record {
    file =
        write_from_offset es.file (pos (length (text c (take index (log es)))))
          (c.entry.serialize e);
    entries = stored_vector es.entries index e;
    offset = offsets_from c 0 new_log;
    size = index + 1;
    offset_file = some (c.offsets.serialize (offsets_from c 0 new_log));
  }

  get_offset_lem : get_offset es index ≡ ok (length (text c (take index (log es))))
  unfolding get_offset
  get_offset_lem = ground (arith, length-offset, head_offset)

  insert-eq-inserted : new_end < 2 ^ 31 → insert c es index e ≡ ok inserted
  unfolding insert inserted write_offset_to_file
  insert-eq-inserted small = ground (
    arith,
    get_offset_lem,
    modify_offset_vector_lem inserted.file (omega arith),
    store_entry_lem (record inserted { entries = es.entries; size = es.size }) index e h v.stored,
  )

  log-inserted : log inserted ≡ new_log
  unfolding inserted
  log-inserted =
      rw (add-one, take-take index es.size es.entries h)
        (take-stored_vector es.entries index e (omega (arith, v.stored)))

  -- The part of the data file before the new entry.
  front :
      padded (length (text c (take index (log es)))) es.file.content ≡ text c (take index (log es))
  front =
      padded-drop 0 _ (length (text c (log es))) es.file.content
        (omega (arith, text-take_le c index (log es)))
      ∙ ap (take _) v.written
      ∙ take-text c index (log es)

  length-text-new_log : length (text c new_log) ≡ new_end
  length-text-new_log =
      rw (text-append c (take index (log es)) e)
        (length-append (text c (take index (log es))) (c.entry.serialize e))

  inserted-IsValid : new_end < 2 ^ 31 → IsValid c inserted
  unfolding inserted
  inserted-IsValid small = record {
    stored = omega (arith, length-stored_vector es.entries index e (omega (arith, v.stored)));
    laid_out = rw log-inserted;
    written =
        rw (log-inserted, content-write_from_offset, front, ← text-append c (take index (log es)) e)
          (padded_self (text c new_log));
    fits = rw log-inserted (omega (arith, length-text-new_log));
    flushed = inl refl;
  }

-- Inserting at an index within a valid log succeeds, cuts the log there and appends the entry, and
-- leaves the files with the new log, as long as the offsets stay below 2 ^ 31.
pub insert-refines :
    (c : Codecs) (es : Entries) (index : ℕ) (e : Entry)
    → IsValid c es
    → index ≤ es.size
    → length (text c (take index (log es) ++ e ∷ [])) < 2 ^ 31
    → (es' : Entries) × (insert c es index e ≡ ok es')
      × IsValid c es'
      × (log es' ≡ take index (log es) ++ e ∷ [])
insert-refines c es index e v h small =
    let fits = rw (length-text-new_log c es v index h e) at small in
    (
      inserted c es v index h e,
      insert-eq-inserted c es v index h e fits,
      inserted-IsValid c es v index h e fits,
      log-inserted c es v index h e,
    )

-- Behind the end of the log `insert` throws, whatever the state.
pub insert_out_of_range_lem :
    (c : Codecs) (es : Entries) (index : ℕ) (e : Entry)
    → es.size < index
    → insert c es index e ≡ fail insert_out_of_range
unfolding insert
insert_out_of_range_lem c es index e h = ground arith

modify_offset_vector_keeps :
    (es w : Entries) (index : ℕ) (bytes : Bytes)
    → modify_offset_vector_after_insert es index bytes ≡ ok w
    → (w.entries ≡ es.entries) × (w.size ≡ es.size)
unfolding modify_offset_vector_after_insert
modify_offset_vector_keeps es w index bytes h = ground arith

-- The last steps of `insert`, from the state in which the offsets have been written.
stored_lem :
    (c : Codecs) (es w : Entries) (index : ℕ) (e : Entry)
    → index ≤ es.size
    → es.size ≤ length es.entries
    → (w.entries ≡ es.entries) × (w.size ≡ es.size)
    → store_entry (write_offset_to_file c w) index e
      ≡ ok (record (write_offset_to_file c w) { entries = stored_vector es.entries index e })
unfolding write_offset_to_file
stored_lem c es w index e h k same =
    ground (arith, store_entry_lem (write_offset_to_file c w) index e)

insert-shape :
    (c : Codecs) (es es' : Entries) (index : ℕ) (e : Entry)
    → es.size ≤ length es.entries
    → insert c es index e ≡ ok es'
    → (index ≤ es.size) × (es'.size ≡ index + 1) × (es'.entries ≡ stored_vector es.entries index e)
unfolding insert write_offset_to_file
insert-shape c es es' index e h eq = elim (Bool-cases (ltb es.size index)) [
  | inl outside ↦ absurd (fail_ne_ok (rw outside at eq))
  | inr inside ↦
      let (offset, e₁, rest) = >>=-eq-ok (get_offset es index) _ (rw inside at eq) in
      let (w, e₂, end) =
        >>=-eq-ok (modify_offset_vector_after_insert _ index (c.entry.serialize e)) _ rest in
      ground (arith, modify_offset_vector_keeps _ w index _ e₂, stored_lem c es w index e)
]

-- Whatever is in the files, an insertion that succeeds was at an index within the log, and has cut
-- the log there and appended the entry.
pub insert-log :
    (c : Codecs) (es es' : Entries) (index : ℕ) (e : Entry)
    → es.size ≤ length es.entries
    → insert c es index e ≡ ok es'
    → (index ≤ es.size)
      × (es'.size ≡ suc index)
      × (es'.size ≤ length es'.entries)
      × (log es' ≡ take index (log es) ++ e ∷ [])
insert-log c es es' index e h eq =
    let (inside, sized, vector) = insert-shape c es es' index e h eq in
    (
      inside,
      omega arith,
      rw vector (omega (arith, length-stored_vector es.entries index e (omega arith))),
      rw (vector, sized, add-one, take-take index es.size es.entries inside)
          (take-stored_vector es.entries index e (omega arith)),
    )
