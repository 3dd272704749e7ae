-- ===== src/Entry.antt =====
-- entry/entry.h and entry/entry.cpp: the log in memory, the data file and the offset file.
-- `Wire.Codecs` turns an entry, and the vector of offsets, into bytes.
pub mod File
pub mod Layout
pub mod Get
pub mod Insert
pub mod Recovery
use my_raft.Prelude.{
  ℕ, zero, suc, ◌+◌, ◌-◌, ◌%◌, ◌^◌, ◌<◌, ◌≡◌, Bool, true, false, Bytes, List, [], ◌∷◌, ◌++◌, length,
  set, take, get_elem?, Option, none, some, leb, ltb, eqb, if◌then◌else◌, arith,
}
use my_raft.Prelude.Int.{ℤ, pos, negsuc, ◌-ℤ◌, to_int}
use my_raft.Prelude.Outcome.{
  Outcome, ok, fail, ◌>>=◌, length_error, undefined_behaviour, get_out_of_range,
  insert_out_of_range, offset_out_of_range,
}
use my_raft.Wire.{Entry, Codecs}
use File.{DataFile, write_from_offset, read_from_offset}

-- `size_` is never negative: see `open_entries`. `offset_file` is the file at `path_offset_`.
pub record Entries : Type 0 where
  pub file : DataFile
  pub entries : List Entry
  pub offset : List ℕ
  pub size : ℕ
  pub offset_file : Option Bytes

-- `v[i]` of a vector, undefined outside it.
abbrev pub at {ℓ} : {A : Type ℓ} → List A → ℕ → Outcome A
at xs i = elim (get_elem? xs i) [ none ↦ fail undefined_behaviour | some a ↦ ok a ]

unfoldable pub get : Entries → ℤ → Outcome Entry
get es (pos i) = if leb es.size i then fail get_out_of_range else at es.entries i
get es (negsuc i) = fail undefined_behaviour

unfoldable pub get_offset : Entries → ℕ → Outcome ℕ
get_offset es index =
    if leb (length es.offset) index then fail offset_out_of_range else at es.offset index

-- `offset_` holds `unsigned int`s. An empty `offset_` makes `offset_.size() - 1` the largest `size_t`.
unfoldable pub modify_offset_vector_after_insert : Entries → ℕ → Bytes → Outcome Entries
modify_offset_vector_after_insert es index entry_str =
    if eqb (index + 1) (length es.offset)
    then (do
      head ← at es.offset index
      ok (record es { offset = es.offset ++ (head + length entry_str) % 2 ^ 32 ∷ [] }))
    else if ltb (index + 1) (length es.offset)
    then (do
      head ← at es.offset index
      let moved = set es.offset (suc index) ((head + length entry_str) % 2 ^ 32)
      ok (record es { offset = take (suc (suc index)) moved }))
    else fail offset_out_of_range

unfoldable pub write_offset_to_file : Codecs → Entries → Entries
write_offset_to_file c es = record es { offset_file = some (c.offsets.serialize es.offset) }

-- `entries_[index] = entry`
unfoldable pub assign_entry : Entries → ℕ → Entry → Outcome Entries
assign_entry es index entry =
    if ltb index (length es.entries)
    then ok (record es { entries = set es.entries index entry })
    else fail undefined_behaviour

-- The vector in memory: it may still hold entries behind `size_`.
unfoldable pub store_entry : Entries → ℕ → Entry → Outcome Entries
store_entry es index entry =
    if eqb index es.size
    then (if eqb (length es.entries) index
        then ok (record es { entries = es.entries ++ entry ∷ [] })
        else assign_entry es index entry)
    else if ltb index es.size
    then assign_entry es index entry
    else fail insert_out_of_range

unfoldable pub insert : Codecs → Entries → ℕ → Entry → Outcome Entries
insert c es index entry = if ltb es.size index then fail insert_out_of_range else do
  offset_insert ← get_offset es index
  let entry_string = c.entry.serialize entry
  let file = write_from_offset es.file (to_int offset_insert) entry_string
  written ← modify_offset_vector_after_insert (record es { file = file }) index entry_string
  let flushed = write_offset_to_file c written
  stored ← store_entry flushed index entry
  ok (record stored { size = index + 1 })

-- The loop of the constructor over `offset_`, from one offset to the next.
unfoldable pub read_entries : Codecs → DataFile → List ℕ → Outcome (List Entry)
read_entries c file [] = ok []
read_entries c file (head ∷ []) = ok []
read_entries c file (head ∷ tail ∷ offsets) = do
  text ← read_from_offset file (to_int head) (to_int tail -ℤ to_int head)
  rest ← read_entries c file (tail ∷ offsets)
  ok (c.entry.parse text ∷ rest)

unfoldable pub load_offset : Codecs → Option Bytes → List ℕ
load_offset c none = 0 ∷ []
load_offset c (some bytes) = c.offsets.parse bytes

-- `Entries::Entries`: from the content of the data file, and of the offset file if there is one.
-- An empty vector of offsets makes `size_` -1, and `entries_.reserve` throws.
unfoldable pub open_entries : Codecs → DataFile → Option Bytes → Outcome Entries
open_entries c file offset_file =
    let offset = load_offset c offset_file in
    if eqb (length offset) 0 then fail length_error else do
      entries ← read_entries c file offset
      ok (record {
        file = file;
        entries = entries;
        offset = offset;
        size = length offset - 1;
        offset_file = offset_file;
      })

-- What the rest of the server sees: the entries below `size_`.
abbrev pub log : Entries → List Entry
log es = take es.size es.entries
