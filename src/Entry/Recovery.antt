-- ===== src/Entry/Recovery.antt =====
-- `Entries::Entries`: what a restart makes of the two files.
use my_raft.Prelude.{
  ℕ, ◌+◌, ◌<◌, ◌^◌, ◌≡◌, refl, ap, sym, ◌∙◌, Bytes, List, [], ◌∷◌, ◌++◌, length, take, drop,
  drop-drop, take-append, drop-append, take-all, arith, length-append, length-take, inl, inr,
}
use my_raft.Prelude.Int.{◌-ℤ◌, to_int, pos-sub, to_int-small}
use my_raft.Prelude.Outcome.{ok, ◌>>=◌}
use my_raft.Wire.{Entry, Codecs, IsLossless}
use my_raft.Entry.File.{DataFile, padded, read_from_offset, padded-drop}
use my_raft.Entry.Layout.{IsValid, text, offsets_from, length-offsets_from}
use my_raft.Entry.{Entries, log, read_entries, load_offset, open_entries}

read_from_offset_lem :
    (f : DataFile) (b n : ℕ)
    → b + n < 2 ^ 31
    → read_from_offset f (to_int b) (to_int (b + n) -ℤ to_int b) ≡ ok (padded n (drop b f.content))
unfolding read_from_offset
read_from_offset_lem f b n h =
    rw (to_int-small b (omega arith), to_int-small (b + n) h, pos-sub (b + n) b (omega arith))
      (ap (λ k. ok (padded k (drop b f.content))) (omega arith))

read_entries_step :
    (c : Codecs) (f : DataFile) (b b' : ℕ) (l : List Entry)
    → read_entries c f (b ∷ offsets_from c b' l) ≡ (
        read_from_offset f (to_int b) (to_int b' -ℤ to_int b) >>= λ text.
        read_entries c f (offsets_from c b' l) >>= λ rest. ok (c.entry.parse text ∷ rest))
unfolding read_entries
read_entries_step c f b b' [] = refl
read_entries_step c f b b' (x ∷ l) = refl

-- The loop over the offsets parses the entries of a log that lies in the file at `b`.
read_entries-text :
    (c : Codecs) (f : DataFile) (lossless : IsLossless c.entry) (b : ℕ) (l : List Entry)
    → b + length (text c l) < 2 ^ 31
    → padded (length (text c l)) (drop b f.content) ≡ text c l
    → read_entries c f (offsets_from c b l) ≡ ok l
unfolding read_entries
read_entries-text c f lossless b [] small h = refl
read_entries-text c f lossless b (x ∷ l) small h = rw (
  read_entries_step c f b (b + length own) l,
  read_from_offset_lem f b (length own) (omega (arith, parts)),
  head,
  read_entries-text c f lossless (b + length own) l (omega (arith, parts)) tail,
  lossless x,
)
  where
    own : Bytes
    own = c.entry.serialize x

    parts : length (own ++ text c l) ≡ length own + length (text c l)
    parts = length-append own (text c l)

    head : padded (length own) (drop b f.content) ≡ own
    head =
        padded-drop 0 (length own) (length (own ++ text c l)) (drop b f.content)
          (omega (arith, parts))
        ∙ ap (take (length own)) h
        ∙ take-append own (text c l)

    tail : padded (length (text c l)) (drop (b + length own) f.content) ≡ text c l
    tail =
        ap (padded (length (text c l))) (sym (drop-drop (length own) b f.content))
        ∙ padded-drop (length own) (length (text c l)) (length (own ++ text c l)) (drop b f.content)
            (omega (arith, parts))
        ∙ ap (λ t. take (length (text c l)) (drop (length own) t)) h
        ∙ ap (take (length (text c l))) (drop-append own (text c l))
        ∙ take-all (length (text c l)) (text c l) (omega arith)

loaded_offset :
    (c : Codecs) (es : Entries)
    → IsLossless c.offsets
    → IsValid c es
    → load_offset c es.offset_file ≡ es.offset
unfolding load_offset
loaded_offset c es lossless v = elim v.flushed [
  | inl written ↦ rw written (lossless es.offset)
  | inr (missing, empty) ↦
      rw missing (sym (v.laid_out ∙ ap (λ n. offsets_from c 0 (take n es.entries)) empty))
]

-- A server that restarts on the files of a valid log finds that log: the same entries below
-- `size_` and the same offsets.
pub open_entries-IsValid :
    (c : Codecs) (es : Entries)
    → IsLossless c.entry
    → IsLossless c.offsets
    → IsValid c es
    → open_entries c es.file es.offset_file ≡ ok (record es { entries = log es })
unfolding open_entries
open_entries-IsValid c es lossless lossless_offsets v = ground (
  arith,
  loaded_offset c es lossless_offsets v,
  rw (← v.laid_out) at
      (read_entries-text c es.file lossless 0 (log es) (omega (arith, v.fits)) v.written),
  ap length v.laid_out,
  length-offsets_from c 0 (log es),
  length-take es.size es.entries,
  v.stored,
)
