-- ===== src/Entry/File.antt =====
-- entry/data.h and entry/data.cpp: the data file behind a descriptor. The file system's calls are
-- POSIX's; those that fail on the disk (`exit` in `write_from_offset`) are not modelled.
use my_raft.Prelude.{
  ℕ, zero, suc, ◌+◌, ◌≤◌, ◌≡◌, refl, Bytes, [], ◌∷◌, length, take, drop, ◌++◌, arith, ap,
  length-append,
}
use mathlib.Core.List.{append_assoc}
use my_raft.Prelude.Int.{ℤ, pos, negsuc, ◌+ℤ◌, pos-add}
use my_raft.Prelude.Outcome.{Outcome, ok, fail, length_error}

pub record DataFile : Type 0 where
  pub content : Bytes
  pub position : ℕ

-- The file's first `n` bytes, with zeros behind its end.
unfoldable pub padded : ℕ → Bytes → Bytes
padded zero bytes = []
padded (suc n) [] = 0 ∷ padded n []
padded (suc n) (b ∷ bytes) = b ∷ padded n bytes

-- `lseek(fd, offset, SEEK_SET)`; it fails on a negative offset, and the code ignores that.
abbrev pub lseek : DataFile → ℤ → DataFile
lseek f (pos n) = record f { position = n }
lseek f (negsuc n) = f

-- `write(fd, bytes)` at the position.
pub write : DataFile → Bytes → DataFile
write f bytes = record {
  content = padded f.position f.content ++ (bytes ++ drop (f.position + length bytes) f.content);
  position = f.position + length bytes;
}

-- `ftruncate(fd, size)`; it fails on a negative size.
abbrev pub ftruncate : DataFile → ℤ → DataFile
ftruncate f (pos n) = record f { content = padded n f.content }
ftruncate f (negsuc n) = f

-- `int` plus `size_t`, as `off_t`.
unfoldable pub write_from_offset : DataFile → ℤ → Bytes → DataFile
unfolding write ◌+ℤ◌
write_from_offset f offset bytes =
    ftruncate (write (lseek f offset) bytes) (offset +ℤ pos (length bytes))

-- `string res(len, 0)` throws where `len`, taken for a `size_t`, is too large. `read` fills the
-- front of `res`; behind the end of the file it stays zero.
unfoldable pub read_from_offset : DataFile → ℤ → ℤ → Outcome Bytes
read_from_offset f offset (negsuc n) = fail length_error
read_from_offset f offset (pos len) = ok (padded len (drop (lseek f offset).position f.content))

pub length-padded : (n : ℕ) (bytes : Bytes) → length (padded n bytes) ≡ n
unfolding padded
length-padded zero bytes = refl
length-padded (suc n) [] = ap suc (length-padded n [])
length-padded (suc n) (b ∷ bytes) = ap suc (length-padded n bytes)

pub padded-append : (xs ys : Bytes) → padded (length xs) (xs ++ ys) ≡ xs
unfolding padded
padded-append [] ys = refl
padded-append (x ∷ xs) ys = ap (◌∷◌ x) (padded-append xs ys)

pub padded_self : (xs : Bytes) → padded (length xs) xs ≡ xs
unfolding padded
padded_self [] = refl
padded_self (x ∷ xs) = ap (◌∷◌ x) (padded_self xs)

padded-append_of : (n : ℕ) (xs ys : Bytes) → length xs ≡ n → padded n (xs ++ ys) ≡ xs
padded-append_of n xs ys e = rw (← e) (padded-append xs ys)

-- A cut-off part in the file's front is what it was.
pub padded-padded_append :
    (m n : ℕ) (bytes ys : Bytes) → m ≤ n → padded m (padded n bytes ++ ys) ≡ padded m bytes
unfolding padded
padded-padded_append zero n bytes ys h = refl
padded-padded_append (suc m) zero bytes ys h = absurd (omega arith)
padded-padded_append (suc m) (suc n) [] ys h =
    ap (◌∷◌ 0) (padded-padded_append m n [] ys (omega arith))
padded-padded_append (suc m) (suc n) (b ∷ bytes) ys h =
    ap (◌∷◌ b) (padded-padded_append m n bytes ys (omega arith))

-- A part of the file, read off its padded front.
pub padded-drop :
    (o m n : ℕ) (bytes : Bytes)
    → o + m ≤ n
    → padded m (drop o bytes) ≡ take m (drop o (padded n bytes))
unfolding padded
padded-drop zero zero n bytes h = refl
padded-drop zero (suc m) zero bytes h = absurd (omega arith)
padded-drop zero (suc m) (suc n) [] h = ap (◌∷◌ 0) (padded-drop zero m n [] (omega arith))
padded-drop zero (suc m) (suc n) (b ∷ bytes) h =
    ap (◌∷◌ b) (padded-drop zero m n bytes (omega arith))
padded-drop (suc o) m zero bytes h = absurd (omega arith)
padded-drop (suc o) m (suc n) [] h = drop-nil o m n (padded-drop o m n [] (omega arith))
  where
    drop-nil :
        (o m n : ℕ)
        → padded m (drop o []) ≡ take m (drop o (padded n []))
        → padded m [] ≡ take m (drop o (padded n []))
    drop-nil zero m n e = e
    drop-nil (suc o) m n e = e
padded-drop (suc o) m (suc n) (b ∷ bytes) h = padded-drop o m n bytes (omega arith)

-- Writing at an offset keeps what stands before it, and cuts off what stands behind the text.
pub content-write_from_offset :
    (f : DataFile) (o : ℕ) (bytes : Bytes)
    → (write_from_offset f (pos o) bytes).content ≡ padded o f.content ++ bytes
unfolding write_from_offset write
content-write_from_offset f o bytes =
    rw (pos-add o (length bytes), ← append_assoc (padded o f.content) bytes)
      (padded-append_of (o + length bytes) (padded o f.content ++ bytes) _
        (omega (arith, length-append (padded o f.content) bytes, length-padded o f.content)))
