-- ===== src/Server/Config/Lines.antt =====
-- What `load_config_from_file` makes of a file, line by line.
use my_raft.Prelude.{
  ℕ, zero, suc, ◌+◌, ◌≤◌, ◌≡◌, ◌⊎◌, refl, ap, ◌∙◌, inl, inr, Bool, false, Bytes, List, [], ◌∷◌,
  ◌++◌, length, arith,
}
use my_raft.Prelude.Outcome.{Outcome, ok, ◌>>=◌}
use my_raft.Wire.{Addr}
use my_raft.Util.Texts.{Lacks}
use my_raft.Server.Config.{getline, c_str, read_config_line, read_round, read_config_lines}

getline-line :
    (room : ℕ) (line rest : Bytes)
    → length line ≤ room
    → Lacks 10 line
    → getline room (line ++ 10 ∷ rest) ≡ (line, rest, false)
unfolding getline
getline-line zero [] rest h lacks = refl
getline-line (suc room) [] rest h lacks = refl
getline-line zero (c ∷ line) rest h lacks = absurd (omega arith)
getline-line (suc room) (c ∷ line) rest h lacks =
    ground (arith, lacks.0, getline-line room line rest (omega arith) lacks.1)

c_str-all : (line : Bytes) → Lacks 0 line → c_str line ≡ line
unfolding c_str
c_str-all [] lacks = refl
c_str-all (c ∷ line) lacks = ground (arith, lacks.0, c_str-all line lacks.1)

-- What a call stores and leaves is part of what was there.
length-getline :
    (room : ℕ) (text : Bytes)
    → length (getline room text).0 + length (getline room text).1 ≤ length text
unfolding getline
length-getline room [] = omega arith
length-getline zero (c ∷ text) = ground arith
length-getline (suc room) (c ∷ text) = ground (arith, length-getline room text)

length-c_str : (text : Bytes) → length (c_str text) ≤ length text
unfolding c_str
length-c_str [] = omega arith
length-c_str (c ∷ text) = ground (arith, length-c_str text)

-- The next rounds count only behind a line.
read_round-same :
    (str : Bytes) (failed : Bool) (m n : Outcome (List Addr))
    → (str ≡ []) ⊎ (m ≡ n)
    → read_round str failed m ≡ read_round str failed n
unfolding read_round
read_round-same [] failed m n h = refl
read_round-same (c ∷ str) failed m n h = ground arith

line_or_shorter :
    (text : Bytes) (f : ℕ)
    → length text ≤ suc f
    → (c_str (getline 254 text).0 ≡ []) ⊎ (length (getline 254 text).1 ≤ f)
line_or_shorter text f h =
    let line = getline 254 text in
    let short : length (c_str line.0) + length line.1 ≤ suc f =
      omega (arith, length-getline 254 text, length-c_str line.0, h) in
    empty_or_long (c_str line.0) (length line.1) f short
  where
    empty_or_long : (str : Bytes) (n f : ℕ) → length str + n ≤ suc f → (str ≡ []) ⊎ (n ≤ f)
    empty_or_long [] n f h = inl refl
    empty_or_long (c ∷ str) n f h = inr (omega arith)

-- Any bound on the rounds will do.
pub read_config_lines-enough :
    (f g : ℕ) (text : Bytes)
    → length text ≤ f
    → length text ≤ g
    → read_config_lines f text ≡ read_config_lines g text
unfolding read_config_lines getline c_str read_round
read_config_lines-enough zero zero text h k = refl
read_config_lines-enough zero (suc g) [] h k = refl
read_config_lines-enough zero (suc g) (c ∷ text) h k = absurd (omega arith)
read_config_lines-enough (suc f) zero [] h k = refl
read_config_lines-enough (suc f) zero (c ∷ text) h k = absurd (omega arith)
read_config_lines-enough (suc f) (suc g) text h k =
    let line = getline 254 text in
    read_round-same (c_str line.0) line.2 (read_config_lines f line.1) (read_config_lines g line.1)
      (elim (line_or_shorter text f h) [
        | inl empty ↦ inl empty
        | inr shorter_f ↦ elim (line_or_shorter text g k) [
          | inl empty ↦ inl empty
          | inr shorter_g ↦ inr (read_config_lines-enough f g line.1 shorter_f shorter_g)
        ]
      ])

-- A line of the file, with no zero in it and room for it in the buffer.
pub record IsLine (line : Bytes) : Type 0 where
  pub fits : length line ≤ 254
  pub no_end : Lacks 10 line
  pub no_zero : Lacks 0 line

-- What stands behind a line counts only if the line names a server.
unfoldable pub then_lines : Outcome Addr → Outcome (List Addr) → Outcome (List Addr)
then_lines first later = do server ← first; servers ← later; ok (server ∷ servers)

pub read_config_lines-line :
    (fuel c : ℕ) (str rest : Bytes)
    → IsLine (c ∷ str)
    → read_config_lines (suc fuel) ((c ∷ str) ++ 10 ∷ rest)
      ≡ then_lines (read_config_line (c ∷ str)) (read_config_lines fuel rest)
unfolding read_config_lines read_round then_lines
read_config_lines-line fuel c str rest line =
    let got = getline-line 254 (c ∷ str) rest line.fits line.no_end in
    ap (λ (l : Bytes × Bytes × Bool). read_round (c_str l.0) l.2 (read_config_lines fuel l.1)) got
    ∙ ap (λ l. read_round l false (read_config_lines fuel rest)) (c_str-all (c ∷ str) line.no_zero)
