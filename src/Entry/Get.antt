-- ===== src/Entry/Get.antt =====
-- `Entries::get` against the log.
use my_raft.Prelude.{ℕ, ◌<◌, ◌≡◌, refl, ◌∙◌, get_elem?, get_elem?-take, some, arith, leb}
use my_raft.Prelude.Int.{ℤ, pos, negsuc}
use my_raft.Prelude.Outcome.{ok, fail_ne_ok, else-eq-ok, get_out_of_range}
use my_raft.Wire.{Entry}
use my_raft.Entry.{Entries, log, get}

-- What `get` returns is the entry of the log at that position.
pub get-log :
    (es : Entries) (i : ℤ) (e : Entry)
    → get es i ≡ ok e
    → (k : ℕ) × (i ≡ pos k) × (k < es.size) × (get_elem? (log es) k ≡ some e)
unfolding get
get-log es (pos k) e h =
    let (below, found) = else-eq-ok (leb es.size k) _ get_out_of_range h in
    (k, refl, ground arith, get_elem?-take es.size es.entries k (ground arith) ∙ ground arith)
get-log es (negsuc k) e h = absurd (fail_ne_ok h)

-- Every entry of the log is found.
pub get-ok :
    (es : Entries) (k : ℕ) (e : Entry)
    → k < es.size
    → get_elem? (log es) k ≡ some e
    → get es (pos k) ≡ ok e
unfolding get
get-ok es k e below h = ground (arith, get_elem?-take es.size es.entries k below)
