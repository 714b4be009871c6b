-- ===== src/Text/Lines.antt =====
-- `str::lines`, as the code reads `metadata.txt`.
use pdq.Prelude.{
  ◌≤◌, ◌≡◌, ◌≢◌, refl, List, [], ◌∷◌, ◌++◌, append_assoc, append-nil, arith, ◌==◌, if◌then◌else◌,
  All, is_empty, ap,
}
use pdq.Text.{Str}

abbrev pub newline : Str
newline = b'\n' ∷ []

-- `strip_suffix('\r')`, or the line itself
unfoldable pub strip_cr : Str → Str
strip_cr [] = []
strip_cr (c ∷ []) = if c == b'\r' then [] else c ∷ []
strip_cr (c ∷ d ∷ s) = c ∷ strip_cr (d ∷ s)

-- The last argument is the line so far. Only a line that ends in `\n` loses its `\r`.
lines_from : Str → Str → List Str
unfolding strip_cr
lines_from [] cur = if is_empty cur then [] else cur ∷ []
lines_from (c ∷ s) cur =
    let cut = strip_cr cur ∷ lines_from s [] in
    let rest = lines_from s (cur ++ c ∷ []) in if c == b'\n' then cut else rest

unfoldable pub lines : Str → List Str
unfolding lines_from
lines s = lines_from s []

-- A text that `lines` gives back as it was written: no `\n` in it, no `\r` at its end.
pub record IsLine (s : Str) : Type 0 where
  pub no_newline : All (λ c. c ≢ b'\n') s
  pub no_cr : strip_cr s ≡ s

lines_from-line :
    (l rest cur : Str)
    → All (λ c. c ≢ b'\n') l
    → lines_from (l ++ newline ++ rest) cur ≡ strip_cr (cur ++ l) ∷ lines_from rest []
unfolding lines_from
lines_from-line [] rest cur h = rw append-nil
lines_from-line (c ∷ l) rest cur (hc, h) =
    ground (arith, lines_from-line l rest (cur ++ c ∷ []) h, append_assoc cur (c ∷ []) l)

pub lines-line : (l rest : Str) → IsLine l → lines (l ++ newline ++ rest) ≡ l ∷ lines rest
unfolding lines
lines-line l rest h = rw (lines_from-line l rest [] h.no_newline, h.no_cr)

strip_cr-digits : (s : Str) → All (λ c. (b'0' ≤ c) × (c ≤ b'9')) s → strip_cr s ≡ s
unfolding strip_cr
strip_cr-digits [] h = refl
strip_cr-digits (c ∷ []) (hc, h) = ground arith
strip_cr-digits (c ∷ d ∷ s) (hc, h) = ap (◌∷◌ c) (strip_cr-digits (d ∷ s) h)

no_newline-digits : (s : Str) → All (λ c. (b'0' ≤ c) × (c ≤ b'9')) s → All (λ c. c ≢ b'\n') s
no_newline-digits [] h = tt
no_newline-digits (c ∷ s) (hc, h) = (omega arith, no_newline-digits s h)

pub digits-IsLine : (s : Str) → All (λ c. (b'0' ≤ c) × (c ≤ b'9')) s → IsLine s
digits-IsLine s h = record { no_newline = no_newline-digits s h; no_cr = strip_cr-digits s h }

pub lines-nil : lines [] ≡ []
unfolding lines
lines-nil = refl
