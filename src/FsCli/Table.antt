-- ===== src/FsCli/Table.antt =====
-- examples/fs_cli/main.go: the table that a server prints is read back.
use goesl.Base.{
  ◌≡◌, refl, ap, ◌∙◌, Bool, true, false, List, [], ◌∷◌, ◌++◌, append_assoc, map, Bytes, ◌==◌, leb,
  length, All,
}
use goesl.Base.Outcome.{done}
use goesl.Text.{trim_space}
use goesl.Text.Trim.{IsBlank, trim_space-blank}
use goesl.FsCli.{
  SofiaEntry, pieces, drop_cr, scanned, scan_lines, split, extra_of, entry_of, content, is_rule,
  sofia_lines, sofia_status,
}
use goesl.FsCli.Words.{IsWord, spread, IsSpread, split-row, row-Ends}

-- A row of the table: blanks, and its words, each but the first behind a gap.
pub record Row : Type 0 where
  pub pad : Bytes
  pub name : Bytes
  pub type : Bytes × Bytes
  pub url : Bytes × Bytes
  pub status : Bytes × Bytes
  pub extra : List (Bytes × Bytes)

abbrev row_words : Row → List (Bytes × Bytes)
row_words r = r.type ∷ r.url ∷ r.status ∷ r.extra

abbrev pub row_text : Row → Bytes
row_text r = r.pad ++ (r.name ++ spread (row_words r))

abbrev pub row_entry : Row → SofiaEntry
row_entry r = record {
  name = r.name;
  type = r.type.1;
  url = r.url.1;
  status = r.status.1;
  extra = extra_of (map (λ p. p.1) r.extra);
}

-- A line that is not empty and does not begin the table or end it.
unfoldable pub starts_rule : Bytes → Bool
starts_rule [] = true
starts_rule (c ∷ t) = c == b'='

abbrev pub IsContent : Bytes → Type 0
IsContent t = starts_rule t ≡ false

pub record IsRow (r : Row) : Type 0 where
  pub pad : All IsBlank r.pad
  pub name : IsWord r.name
  pub words : IsSpread (row_words r)
  pub is_content : IsContent (row_text r)

trimmed :
    (p w : Bytes) (gs : List (Bytes × Bytes))
    → All IsBlank p
    → IsWord w
    → IsSpread gs
    → trim_space (p ++ (w ++ spread gs)) ≡ w ++ spread gs
trimmed p [] gs hp hw h = elim (hw.some_byte refl) [ ]
trimmed p (c ∷ w) gs hp hw h =
    trim_space-blank p (w ++ spread gs) c hp hw.visible.0 (row-Ends (c ∷ w) gs hw h)

content-row : (r : Row) → IsRow r → content (row_text r) ≡ done (row_entry r)
unfolding content entry_of
content-row r h =
    ap (λ t. entry_of (split t)) (trimmed r.pad r.name (row_words r) h.pad h.name h.words)
    ∙ ap entry_of (split-row r.name (row_words r) h.name h.words)

row_line :
    (t : Bytes) (ts : List Bytes) (e : SofiaEntry) (es : List SofiaEntry)
    → IsContent t
    → content t ≡ done e
    → sofia_lines true ts ≡ done es
    → sofia_lines true (t ∷ ts) ≡ done (e ∷ es)
unfolding sofia_lines is_rule starts_rule
row_line [] ts e es h c r = cc
row_line (x ∷ t) ts e es h c r = rw h (rw c (rw r refl))

rows_read :
    (rs : List Row) (u : Bytes) (rest : List Bytes)
    → All IsRow rs
    → sofia_lines true (map row_text rs ++ (b'=' ∷ u) ∷ rest) ≡ done (map row_entry rs)
rows_read [] u rest h = unfold sofia_lines is_rule in refl
rows_read (r ∷ rs) u rest (hr, h) =
    row_line (row_text r) (map row_text rs ++ (b'=' ∷ u) ∷ rest) (row_entry r) (map row_entry rs)
      hr.is_content (content-row r hr) (rows_read rs u rest h)

before_table :
    (ls ts : List Bytes) (u : Bytes)
    → All IsContent ls
    → sofia_lines false (ls ++ (b'=' ∷ u) ∷ ts) ≡ sofia_lines true ts
unfolding sofia_lines is_rule starts_rule
before_table [] ts u h = refl
before_table ([] ∷ ls) ts u (hl, h) = cc
before_table ((c ∷ l) ∷ ls) ts u (hl, h) = rw hl (before_table ls ts u h)

-- A line that the scanner gives as it is.
pub record IsLine (l : Bytes) : Type 0 where
  pub one_line : All (λ c. (c == b'\n') ≡ false) l
  pub no_cr : drop_cr l ≡ l
  pub fits : leb (length l) 65535 ≡ true

unfoldable pub unlines : List Bytes → Bytes
unlines [] = []
unlines (l ∷ ls) = l ++ (b'\n' ∷ unlines ls)

pieces-line :
    (l s : Bytes)
    → All (λ c. (c == b'\n') ≡ false) l
    → pieces (l ++ (b'\n' ∷ s)) ≡ (l, (pieces s).0 ∷ (pieces s).1)
unfolding pieces
pieces-line [] s h = refl
pieces-line (c ∷ l) s (hc, h) = rw hc (ap (λ r. (c ∷ r.0, r.1)) (pieces-line l s h))

scanned-line : (l q : Bytes) (qs : List Bytes) → IsLine l → scanned l (q ∷ qs) ≡ l ∷ scanned q qs
unfolding scanned
scanned-line [] q qs h = ap (λ v. v ∷ scanned q qs) h.no_cr
scanned-line (c ∷ l) q qs h = rw (h.fits) (ap (λ v. v ∷ scanned q qs) h.no_cr)

scan_lines-unlines :
    (ls : List Bytes) (s : Bytes)
    → All IsLine ls
    → scan_lines (unlines ls ++ s) ≡ ls ++ scan_lines s
unfolding scan_lines unlines
scan_lines-unlines [] s h = refl
scan_lines-unlines (l ∷ ls) s (hl, h) =
    ap (λ v. scan_lines v) (append_assoc l (b'\n' ∷ unlines ls) s)
    ∙ ap (λ r. scanned r.0 r.1) (pieces-line l (unlines ls ++ s) hl.one_line)
    ∙ scanned-line l (pieces (unlines ls ++ s)).0 (pieces (unlines ls ++ s)).1 hl
    ∙ ap (λ v. l ∷ v) (scan_lines-unlines ls s h)

-- The lines in front of the table, a line that begins with `=`, the rows, another such line.
abbrev pub table_lines : List Bytes → Bytes → List Row → Bytes → List Bytes
table_lines front u rs v = front ++ (b'=' ∷ u) ∷ (map row_text rs ++ (b'=' ∷ v) ∷ [])

-- Where the lines of a status, each of which fits the scanner's buffer, are a table whose rows have at
-- least four words of visible ASCII between blanks, SofiaStatus gives the words of each row in the
-- order of the rows, whatever stands behind the table.
pub sofia_status-table :
    (front : List Bytes) (u : Bytes) (rs : List Row) (v rest : Bytes)
    → All IsLine (table_lines front u rs v)
    → All IsContent front
    → All IsRow rs
    → sofia_status (unlines (table_lines front u rs v) ++ rest) ≡ done (map row_entry rs)
unfolding sofia_status
sofia_status-table front u rs v rest hl hf hr =
    ap (sofia_lines false) (
      scan_lines-unlines (table_lines front u rs v) rest hl
      ∙ append_assoc front ((b'=' ∷ u) ∷ (map row_text rs ++ (b'=' ∷ v) ∷ [])) (scan_lines rest))
    ∙ before_table front _ u hf
    ∙ ap (sofia_lines true) (append_assoc (map row_text rs) ((b'=' ∷ v) ∷ []) (scan_lines rest))
    ∙ rows_read rs v (scan_lines rest) hr
