-- ===== src/Tests/Tables.antt =====
-- A status of sofia, read by the example fs_cli.
use goesl.Base.{
  left_true, right_true, ℕ, ◌≡◌, refl, Bool, true, false, ◌&&◌, Bool-cases, inl, inr, List, [], ◌∷◌,
  ◌++◌, Bytes, codes, leb, ◌==◌, All, arith, length, ◌≢◌,
}
use goesl.Base.Outcome.{done}
use goesl.Text.{within, contains_byte}
use goesl.Text.Trim.{IsVisible}
use goesl.FsCli.{extra_of, sofia_status, drop_cr}
use goesl.FsCli.Words.{IsWord, spread}
use goesl.FsCli.Table.{Row, IsRow, IsLine, unlines, table_lines, starts_rule, sofia_status-table}

one_line : (s : Bytes) → contains_byte b'\n' s ≡ false → All (λ c. (c == b'\n') ≡ false) s
unfolding contains_byte
one_line [] h = tt
one_line (c ∷ s) h = elim (Bool-cases (c == b'\n')) [
  | inl newline ↦ cc
  | inr other ↦ (other, one_line s (rw other at h))
]

visible_only : Bytes → Bool
visible_only [] = true
visible_only (c ∷ s) = within 33 126 c && visible_only s

within-IsVisible : (c : ℕ) → within 33 126 c ≡ true → IsVisible c
within-IsVisible c h = ground arith

word_of : (s : Bytes) → visible_only s ≡ true → All IsVisible s
unfolding visible_only
word_of [] h = tt
word_of (c ∷ s) h = (
  within-IsVisible c (left_true (within 33 126 c) (visible_only s) h),
  word_of s (right_true (within 33 126 c) (visible_only s) h),
)

abbrev pub internal : Row
internal = record {
  pad = codes "  ";
  name = codes "internal";
  type = (codes "\t", codes "profile");
  url = (codes "  ", codes "sip:a@b");
  status = (codes "\t", codes "RUNNING");
  extra = (codes " ", codes "(0)") ∷ [];
}

abbrev pub front : List Bytes
front = codes "Name Type Data State" ∷ []

abbrev pub rule : Bytes
rule = codes "=="

abbrev pub behind : Bytes
behind = codes "1 profile\n\n"

is_line :
    (s : Bytes)
    → contains_byte b'\n' s ≡ false
    → drop_cr s ≡ s
    → leb (length s) 65535 ≡ true
    → IsLine s
is_line s h c l = record { one_line = one_line s h; no_cr = c; fits = l }

is_word : (s : Bytes) → visible_only s ≡ true → s ≢ [] → IsWord s
is_word s h n = record { visible = word_of s h; some_byte = n }

pub table_lines-IsLine : All IsLine (table_lines front rule (internal ∷ []) rule)
unfolding contains_byte drop_cr spread
table_lines-IsLine = (
  is_line _ refl refl refl,
  (is_line _ refl refl refl, (is_line _ refl refl refl, (is_line _ refl refl refl, tt))),
)

pub internal-IsRow : IsRow internal
unfolding visible_only spread starts_rule
internal-IsRow = record {
  pad = (refl, (refl, tt));
  name = is_word _ refl (λ e. cc);
  words = (
    (record { blank = (refl, tt); some_byte = λ e. cc }, is_word _ refl (λ e. cc)),
    (
      (record { blank = (refl, (refl, tt)); some_byte = λ e. cc }, is_word _ refl (λ e. cc)),
      (
        (record { blank = (refl, tt); some_byte = λ e. cc }, is_word _ refl (λ e. cc)),
        ((record { blank = (refl, tt); some_byte = λ e. cc }, is_word _ refl (λ e. cc)), tt),
      ),
    ),
  );
  is_content = refl;
}

sofia_status-table_example :
    sofia_status (unlines (table_lines front rule (internal ∷ []) rule) ++ behind)
    ≡ done (
        record {
          name = codes "internal";
          type = codes "profile";
          url = codes "sip:a@b";
          status = codes "RUNNING";
          extra = codes "(0)";
        }
        ∷ [])
unfolding starts_rule extra_of
sofia_status-table_example =
    sofia_status-table front rule (internal ∷ []) rule behind table_lines-IsLine (refl, tt)
      (internal-IsRow, tt)
