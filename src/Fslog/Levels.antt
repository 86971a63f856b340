-- ===== src/Fslog/Levels.antt =====
-- The two directions of fslog.go together.
use goesl.Base.{
  ℕ, zero, suc, ◌+◌, ◌≤◌, ◌≡◌, inl, inr, refl, true, false, ltb, leb, List, [], ◌∷◌, Bytes, codes,
  arith, ◌↔◌, map, Bool-cases, ◌∙◌, length, if◌then◌else◌,
}
use goesl.Base.Int.{ℤ, pos, negsuc, is_neg, leb_ℤ, ltb_ℤ}
use goesl.Base.Outcome.{done, panic, index_range}
use goesl.Text.{equal_fold, lower_byte}
use goesl.Text.Number.{Parsed, parsed, bad_syntax, atoi, format_int}
use goesl.Text.Number.RoundTrip.{IsInt64, atoi-format_int}
use goesl.Text.Laws.{IsAscii, equal_fold_lower}
use goesl.Fslog.{
  fslog_level_strings, level_invalid, below_one, find_level, level_of_int, level_of,
  fslog_string2_level, to_string, level_debug,
}

-- The levels that have a name of their own: DISABLE, at -1, up to DEBUG, at 7.
abbrev pub IsNamed : ℤ → Type 0
IsNamed (pos n) = n ≤ 7
IsNamed (negsuc n) = n ≡ 0

-- What the conversion can give: -1 for DISABLE, or 0 to 64.
abbrev pub IsLevel : ℤ → Type 0
IsLevel (pos n) = n ≤ 64
IsLevel (negsuc n) = n ≡ 0

find_level-IsLevel :
    (s : Bytes) (x : ℕ) (names : List Bytes)
    → x + length names ≤ 65
    → IsLevel (find_level s x names)
unfolding find_level
find_level-IsLevel s x [] h = omega arith
find_level-IsLevel s x (name ∷ names) h = elim (Bool-cases (equal_fold name s)) [
  | inl e ↦ rw e (below_one-IsLevel x (omega arith))
  | inr e ↦ rw e (find_level-IsLevel s (suc x) names (omega arith))
]
  where
    below_one-IsLevel : (x : ℕ) → x ≤ 64 → IsLevel (below_one x)
    below_one-IsLevel zero h = refl
    below_one-IsLevel (suc x) h = omega arith

level_of-IsLevel : (s : Bytes) (p : Parsed) → IsLevel (level_of s p)
unfolding level_of level_of_int
level_of-IsLevel s (parsed x) = ground arith
level_of-IsLevel s _ = find_level-IsLevel s 0 fslog_level_strings (omega arith)

-- Every text, numbers and unknown names included, becomes a level from -1 to 64.
pub fslog_string2_level-IsLevel : (s : Bytes) → IsLevel (fslog_string2_level s)
unfolding fslog_string2_level
fslog_string2_level-IsLevel s = level_of-IsLevel s (atoi s)

level_string-pos : (n : ℕ) → n ≤ 7 → (name : Bytes) × (to_string (pos n) ≡ done name)
unfolding to_string
level_string-pos zero h = (_, refl)
level_string-pos (suc zero) h = (_, refl)
level_string-pos (suc (suc zero)) h = (_, refl)
level_string-pos (suc (suc (suc zero))) h = (_, refl)
level_string-pos (suc (suc (suc (suc zero)))) h = (_, refl)
level_string-pos (suc (suc (suc (suc (suc zero))))) h = (_, refl)
level_string-pos (suc (suc (suc (suc (suc (suc zero)))))) h = (_, refl)
level_string-pos (suc (suc (suc (suc (suc (suc (suc zero))))))) h = (_, refl)
level_string-pos (suc (suc (suc (suc (suc (suc (suc (suc n)))))))) h = absurd (omega arith)

to_string-high : (n : ℕ) → ltb 7 n ≡ true → to_string (pos n) ≡ to_string level_debug
unfolding to_string
to_string-high n h = rw h

to_string-done :
    (lv : ℤ) → ltb_ℤ lv (negsuc 0) ≡ false → (name : Bytes) × (to_string lv ≡ done name)
unfolding to_string
to_string-done (pos n) h = elim (Bool-cases (ltb 7 n)) [
  | inl high ↦ (_, to_string-high n high)
  | inr low ↦ level_string-pos n (ground arith)
]
to_string-done (negsuc zero) h = (_, refl)
to_string-done (negsuc (suc n)) h = absurd (ground arith)

-- A level has a print unless it lies below DISABLE, where the table is indexed out of range.
pub to_string-panic : (lv : ℤ) → (to_string lv ≡ panic index_range) ↔ (ltb_ℤ lv (negsuc 0) ≡ true)
unfolding to_string
to_string-panic (pos n) = (λ p. cc (p, (to_string-done (pos n) refl).1), λ (e : false ≡ true). cc)
to_string-panic (negsuc zero) = ground arith
to_string-panic (negsuc (suc n)) = ground arith

-- No text makes a level whose print panics.
pub to_string-fslog_string2_level :
    (s : Bytes) → (name : Bytes) × (to_string (fslog_string2_level s) ≡ done name)
to_string-fslog_string2_level s =
    to_string-done (fslog_string2_level s)
      (IsLevel-ltb_ℤ (fslog_string2_level s) (fslog_string2_level-IsLevel s))
  where
    IsLevel-ltb_ℤ : (lv : ℤ) → IsLevel lv → ltb_ℤ lv (negsuc 0) ≡ false
    IsLevel-ltb_ℤ (pos n) h = refl
    IsLevel-ltb_ℤ (negsuc n) h = ground arith

abbrev StartsWithLetter : Bytes → Type 0
StartsWithLetter [] = ⊥
StartsWithLetter (c ∷ s) = leb b'a' (lower_byte c) ≡ true

atoi-letter : (s : Bytes) → StartsWithLetter s → atoi s ≡ bad_syntax
unfolding atoi lower_byte
atoi-letter [] h = absurd h
atoi-letter (c ∷ s) h = ground arith

StartsWithLetter-lower :
    (s name : Bytes)
    → map lower_byte s ≡ map lower_byte name
    → StartsWithLetter name
    → StartsWithLetter s
StartsWithLetter-lower s [] e h = absurd h
StartsWithLetter-lower [] (c ∷ name) e h = cc e
StartsWithLetter-lower (b ∷ s) (c ∷ name) e h =
    let first : lower_byte b ≡ lower_byte c = cc in rw first h

find_level-lower :
    (s name : Bytes) (x : ℕ) (names : List Bytes)
    → ((t : Bytes) → equal_fold t s ≡ equal_fold t name)
    → find_level s x names ≡ find_level name x names
unfolding find_level
find_level-lower s name x [] e = refl
find_level-lower s name x (t ∷ names) e = rw (e t, find_level-lower s name (suc x) names e)

-- A text that is a name but for its case has the level that the table gives the name.
read_name :
    (name s : Bytes)
    → IsAscii name
    → StartsWithLetter name
    → IsAscii s
    → map lower_byte s ≡ map lower_byte name
    → fslog_string2_level s ≡ find_level name 0 fslog_level_strings
unfolding fslog_string2_level
read_name name s an ln a e = rw (atoi-letter s (StartsWithLetter-lower s name e ln)) (
    unfold level_of in
    find_level-lower s name 0 fslog_level_strings (λ t. equal_fold_lower t s name a an e))

abbrev ReadsBack : ℤ → Type 0
ReadsBack lv =
    (name : Bytes) × (to_string lv ≡ done name)
    × ((s : Bytes)
        → IsAscii s
        → map lower_byte s ≡ map lower_byte name
        → fslog_string2_level s ≡ lv)

in_table :
    (name : Bytes) (lv : ℤ)
    → to_string lv ≡ done name
    → IsAscii name
    → StartsWithLetter name
    → find_level name 0 fslog_level_strings ≡ lv
    → ReadsBack lv
in_table name lv p an ln f = (name, p, λ s a e. read_name name s an ln a e ∙ f)

-- Each level from DISABLE to DEBUG has a print, and its print is read back as that level, in any
-- mixture of upper and lower case.
pub fslog_string2_level-to_string :
    (lv : ℤ)
    → IsNamed lv
    → (name : Bytes) × (to_string lv ≡ done name)
      × ((s : Bytes)
          → IsAscii s
          → map lower_byte s ≡ map lower_byte name
          → fslog_string2_level s ≡ lv)
unfolding to_string find_level equal_fold
fslog_string2_level-to_string (pos zero) h =
    in_table (codes "CONSOLE") (pos 0) refl (omega arith) refl refl
fslog_string2_level-to_string (pos (suc zero)) h =
    in_table (codes "ALERT") (pos 1) refl (omega arith) refl refl
fslog_string2_level-to_string (pos (suc (suc zero))) h =
    in_table (codes "CRIT") (pos 2) refl (omega arith) refl refl
fslog_string2_level-to_string (pos (suc (suc (suc zero)))) h =
    in_table (codes "ERR") (pos 3) refl (omega arith) refl refl
fslog_string2_level-to_string (pos (suc (suc (suc (suc zero))))) h =
    in_table (codes "WARNING") (pos 4) refl (omega arith) refl refl
fslog_string2_level-to_string (pos (suc (suc (suc (suc (suc zero)))))) h =
    in_table (codes "NOTICE") (pos 5) refl (omega arith) refl refl
fslog_string2_level-to_string (pos (suc (suc (suc (suc (suc (suc zero))))))) h =
    in_table (codes "INFO") (pos 6) refl (omega arith) refl refl
fslog_string2_level-to_string (pos (suc (suc (suc (suc (suc (suc (suc zero)))))))) h =
    in_table (codes "DEBUG") (pos 7) refl (omega arith) refl refl
fslog_string2_level-to_string (pos (suc (suc (suc (suc (suc (suc (suc (suc n))))))))) h =
    absurd (omega arith)
fslog_string2_level-to_string (negsuc zero) h =
    in_table (codes "DISABLE") (negsuc 0) refl (omega arith) refl refl
fslog_string2_level-to_string (negsuc (suc n)) h = absurd (omega arith)

-- The decimal print of a number is read as that level from 0 to 64, as 0 below and as 63 above.
pub fslog_string2_level-format_int :
    (i : ℤ)
    → IsInt64 i
    → fslog_string2_level (format_int i)
      ≡ (if is_neg i then pos 0 else if leb_ℤ i level_invalid then i else pos 63)
unfolding fslog_string2_level level_of level_of_int
fslog_string2_level-format_int i h = rw (atoi-format_int i h) (ground arith)
