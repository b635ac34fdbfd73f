-- ===== src/Base/Texts.antt =====
-- The operations of Rust's `str` that the program uses, on native texts; a character is given by
-- its code point.
pub mod Splitting
use Prim.Native.Char.{Char, code}
use Prim.Native.Nat.{ℕ}
use Prim.Native.String.{String, [], ◌∷◌}
use text.Mathlib.Text
use mathlib.Core.Bool.{Bool, ◌||◌, ◌&&◌}
use mathlib.Core.Option.{Option, none, some}
use mathlib.Core.List.{List, [], ◌∷◌}
use mail_mcp.Base.Tests.{if◌then◌else◌, same, leb, nat_key}

-- `split_once(c)`
unfoldable pub split_once : ℕ → String → Option (String × String)
split_once c [] = none
split_once c (ch ∷ s) =
    let rest = split_once c s in
    if same (code ch) c
    then some ("", s)
    else elim rest [ none ↦ none | some (before, after) ↦ some (ch ∷ before, after) ]

abbrev push_first : Char → List String → List String
push_first ch [] = (ch ∷ []) ∷ []
push_first ch (word ∷ words) = (ch ∷ word) ∷ words

-- `split(c)`: never empty, and the text itself where `c` does not occur.
unfoldable pub split : ℕ → String → List String
split c [] = "" ∷ []
split c (ch ∷ s) =
    let rest = split c s in if same (code ch) c then "" ∷ rest else push_first ch rest

-- `char::is_whitespace`
unfoldable pub is_whitespace : ℕ → Bool
is_whitespace c =
    (leb 9 c && leb c 13)
    || same c 32
    || same c 133
    || same c 160
    || same c 5760
    || (leb 8192 c && leb c 8202)
    || same c 8232
    || same c 8233
    || same c 8239
    || same c 8287
    || same c 12288

-- The words of the text, the first of them one that the characters before it may belong to.
unfoldable pub words_from : String → String × List String
words_from [] = ("", [])
words_from (ch ∷ s) =
    let (word, words) = words_from s in
    if is_whitespace (code ch)
    then ("", if Text.◌==◌ word "" then words else word ∷ words)
    else (ch ∷ word, words)

-- `split_whitespace()`
unfoldable pub split_whitespace : String → List String
split_whitespace s =
    let (word, words) = words_from s in if Text.◌==◌ word "" then words else word ∷ words

-- `strip_suffix('\r')` where it applies
unfoldable pub trim_cr : String → String
trim_cr [] = []
trim_cr (ch ∷ s) =
    let rest = trim_cr s in if same (code ch) 13 && Text.◌==◌ s "" then [] else ch ∷ rest

-- `lines().next().unwrap_or("")`
unfoldable pub first_line : String → String
first_line s = elim (split_once 10 s) [ none ↦ s | some (line, _) ↦ trim_cr line ]

-- `strip_prefix(p)`
unfoldable pub strip_prefix : String → String → Option String
strip_prefix [] s = some s
strip_prefix (p ∷ ps) [] = none
strip_prefix (p ∷ ps) (ch ∷ s) = if same (code p) (code ch) then strip_prefix ps s else none

-- `trim_end()`
unfoldable pub trim_end : String → String
trim_end [] = []
trim_end (ch ∷ s) =
    let rest = trim_end s in if is_whitespace (code ch) && Text.◌==◌ rest "" then [] else ch ∷ rest

-- `trim_start()`
unfoldable pub trim_start : String → String
trim_start [] = []
trim_start (ch ∷ s) = let rest = trim_start s in if is_whitespace (code ch) then rest else ch ∷ s

-- `trim()`
unfoldable pub trim : String → String
trim s = trim_end (trim_start s)

-- The parts before and after the last `c`.
unfoldable pub rsplit_once : ℕ → String → Option (String × String)
rsplit_once c [] = none
rsplit_once c (ch ∷ s) = elim (rsplit_once c s) [
  | none ↦ if same (code ch) c then some ("", s) else none
  | some (before, after) ↦ some (ch ∷ before, after)
]

unfoldable pub trim_matches_end : ℕ → String → String
trim_matches_end c [] = []
trim_matches_end c (ch ∷ s) =
    let rest = trim_matches_end c s in
    if same (code ch) c && Text.◌==◌ rest "" then [] else ch ∷ rest

unfoldable pub trim_matches_start : ℕ → String → String
trim_matches_start c [] = []
trim_matches_start c (ch ∷ s) =
    let rest = trim_matches_start c s in if same (code ch) c then rest else ch ∷ s

-- `trim_matches(c)`
unfoldable pub trim_matches : ℕ → String → String
trim_matches c s = trim_matches_end c (trim_matches_start c s)
