-- ===== src/Base/Texts/Splitting.antt =====
-- Texts that are divided at a character.
use Prim.Native.Char.{Char, code}
use Prim.Native.Nat.{ℕ}
use Prim.Native.String.{String, ◌∷◌, ◌++◌}
use text.Mathlib.TextLemmas.{nil-append, cons-append}
use mathlib.Core.Path.{◌≡◌, refl}
use mathlib.Core.Logic.{inl, inr}
use mathlib.Core.Bool.{true}
use mathlib.Core.Option.{none}
use mathlib.Core.List.{List, []}
use native.Mathlib.Omega.{arith}
use mail_mcp.Base.Tests.{same, nat_key, Bool-cases}
use mail_mcp.Base.Texts.{split_once, split}

pub split_once-none :
    (c : ℕ) (s t : String)
    → split_once c s ≡ none
    → split_once c t ≡ none
    → split_once c (s ++ t) ≡ none
unfolding split_once
split_once-none c String.[] t h k = rw (nil-append t) k
split_once-none c (ch ∷ s) t h k = rw (cons-append ch s t) (ground (arith, split_once-none c s t))

pub split-none : (c : ℕ) (s : String) → split_once c s ≡ none → split c s ≡ List.◌∷◌ s []
unfolding split_once split
split-none c String.[] h = refl
split-none c (ch ∷ s) h = ground (arith, split-none c s)

pub split-append :
    (c : ℕ) (s t : String) (d : Char)
    → split_once c s ≡ none
    → same (code d) c ≡ true
    → split c (s ++ (d ∷ t)) ≡ List.◌∷◌ s (split c t)
unfolding split_once split
split-append c String.[] t d h k = rw (nil-append (d ∷ t)) (ground arith)
split-append c (ch ∷ s) t d h k =
    rw (cons-append ch s (d ∷ t)) (ground (arith, split-append c s t d))

pub split-cons :
    (c : ℕ) (s : String)
    → (word : String) × (words : List String) × (split c s ≡ List.◌∷◌ word words)
unfolding split
split-cons c String.[] = ("", [], refl)
split-cons c (ch ∷ s) =
    let (word, words, e) = split-cons c s in
    elim (Bool-cases (same (code ch) c)) [
      | inl cut ↦ ("", split c s, ground arith)
      | inr kept ↦ (ch ∷ word, words, ground arith)
    ]
