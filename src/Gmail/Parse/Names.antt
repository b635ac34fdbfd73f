-- ===== src/Gmail/Parse/Names.antt =====
-- The addresses with a display name that parse.rs reads.
use Prim.Native.Char.{code}
use Prim.Native.String.{◌∷◌, ◌++◌}
use text.Mathlib.TextLemmas.{nil-append, cons-append, append_assoc}
use mail_mcp.Base.{
  ◌≡◌, refl, ap, sym, ◌∙◌, ◌≢◌, ℕ, true, String, none, some, arith, ==_iff, same, nat_key,
}
use mail_mcp.Base.Texts.{
  split_once, rsplit_once, is_whitespace, trim_start, trim_end, trim, trim_matches,
}
use mail_mcp.Mail.Types.{EmailAddress}
use mail_mcp.Gmail.Parse.Addresses.{name_or_none, parse_address}

rsplit_once-none :
    (c : ℕ) (s t : String)
    → rsplit_once c s ≡ none
    → rsplit_once c t ≡ none
    → rsplit_once c (s ++ t) ≡ none
unfolding rsplit_once
rsplit_once-none c String.[] t h k = rw (nil-append t) k
rsplit_once-none c (ch ∷ s) t h k = rw (cons-append ch s t) (ground (arith, rsplit_once-none c s t))

rsplit_once-append :
    (c : ℕ) (s t : String) (d : Prim.Native.Char.Char)
    → rsplit_once c t ≡ none
    → same (code d) c ≡ true
    → rsplit_once c (s ++ (d ∷ t)) ≡ some (s, t)
unfolding rsplit_once
rsplit_once-append c String.[] t d h k = rw (nil-append (d ∷ t)) (ground arith)
rsplit_once-append c (ch ∷ s) t d h k =
    rw (cons-append ch s (d ∷ t)) (ground (arith, rsplit_once-append c s t d h k))

split_once-append :
    (c : ℕ) (s t : String) (d : Prim.Native.Char.Char)
    → split_once c s ≡ none
    → same (code d) c ≡ true
    → split_once c (s ++ (d ∷ t)) ≡ some (s, t)
unfolding split_once
split_once-append c String.[] t d h k = rw (nil-append (d ∷ t)) (ground arith)
split_once-append c (ch ∷ s) t d h k =
    rw (cons-append ch s (d ∷ t)) (ground (arith, split_once-append c s t d))

trim_end-space : (s : String) → trim_end (s ++ " ") ≡ trim_end s
unfolding trim_end is_whitespace nat_key
trim_end-space String.[] = refl
trim_end-space (ch ∷ s) = rw (cons-append ch s " ", trim_end-space s) refl

trim_start-space : (s : String) → trim_start s ≢ "" → trim_start (s ++ " ") ≡ trim_start s ++ " "
unfolding trim_start
trim_start-space String.[] h = absurd (h refl)
trim_start-space (ch ∷ s) h =
    rw (cons-append ch s " ") (ground (arith, trim_start-space s, cons-append ch s " "))

trim-space : (s : String) → trim s ≡ s → s ≢ "" → trim (s ++ " ") ≡ s
unfolding trim trim_end
trim-space s h k =
    let start : trim_start s ≢ "" = λ e. k (sym h ∙ ap trim_end e) in
    rw (trim_start-space s start, trim_end-space (trim_start s)) h

-- A display name and an email, as RFC 5322 writes them.
unfoldable pub written : String → String → String
written name email = name ++ (" <" ++ (email ++ ">"))

written-eq : (name email : String) → written name email ≡ (name ++ " ") ++ ("<" ++ (email ++ ">"))
unfolding written
written-eq name email =
    ap (λ x. name ++ x) (append_assoc " " "<" (email ++ ">"))
    ∙ sym (append_assoc name " " ("<" ++ (email ++ ">")))

opening :
    (name email : String)
    → rsplit_once 60 email ≡ none
    → rsplit_once 60 (written name email) ≡ some (name ++ " ", email ++ ">")
unfolding rsplit_once nat_key
opening name email h =
    rw (written-eq name email, cons-append _ "" (email ++ ">"), nil-append (email ++ ">"))
      (rsplit_once-append 60 (name ++ " ") (email ++ ">") _ (rsplit_once-none 60 email ">" h refl)
        refl)

parse_address-eq :
    (raw before after email rest : String)
    → rsplit_once 60 raw ≡ some (before, after)
    → split_once 62 after ≡ some (email, rest)
    → parse_address raw
      ≡ record { email = trim email; name = name_or_none (trim (trim_matches 34 (trim before))) }
unfolding parse_address
parse_address-eq raw before after email rest h k = cc

name_or_none-eq : (name : String) → name ≢ "" → name_or_none name ≡ some name
unfolding name_or_none
name_or_none-eq name h = ground (arith, ==_iff name "")

-- What an address needs to be told from its surroundings: name and email are trimmed, the name is not
-- empty and neither begins nor ends with a quotation mark, the email has no angle bracket, and there
-- is no comma.
pub record IsPlain (a : String × String) : Type 0 where
  pub trimmed : trim a.0 ≡ a.0
  pub unquoted : trim_matches 34 a.0 ≡ a.0
  pub named : a.0 ≢ ""
  pub email_trimmed : trim a.1 ≡ a.1
  pub no_open : rsplit_once 60 a.1 ≡ none
  pub no_close : split_once 62 a.1 ≡ none
  pub name_no_comma : split_once 44 a.0 ≡ none
  pub email_no_comma : split_once 44 a.1 ≡ none

unfoldable pub address : String × String → EmailAddress
address (name, email) = record { email = email; name = some name }

pub parse_address-written :
    (name email : String)
    → IsPlain (name, email)
    → parse_address (written name email) ≡ address (name, email)
unfolding nat_key address
parse_address-written name email p =
    parse_address-eq (written name email) (name ++ " ") (email ++ ">") email ""
      (opening name email p.no_open) (split_once-append 62 email "" _ p.no_close refl)
    ∙ cc (
      p.email_trimmed,
      trim-space name p.trimmed p.named,
      p.unquoted,
      p.trimmed,
      name_or_none-eq name p.named,
    )
