-- ===== src/Gmail/Parse/Lists.antt =====
-- The lists of addresses that parse.rs reads.
use Prim.Native.String.{◌∷◌, ◌++◌}
use Prim.Native.Char.{Char, code}
use text.Mathlib.TextLemmas.{nil-append, cons-append}
use mail_mcp.Base.{
  ◌≡◌, refl, ap, ◌∙◌, true, String, none, List, [], map, arith, same, nat_key, Option-cases, inl,
  inr, false, All,
}
use mail_mcp.Base.Texts.Splitting.{split_once-none, split-none, split-append, split-cons}
use mail_mcp.Base.Texts.{split_once, rsplit_once, split, trim_start, trim, is_whitespace}
use mail_mcp.Gmail.Parse.Addresses.{bare_address, parse_address, parse_address_list}
use mail_mcp.Gmail.Parse.Names.{written, IsPlain, address, parse_address-written}

trim-space : (d : Char) (s : String) → is_whitespace (code d) ≡ true → trim (d ∷ s) ≡ trim s
unfolding trim trim_start
trim-space d s h = ground arith

parse_address-space :
    (d : Char) (raw : String)
    → is_whitespace (code d) ≡ true
    → same (code d) 60 ≡ false
    → parse_address (d ∷ raw) ≡ parse_address raw
unfolding parse_address bare_address rsplit_once
parse_address-space d raw h k = elim (Option-cases (rsplit_once 60 raw)) [
  | inl absent ↦ ground (arith, trim-space d raw h)
  | inr (parts, present) ↦ ground (arith, trim-space d raw h, trim-space d parts.0 h)
]

parse_address_list-space : (raw : String) → parse_address_list (" " ++ raw) ≡ parse_address_list raw
unfolding parse_address_list split nat_key is_whitespace
parse_address_list-space raw =
    let (word, words, e) = split-cons 44 raw in
    rw (cons-append _ "" raw, nil-append raw, e)
      (ap (λ a. List.◌∷◌ a (map parse_address words)) (parse_address-space _ word refl refl))

-- A header with a list of addresses, as RFC 5322 writes it.
unfoldable pub listed : String × String → List (String × String) → String
listed (name, email) [] = written name email
listed (name, email) (List.◌∷◌ a more) = written name email ++ ("," ++ (" " ++ listed a more))

written-no_comma :
    (name email : String) → IsPlain (name, email) → split_once 44 (written name email) ≡ none
unfolding written split_once nat_key
written-no_comma name email p = split_once-none 44 name (" <" ++ (email ++ ">")) p.name_no_comma (
    split_once-none 44 " <" (email ++ ">") refl
      (split_once-none 44 email ">" p.email_no_comma refl))

parse_address_list-alone :
    (raw : String)
    → split_once 44 raw ≡ none
    → parse_address_list raw ≡ List.◌∷◌ (parse_address raw) []
unfolding parse_address_list
parse_address_list-alone raw h = rw (split-none 44 raw h) refl

parse_address_list-append :
    (raw rest : String)
    → split_once 44 raw ≡ none
    → parse_address_list (raw ++ ("," ++ rest))
      ≡ List.◌∷◌ (parse_address raw) (parse_address_list rest)
unfolding parse_address_list nat_key
parse_address_list-append raw rest h =
    rw (cons-append _ "" rest, nil-append rest, split-append 44 raw rest _ h refl) refl

-- A header that lists addresses with display names, as RFC 5322 writes them, is read as these
-- addresses in their order. Names and emails must be trimmed and have no comma, a name must not be
-- empty nor begin or end with a quotation mark, and an email must have no angle bracket.
pub parse_address_list-listed :
    (a : String × String) (more : List (String × String))
    → All IsPlain (List.◌∷◌ a more)
    → parse_address_list (listed a more) ≡ map address (List.◌∷◌ a more)
unfolding listed
parse_address_list-listed (name, email) [] (p, _) =
    parse_address_list-alone (written name email) (written-no_comma name email p)
    ∙ ap (λ e. List.◌∷◌ e []) (parse_address-written name email p)
parse_address_list-listed (name, email) (List.◌∷◌ a more) (p, ps) =
    parse_address_list-append (written name email) (" " ++ listed a more)
      (written-no_comma name email p)
    ∙ cc (
      parse_address-written name email p,
      parse_address_list-space (listed a more),
      parse_address_list-listed a more ps,
    )
