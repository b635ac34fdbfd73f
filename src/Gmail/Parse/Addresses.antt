-- ===== src/Gmail/Parse/Addresses.antt =====
-- parse.rs: the addresses in the headers of a message.
--
-- Characters are given by their code points: 34 is a quotation mark, 44 a comma, 60 and 62 are angle brackets.
use mail_mcp.Base.{String, Option, none, some, List, map, if◌then◌else◌, ◌==◌}
use mail_mcp.Base.Texts.{split_once, rsplit_once, split, trim, trim_matches}
use mail_mcp.Mail.Types.{EmailAddress}

-- `if name.is_empty() { None } else { Some(name) }`
unfoldable pub name_or_none : String → Option String
name_or_none name = if name == "" then none else some name

-- What follows the two `if let`.
unfoldable pub bare_address : String → EmailAddress
bare_address raw = record { email = trim raw; name = none }

-- `parse_address`
unfoldable pub parse_address : String → EmailAddress
parse_address raw = elim (rsplit_once 60 raw) [
  | none ↦ bare_address raw
  | some (before, after) ↦ elim (split_once 62 after) [
    | none ↦ bare_address raw
    | some (email, _) ↦ record {
      email = trim email;
      name = name_or_none (trim (trim_matches 34 (trim before)));
    }
  ]
]

-- `parse_address_list`
unfoldable pub parse_address_list : String → List EmailAddress
parse_address_list raw = map parse_address (split 44 raw)
