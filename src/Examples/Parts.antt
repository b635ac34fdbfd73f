-- ===== src/Examples/Parts.antt =====
-- A message with an HTML body and a named text file, in a multipart part, and headers with addresses.
use mail_mcp.Base.{◌≡◌, refl, String, Option, some, none, [], ◌∷◌, nat_key}
use mail_mcp.Gmail.Parse.{
  RawPart, PartInfo, part, nil, cons, to_lower, eq_lower, is_none, attachment, attach, decode_body,
  visit, walk_parts, is_system_label, first_folder, primary_folder,
}
use mail_mcp.Gmail.Parse.Parts.{flatten}
use mail_mcp.Gmail.Parse.Bodies.{find_map, body_of, unread, walk_parts-bodies}
use mail_mcp.Base.Texts.{
  split, split_once, rsplit_once, is_whitespace, trim_start, trim_end, trim, trim_matches_start,
  trim_matches_end, trim_matches,
}
use mail_mcp.Gmail.Parse.Addresses.{name_or_none, bare_address, parse_address, parse_address_list}
use text.Mathlib.TextLemmas.{cons≢nil}
use mail_mcp.Gmail.Parse.Names.{written, IsPlain, address}
use mail_mcp.Gmail.Parse.Lists.{listed, parse_address_list-listed}

parts : Unit {0}
unfolding to_lower eq_lower is_none attachment attach decode_body visit walk_parts is_system_label
    first_folder primary_folder flatten nat_key
parts = tt

addresses : Unit {0}
unfolding split split_once rsplit_once is_whitespace trim_start trim_end trim trim_matches_start
    trim_matches_end trim_matches name_or_none bare_address parse_address parse_address_list written
    address listed
addresses = tt

abbrev plain : String → Option String
plain s = some s

abbrev html : PartInfo
html = record {
  mime_type = "Text/HTML";
  filename = "";
  body = some (record { size = 9; data_text = some "<p>hi</p>"; attachment_id = none });
}

abbrev notes : PartInfo
notes = record {
  mime_type = "text/plain";
  filename = "notes.txt";
  body = some (record { size = 5; data_text = some "notes"; attachment_id = none });
}

abbrev message : RawPart
message =
    part (record { mime_type = "multipart/mixed"; filename = ""; body = none })
      (cons (part html nil) (cons (part notes nil) nil))

-- The file is taken for the text body and is not among the attachments.
named_text_is_body :
    walk_parts plain message unread
    ≡ record { body_text = some "notes"; body_html = some "<p>hi</p>"; attachments = [] }
unfolding parts
named_text_is_body = refl

walk_parts-bodies_example :
    ((walk_parts plain message unread).body_text
      ≡ find_map (body_of plain "text/plain") (flatten message))
    × ((walk_parts plain message unread).body_html
        ≡ find_map (body_of plain "text/html") (flatten message))
walk_parts-bodies_example = walk_parts-bodies plain message

-- A comma inside the quoted name of an address divides it in two.
quoted_comma_divides : parse_address_list "\"Doe, Jane\" <jane@x.org>" ≡ (
    record { email = "\"Doe"; name = none }
    ∷ record { email = "jane@x.org"; name = some "Jane" }
    ∷ [])
unfolding addresses parts
quoted_comma_divides = refl

jane-IsPlain : IsPlain ("Jane Doe", "jane@x.org")
unfolding addresses parts
jane-IsPlain = record {
  trimmed = refl;
  unquoted = refl;
  named = λ e. cons≢nil e;
  email_trimmed = refl;
  no_open = refl;
  no_close = refl;
  name_no_comma = refl;
  email_no_comma = refl;
}

bob-IsPlain : IsPlain ("Bob", "bob@y.org")
unfolding addresses parts
bob-IsPlain = record {
  trimmed = refl;
  unquoted = refl;
  named = λ e. cons≢nil e;
  email_trimmed = refl;
  no_open = refl;
  no_close = refl;
  name_no_comma = refl;
  email_no_comma = refl;
}

parse_address_list-listed_example : parse_address_list "Jane Doe <jane@x.org>, Bob <bob@y.org>" ≡ (
    record { email = "jane@x.org"; name = some "Jane Doe" }
    ∷ record { email = "bob@y.org"; name = some "Bob" }
    ∷ [])
unfolding addresses parts
parse_address_list-listed_example =
    parse_address_list-listed ("Jane Doe", "jane@x.org") (("Bob", "bob@y.org") ∷ [])
      (jane-IsPlain, (bob-IsPlain, tt))
