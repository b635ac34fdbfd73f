-- ===== src/Permissions/Policy.antt =====
-- permissions/mod.rs, lines 56 to 106: the policies, their names, and the default of each category.
use Prim.Native.String.{◌++◌}
use mail_mcp.Base.{◌≡◌, refl, String, arith, if◌then◌else◌, ◌==◌, ==_iff, Parsed, parsed, unknown}
use mail_mcp.Permissions.Category.{Category, read, modify, trash, draft, send}

pub data Policy : Type 0 where
  allow confirm session draftify block : Policy

unfoldable pub as_str : Policy → String
as_str allow = "allow"
as_str confirm = "confirm"
as_str session = "session"
as_str draftify = "draftify"
as_str block = "block"

unfoldable pub from_str : String → Parsed Policy
from_str s =
    if s == "allow"
    then parsed allow
    else if s == "confirm"
    then parsed confirm
    else if s == "session"
    then parsed session
    else if s == "draftify"
    then parsed draftify
    else if s == "block"
    then parsed block
    else unknown ("unknown policy: " ++ s)

unfoldable pub default_policy : Category → Policy
default_policy read = allow
default_policy modify = allow
default_policy trash = confirm
default_policy draft = allow
default_policy send = draftify

pub from_str-as_str : (p : Policy) → from_str (as_str p) ≡ parsed p
unfolding from_str as_str
from_str-as_str allow = refl
from_str-as_str confirm = refl
from_str-as_str session = refl
from_str-as_str draftify = refl
from_str-as_str block = refl

pub as_str-from_str : (s : String) (p : Policy) → from_str s ≡ parsed p → s ≡ as_str p
unfolding from_str as_str
as_str-from_str s p h = ground (
  arith,
  ==_iff s "allow",
  ==_iff s "confirm",
  ==_iff s "session",
  ==_iff s "draftify",
  ==_iff s "block",
)
