-- ===== src/Permissions/Category.antt =====
-- permissions/mod.rs, lines 10 to 54: the operation categories and their names.
use Prim.Native.String.{◌++◌}
use mail_mcp.Base.{
  ◌≡◌, refl, String, List, [], ◌∷◌, arith, if◌then◌else◌, ◌==◌, ==_iff, Key, Parsed, parsed,
  unknown,
}

pub data Category : Type 0 where
  read modify trash draft send : Category

pub Category-discrete : Discrete Category
Category-discrete = hlevel

instance unfoldable pub category_key : Key Category
unfolding Category-discrete
category_key = record { dec = Category-discrete }

unfoldable pub as_str : Category → String
as_str read = "read"
as_str modify = "modify"
as_str trash = "trash"
as_str draft = "draft"
as_str send = "send"

-- `Category::ALL`
abbrev pub all : List Category
all = read ∷ modify ∷ trash ∷ draft ∷ send ∷ []

unfoldable pub from_str : String → Parsed Category
from_str s =
    if s == "read"
    then parsed read
    else if s == "modify"
    then parsed modify
    else if s == "trash"
    then parsed trash
    else if s == "draft"
    then parsed draft
    else if s == "send"
    then parsed send
    else unknown ("unknown category: " ++ s)

pub from_str-as_str : (c : Category) → from_str (as_str c) ≡ parsed c
unfolding from_str as_str
from_str-as_str read = refl
from_str-as_str modify = refl
from_str-as_str trash = refl
from_str-as_str draft = refl
from_str-as_str send = refl

pub as_str-from_str : (s : String) (c : Category) → from_str s ≡ parsed c → s ≡ as_str c
unfolding from_str as_str
as_str-from_str s c h =
    ground (
      arith,
      ==_iff s "read",
      ==_iff s "modify",
      ==_iff s "trash",
      ==_iff s "draft",
      ==_iff s "send",
    )
