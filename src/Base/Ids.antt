-- ===== src/Base/Ids.antt =====
-- Identifiers. `AccountId` and `ApprovalId` wrap a 128-bit ULID, kept as its number; the other ids
-- of types.rs are newtypes over `String` and are kept as texts.
use Prim.Native.Nat.{ℕ}
use Prim.Native.String.{String}
use mathlib.Core.Path.{◌≡◌}
use mail_mcp.Base.Outcome.{Parsed, parsed}

abbrev pub AccountId : Type 0
AccountId = ℕ

abbrev pub ApprovalId : Type 0
ApprovalId = ℕ

abbrev pub MessageId : Type 0
MessageId = String

abbrev pub ThreadId : Type 0
ThreadId = String

abbrev pub DraftId : Type 0
DraftId = String

abbrev pub LabelId : Type 0
LabelId = String

abbrev pub FolderId : Type 0
FolderId = String

-- The `ulid` crate's text form: it is not part of this repository. `Display` and `FromStr` are
-- documented to be inverse on the texts that `Display` writes.
pub record Ulid : Type 0 where
  pub to_string : ℕ → String
  pub from_str : String → Parsed ℕ
  pub from_str-to_string : (u : ℕ) → from_str (to_string u) ≡ parsed u
