-- ===== src/Examples/Keychain.antt =====
-- A stand-in for the OS keychain, and a sign-in.
use mail_mcp.Base.{
  ◌≡◌, refl, sym, ap, ◌∙◌, ◌≢◌, ◌⊎◌, inl, inr, ◌&&◌, String, Option, none, some, ok, ◌==◌, ==_iff,
  if◌then◌else◌, arith, Option-cases,
}
use mail_mcp.Base.Ids.{AccountId}
use mail_mcp.Secrets.{Keyring, Answer, found, no_entry, delete, delete_answer, as_str, service_name}
use mail_mcp.Secrets.Entries.{IsDeletable}
use mail_mcp.Examples.Instances.{ulid}

abbrev Entries : Type 0
Entries = String → String → Option String

abbrev put : String → String → Option String → Entries → Entries
put a u v k b w = if b == a && w == u then v else k b w

abbrev answer : {A : Type 0} → Option A → Answer A
answer none = no_entry
answer (some v) = found v

abbrev deleted : Option String → Answer (Unit {0})
deleted none = no_entry
deleted (some _) = found tt

pub put-same : (a u : String) (v : Option String) (k : Entries) → put a u v k a u ≡ v
put-same a u v k = ground (arith, ==_iff a a, ==_iff u u)

pub put-other :
    (a u b w : String) (v : Option String) (k : Entries)
    → (b ≢ a) ⊎ (w ≢ u)
    → put a u v k b w ≡ k b w
put-other a u b w v k (inl ne) = ground (arith, ==_iff b a, ne)
put-other a u b w v k (inr ne) = ground (arith, ==_iff w u, ne)

abbrev pub ring : Keyring
ring = record {
  Store = Entries;
  set_password = λ a u v k. (ok tt, put a u (some v) k);
  get_password = λ a u k. answer (k a u);
  delete_credential = λ a u k. (deleted (k a u), put a u none k);
  get-set = λ a u v k k' h.
      ap (λ s. answer (s a u)) (sym (ap (λ r. r.1) h)) ∙ ap answer (put-same a u (some v) k);
  get-set_other = λ a u v b w k ne. ap answer (put-other a u b w (some v) k ne);
  get-delete = λ a u k k' h.
      ap (λ s. answer (s a u)) (sym (ap (λ r. r.1) h)) ∙ ap answer (put-same a u none k);
  get-delete_none = λ a u k k' h.
      ap (λ s. answer (s a u)) (sym (ap (λ r. r.1) h)) ∙ ap answer (put-same a u none k);
  get-delete_other = λ a u b w k ne. ap answer (put-other a u b w none k ne);
}

pub ring-IsDeletable : (id : AccountId) → IsDeletable ring ulid id
unfolding delete delete_answer
ring-IsDeletable id kind k = elim (Option-cases (k (service_name ring ulid id) (as_str kind))) [
  | inl missing ↦ rw missing refl
  | inr (v, present) ↦ rw present refl
]
