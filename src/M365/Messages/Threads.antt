-- ===== src/M365/Messages/Threads.antt =====
-- The threads that a search of Graph finds.
use mail_mcp.Base.{
  ℕ, ◌≡◌, refl, sym, ap, ◌∙◌, Bool, true, false, ◌||◌, String, Option, none, some, List, [], ◌∷◌,
  any, find, filter, Result, ok, err, >>=-eq-ok, ◌==◌, ==_iff, if◌then◌else◌, Bool-cases, inl, inr,
  arith,
}
use mail_mcp.Base.State.{lift, bind_outcome-eq-ok}
use mail_mcp.Mail.Client.{RestClient, fetch}
use mail_mcp.Mail.Types.{DateTime, ThreadSummary, Message, SearchQuery, SearchResults}
use mail_mcp.M365.Parse.{RawMessage, decode}
use mail_mcp.M365.Messages.{ListResponse, build_search_url, summary, summaries, search}

result_eq : {A : Type 0} {a b : A} → Result.ok a ≡ Result.ok b → a ≡ b
result_eq e = cc

module _ (parse_date : String → Option DateTime) where
  abbrev pub in_thread : String → ThreadSummary → Bool
  in_thread c t = t.id == c

  abbrev pub summary_of : Result Message → List ThreadSummary
  summary_of (err e) = []
  summary_of (ok m) = summary m ∷ []

  -- The summary of the first message of a conversation, if there is one.
  abbrev pub first_of : Option RawMessage → List ThreadSummary
  first_of none = []
  first_of (some raw) = summary_of (decode parse_date raw)

  abbrev pub representative : String → List RawMessage → List ThreadSummary
  representative c raws = first_of (find (λ raw. raw.conversation_id == c) raws)

  decode-thread_id :
      (raw : RawMessage) (m : Message)
      → decode parse_date raw ≡ ok m
      → m.thread_id ≡ raw.conversation_id
  unfolding decode
  decode-thread_id raw m h = ground arith

  -- What the loop yields for one conversation, by whether it was seen before.
  abbrev expected : Bool → String → List RawMessage → List ThreadSummary
  expected true c raws = []
  expected false c raws = representative c raws

  expected_nil : (b : Bool) (c : String) → expected b c [] ≡ []
  expected_nil true c = refl
  expected_nil false c = refl

  expected_other :
      (b : Bool) (c : String) (raw : RawMessage) (raws : List RawMessage)
      → (raw.conversation_id == c) ≡ false
      → expected b c (raw ∷ raws) ≡ expected b c raws
  expected_other true c raw raws other = refl
  expected_other false c raw raws other =
      ap (λ b. first_of (if b then some raw else find (λ r. r.conversation_id == c) raws)) other

  expected_again :
      (seen : List String) (c : String) (raw : RawMessage) (raws : List RawMessage)
      → any (λ x. x == raw.conversation_id) seen ≡ true
      → expected (any (λ x. x == c) seen) c (raw ∷ raws) ≡ expected (any (λ x. x == c) seen) c raws
  expected_again seen c raw raws again = elim (Bool-cases (raw.conversation_id == c)) [
    | inr other ↦ expected_other (any (λ x. x == c) seen) c raw raws other
    | inl own ↦
        let known =
          ap (λ y. any (λ x. x == y) seen) (sym ((==_iff raw.conversation_id c).0 own)) ∙ again in
        rw known refl
  ]

  -- The first message of a conversation.
  filter_new :
      (seen : List String) (c : String) (raw : RawMessage) (raws : List RawMessage) (m : Message)
      (ts : List ThreadSummary)
      → any (λ x. x == raw.conversation_id) seen ≡ false
      → decode parse_date raw ≡ ok m
      → filter (in_thread c) ts
        ≡ expected (raw.conversation_id == c || any (λ x. x == c) seen) c raws
      → filter (in_thread c) (summary m ∷ ts) ≡ expected (any (λ x. x == c) seen) c (raw ∷ raws)
  unfolding summary
  filter_new seen c raw raws m ts new decoded rest =
      let shown = ap (λ x. x == c) (decode-thread_id raw m decoded) in
      elim (Bool-cases (raw.conversation_id == c)) [
        | inr other ↦
            ap (λ b. if b then summary m ∷ filter (in_thread c) ts else filter (in_thread c) ts)
              (shown ∙ other)
            ∙ (rest
                ∙ (ap (λ b. expected (b || any (λ x. x == c) seen) c raws) other
                    ∙ sym (expected_other (any (λ x. x == c) seen) c raw raws other)))
        | inl own ↦
            let unseen =
              ap (λ y. any (λ x. x == y) seen) (sym ((==_iff raw.conversation_id c).0 own)) ∙ new in
            ap (λ b. if b then summary m ∷ filter (in_thread c) ts else filter (in_thread c) ts)
              (shown ∙ own)
            ∙ (ap (λ x. summary m ∷ x)
                  (rest ∙ ap (λ b. expected (b || any (λ x. x == c) seen) c raws) own)
                ∙ (ap summary_of (sym decoded)
                    ∙ (ap
                          (λ b.
                            first_of
                              (if b then some raw else find (λ r. r.conversation_id == c) raws))
                          (sym own)
                        ∙ ap (λ b. expected b c (raw ∷ raws)) (sym unseen))))
      ]

  summaries-expected :
      (seen : List String) (raws : List RawMessage) (ts : List ThreadSummary)
      → summaries parse_date seen raws ≡ ok ts
      → (c : String) → filter (in_thread c) ts ≡ expected (any (λ x. x == c) seen) c raws
  unfolding summaries
  summaries-expected seen [] ts h c =
      ap (filter (in_thread c)) (sym (result_eq h)) ∙ sym (expected_nil (any (λ x. x == c) seen) c)
  summaries-expected seen (raw ∷ raws) ts h c =
      elim (Bool-cases (any (λ x. x == raw.conversation_id) seen)) [
        | inl again ↦
            let rest = summaries-expected seen raws ts (rw again at h) c in
            rest ∙ sym (expected_again seen c raw raws again)
        | inr new ↦
            let (m, decoded, more) = >>=-eq-ok (decode parse_date raw) _ (rw new at h) in
            let (ts', others, done) =
              >>=-eq-ok (summaries parse_date (raw.conversation_id ∷ seen) raws) _ more in
            let rest = summaries-expected (raw.conversation_id ∷ seen) raws ts' others c in
            ap (filter (in_thread c)) (sym (result_eq done))
            ∙ filter_new seen c raw raws m ts' new decoded rest
      ]

  module _ {V S : Type 0} (client : RestClient V S) (base : String) (urlencode : String → String)
      (decimal : ℕ → String) (read_list : V → Result (ListResponse RawMessage)) where
    -- A search that succeeds lists each conversation among the messages that Graph answers with
    -- once, by the first of its messages, and lists no other conversation; and it passes on the link
    -- to the next page.
    pub search-representative :
        (q : SearchQuery) (s s' : S) (results : SearchResults)
        → search parse_date client base urlencode decimal read_list q s ≡ (ok results, s')
        → (resp : ListResponse RawMessage) × (fetch client read_list
              (build_search_url urlencode decimal base q)
              s
            ≡ (ok resp, s'))
          × ((c : String) → filter (in_thread c) results.threads ≡ representative c resp.value)
          × (results.next_cursor ≡ resp.next_link)
    unfolding search
    search-representative q s s' results h =
        let (resp, s1, fetched, h1) =
          bind_outcome-eq-ok (fetch client read_list (build_search_url urlencode decimal base q) s)
            _ h in
        let (ts, s2, listed, h2) =
          bind_outcome-eq-ok (lift (summaries parse_date [] resp.value) s1) _ h1 in
        let made = result_eq (ap (λ x. x.0) h2) in
        (
          resp,
          fetched ∙ ap (λ x. (ok resp, x)) (ap (λ x. x.1) listed ∙ ap (λ x. x.1) h2),
          λ c.
              ap (λ r. filter (in_thread c) r.threads) (sym made)
              ∙ summaries-expected [] resp.value ts (ap (λ x. x.0) listed) c,
          ap (λ r. r.next_cursor) (sym made),
        )
