-- ===== src/Lifecycle/Endpoint.antt =====
-- The endpoint file while it is written.
use mail_mcp.Base.{
  ◌≡◌, ◌≢◌, refl, sym, subst, ◌⊎◌, inl, inr, String, Option, none, some, List, [], ◌∷◌, arith, All,
  Option-cases, string_key,
}
use mail_mcp.Base.Dict.{lookup, insert, remove, lookup-insert, lookup-remove}
use mail_mcp.Admin.Client.{Anyhow, done}
use mail_mcp.Lifecycle.{
  File, Files, private_mode, rename_onto, write_bytes, create_temp, write_endpoint,
}

module _ (path tmp_path bytes : String) (apart : path ≢ tmp_path) where
  abbrev pub whole : File
  whole = record { mode = private_mode; text = bytes }

  -- The endpoint file is the old one or the whole new one, whatever is in the temporary file is
  -- for the owner only, and other files are as they were.
  pub record IsIntact (before now : Files) : Type 0 where
    pub endpoint : (lookup path now ≡ lookup path before) ⊎ (lookup path now ≡ some whole)
    pub temporary : (f : File) → lookup tmp_path now ≡ some f → f.mode ≡ private_mode
    pub others : (q : String) → q ≢ path → q ≢ tmp_path → lookup q now ≡ lookup q before

  IsIntact-start : (before : Files) → lookup tmp_path before ≡ none → IsIntact before before
  IsIntact-start before free = record {
    endpoint = inl refl;
    temporary = λ f h. cc (free, h);
    others = λ q _ _. refl;
  }

  IsIntact-temp :
      (before now : Files) (text : String)
      → IsIntact before now
      → IsIntact before (insert tmp_path (record { mode = private_mode; text = text }) now)
  IsIntact-temp before now text h = record {
    endpoint = ground (
      arith,
      h.endpoint,
      lookup-insert path tmp_path (record { mode = private_mode; text = text }) now,
    );
    temporary = λ f e. ground (
      arith,
      lookup-insert tmp_path tmp_path (record { mode = private_mode; text = text }) now,
      e,
    );
    others = λ q a b. ground (
      arith,
      h.others q a b,
      lookup-insert q tmp_path (record { mode = private_mode; text = text }) now,
    );
  }

  IsIntact-rename :
      (before now : Files)
      → IsIntact before now
      → IsIntact before (insert path whole (remove tmp_path now))
  IsIntact-rename before now h = record {
    endpoint = inr (ground (arith, lookup-insert path path whole (remove tmp_path now)));
    temporary = λ f e. ground (
      arith,
      lookup-insert tmp_path path whole (remove tmp_path now),
      lookup-remove tmp_path tmp_path now,
      e,
    );
    others = λ q a b. ground (
      arith,
      h.others q a b,
      lookup-insert q path whole (remove tmp_path now),
      lookup-remove q tmp_path now,
    );
  }

  module _ (create_dir_fault open_fault : Option String) (write_fault : Option (String × String))
      (rename_fault : Option String) where
    rename_onto-IsIntact :
        (before now : Files)
        → IsIntact before now
        → All
            (IsIntact before)
            (rename_onto path tmp_path bytes create_dir_fault open_fault write_fault rename_fault
              now).1
    unfolding rename_onto
    rename_onto-IsIntact before now h = elim (Option-cases rename_fault) [
      | inl fine ↦ rw fine (IsIntact-rename before now h, tt)
      | inr (e, fault) ↦ rw fault tt
    ]

    write_bytes-IsIntact :
        (before now : Files)
        → IsIntact before now
        → All
            (IsIntact before)
            (write_bytes path tmp_path bytes create_dir_fault open_fault write_fault rename_fault
              now).1
    unfolding write_bytes rename_onto
    write_bytes-IsIntact before now h = elim (Option-cases write_fault) [
      | inl fine ↦ rw fine (
        IsIntact-temp before now bytes h,
        rename_onto-IsIntact before (insert tmp_path whole now) (IsIntact-temp before now bytes h),
      )
      | inr ((e, written), fault) ↦ rw fault (IsIntact-temp before now written h, tt)
    ]

    abbrev empty_temp : Files → Files
    empty_temp = insert tmp_path (record { mode = private_mode; text = "" })

    abbrev creation : Files → Anyhow (Unit {0}) × List Files
    creation = create_temp path tmp_path bytes create_dir_fault open_fault write_fault rename_fault

    create_temp-eq :
        (before : Files)
        → lookup tmp_path before ≡ none
        → open_fault ≡ none
        → (creation before).1
          ≡ empty_temp before
            ∷ (write_bytes path tmp_path bytes create_dir_fault open_fault write_fault rename_fault
                (empty_temp before)).1
    unfolding create_temp
    create_temp-eq before free fine = ground (arith, free, fine)

    create_temp-there :
        (before : Files) (f : File) → lookup tmp_path before ≡ some f → (creation before).1 ≡ []
    unfolding create_temp
    create_temp-there before f there = ground (arith, there)

    create_temp-fault :
        (before : Files) (e : String)
        → lookup tmp_path before ≡ none
        → open_fault ≡ some e
        → (creation before).1 ≡ []
    unfolding create_temp
    create_temp-fault before e free fault = ground (arith, free, fault)

    create_temp-IsIntact : (before : Files) → All (IsIntact before) (creation before).1
    create_temp-IsIntact before = elim (Option-cases (lookup tmp_path before)) [
      | inr (f, there) ↦ subst (All (IsIntact before)) (sym (create_temp-there before f there)) tt
      | inl free ↦ elim (Option-cases open_fault) [
        | inr (e, fault) ↦
            subst (All (IsIntact before)) (sym (create_temp-fault before e free fault)) tt
        | inl fine ↦
            let opened = IsIntact-temp before before "" (IsIntact-start before free) in
            subst (All (IsIntact before)) (sym (create_temp-eq before free fine))
              (opened, write_bytes-IsIntact before (empty_temp before) opened)
      ]
    ]

    -- At no moment of `write_endpoint`, whichever call fails, is the endpoint file anything but the old
    -- one or the whole new one; what is in the temporary file is for the owner only; and other files are as
    -- they were.
    pub write_endpoint-IsIntact :
        (before : Files)
        → All
            (IsIntact before)
            (write_endpoint path tmp_path bytes create_dir_fault open_fault write_fault rename_fault
              before).1
    unfolding write_endpoint create_temp write_bytes rename_onto
    write_endpoint-IsIntact before = elim (Option-cases create_dir_fault) [
      | inl fine ↦ rw fine (create_temp-IsIntact before)
      | inr (e, fault) ↦ rw fault tt
    ]

    -- A temporary file that is left behind keeps every later call from writing.
    pub write_endpoint-stale :
        (before : Files) (f : File)
        → lookup tmp_path before ≡ some f
        → (write_endpoint path tmp_path bytes create_dir_fault open_fault write_fault rename_fault
            before).1
          ≡ []
    unfolding write_endpoint create_temp
    write_endpoint-stale before f there = ground (arith, there)

    -- The files at the end.
    abbrev pub final : Files → List Files → Files
    final before [] = before
    final before (next ∷ later) = final next later

    -- A successful `write_endpoint` ends with the whole new file and no temporary one.
    pub write_endpoint-done :
        (before : Files)
        → (write_endpoint path tmp_path bytes create_dir_fault open_fault write_fault rename_fault
            before).0
          ≡ done tt
        → (lookup path (
              final before
                (write_endpoint path tmp_path bytes create_dir_fault open_fault write_fault
                  rename_fault before).1)
            ≡ some whole)
          × (lookup tmp_path (
                final before
                  (write_endpoint path tmp_path bytes create_dir_fault open_fault write_fault
                    rename_fault before).1)
              ≡ none)
    unfolding write_endpoint create_temp write_bytes rename_onto
    write_endpoint-done before h =
        let now = insert tmp_path whole (empty_temp before) in
        ground (
          arith,
          lookup-insert path path whole (remove tmp_path now),
          lookup-insert tmp_path path whole (remove tmp_path now),
          lookup-remove tmp_path tmp_path now,
        )
