-- ===== src/Client/Sending/Files.antt =====
-- Which files handleSmallWFlag of src/client/src/main.c sends.
use progetto_sistemi_operati.Base.{
  ℕ, zero, suc, ◌-◌, ◌≡◌, refl, ap, ap₂, sym, ◌∙◌, inl, inr, List, [], ◌∷◌, ◌++◌, append_assoc,
  append-nil, Bool, true, false, Option, length, length-append, take, Bool-cases, if◌then◌else◌,
  arith,
}
use progetto_sistemi_operati.Client.Calls.{
  Call, opens, writes, closes, reads, locks, unlocks, removes, reads_n, appends, saves,
  Surroundings,
}
use progetto_sistemi_operati.Client.Sending.{
  Entries, end, directory, regular, special, path_in, is_hidden, visit, send_file, send_entries,
  handle_small_w_flag,
}

-- The paths that have been opened, in order.
unfoldable pub opened_paths : List Call → List (List ℕ)
opened_paths [] = []
opened_paths (opens path flags dir ∷ cs) = path ∷ opened_paths cs
opened_paths (writes path dir ∷ cs) = opened_paths cs
opened_paths (closes path ∷ cs) = opened_paths cs
opened_paths (reads path ∷ cs) = opened_paths cs
opened_paths (locks path ∷ cs) = opened_paths cs
opened_paths (unlocks path ∷ cs) = opened_paths cs
opened_paths (removes path ∷ cs) = opened_paths cs
opened_paths (reads_n n dir ∷ cs) = opened_paths cs
opened_paths (appends path bytes dir ∷ cs) = opened_paths cs
opened_paths (saves dir path bytes ∷ cs) = opened_paths cs

-- The regular files of a tree, with those in its directories that are not hidden and can be opened.
unfoldable pub all_files : Entries → List ℕ → List (List ℕ)
unfolding path_in
all_files end d = []
all_files (directory name can_open inside rest) d =
    let deeper = all_files inside (path_in d name) in
    (if is_hidden name then [] else if can_open then deeper else []) ++ all_files rest d
all_files (regular name rest) d = path_in d name ∷ all_files rest d
all_files (special name rest) d = all_files rest d

pub opened_paths-append :
    (xs ys : List Call) → opened_paths (xs ++ ys) ≡ opened_paths xs ++ opened_paths ys
unfolding opened_paths
opened_paths-append [] ys = refl
opened_paths-append (opens p f d ∷ xs) ys = ap (λ r. p ∷ r) (opened_paths-append xs ys)
opened_paths-append (writes p d ∷ xs) ys = opened_paths-append xs ys
opened_paths-append (closes p ∷ xs) ys = opened_paths-append xs ys
opened_paths-append (reads p ∷ xs) ys = opened_paths-append xs ys
opened_paths-append (locks p ∷ xs) ys = opened_paths-append xs ys
opened_paths-append (unlocks p ∷ xs) ys = opened_paths-append xs ys
opened_paths-append (removes p ∷ xs) ys = opened_paths-append xs ys
opened_paths-append (reads_n n d ∷ xs) ys = opened_paths-append xs ys
opened_paths-append (appends p b d ∷ xs) ys = opened_paths-append xs ys
opened_paths-append (saves d p b ∷ xs) ys = opened_paths-append xs ys

take-nil : (n : ℕ) → take {A = List ℕ} n [] ≡ []
take-nil zero = refl
take-nil (suc n) = refl

take-append :
    (n : ℕ) (xs ys : List (List ℕ)) → take n (xs ++ ys) ≡ take n xs ++ take (n - length xs) ys
take-append zero xs ys = let e : 0 ≡ 0 - length xs = omega arith in ap (λ k. take k ys) e
take-append (suc n) [] ys = let e : suc n ≡ suc n - 0 = omega arith in ap (λ k. take k ys) e
take-append (suc n) (x ∷ xs) ys =
    let e : n - length xs ≡ suc n - suc (length xs) = omega arith in
    ap (λ r. x ∷ r) (take-append n xs ys ∙ ap (λ k. take n xs ++ take k ys) e)

module _ (w : Surroundings) (save_dir : Option (List ℕ)) where
  send_file-opened :
      (path : List ℕ) (past : List Call)
      → opened_paths (send_file w save_dir path past) ≡ opened_paths past ++ path ∷ []
  unfolding send_file opened_paths
  send_file-opened path past = elim (Bool-cases (w.succeeds past (opens path 3 save_dir))) [
    | inr fails ↦ rw fails (opened_paths-append past _)
    | inl done ↦
        let now = past ++ opens path 3 save_dir ∷ [] in
        let then_write = now ++ writes path save_dir ∷ [] in
        let written : opened_paths then_write ≡ opened_paths past ++ path ∷ [] =
          opened_paths-append now _ ∙ append-nil (opened_paths now) ∙ opened_paths-append past _ in
        rw done (elim (Bool-cases (w.succeeds now (writes path save_dir))) [
          | inr fails ↦ rw fails written
          | inl wrote ↦
              rw wrote
                (opened_paths-append then_write _ ∙ append-nil (opened_paths then_write) ∙ written)
        ])
  ]

  -- What a part of the walk does, for the files that it comes to.
  abbrev Sends : List (List ℕ) → ℕ → List Call → ℕ × List Call → Type 0
  Sends files n past result =
      (result.0 ≡ n - length files) × (opened_paths result.1 ≡ opened_paths past ++ take n files)

  -- One part after the other.
  Sends-append :
      (xs ys : List (List ℕ)) (n : ℕ) (past : List Call) (a b : ℕ × List Call)
      → Sends xs n past a
      → Sends ys a.0 a.1 b
      → Sends (xs ++ ys) n past b
  Sends-append xs ys n past a b (left, sent) (left', sent') = (
    omega (arith, left, left', length-append xs ys),
    sent'
        ∙ ap₂ (λ p k. p ++ take k ys) sent left
        ∙ append_assoc (opened_paths past) (take n xs) (take (n - length xs) ys)
        ∙ ap (λ r. opened_paths past ++ r) (sym (take-append n xs ys)),
  )

  Sends-nil : (n : ℕ) (past : List Call) → Sends [] n past (n, past)
  Sends-nil zero past = (omega arith, sym (append-nil (opened_paths past)))
  Sends-nil (suc n) past = (omega arith, sym (append-nil (opened_paths past)))

  Sends-stop : (files : List (List ℕ)) (past : List Call) → Sends files 0 past (0, past)
  Sends-stop files past = (omega arith, sym (append-nil (opened_paths past)))

  visit-Sends :
      (hidden can_open : Bool) (files : List (List ℕ)) (n : ℕ) (past : List Call)
      (inner : ℕ × List Call)
      → Sends files n past inner
      → Sends
          (if hidden then [] else if can_open then files else [])
          n
          past
          (visit hidden can_open inner (n, past))
  visit-Sends true can_open files n past inner h = Sends-nil n past
  visit-Sends false true files n past inner h = h
  visit-Sends false false files n past inner h = Sends-nil n past

  send_entries-Sends :
      (e : Entries) (d : List ℕ) (n : ℕ) (past : List Call)
      → Sends (all_files e d) n past (send_entries w save_dir e d n past)
  unfolding send_entries all_files
  send_entries-Sends end d n past = Sends-nil n past
  send_entries-Sends (directory name can_open inside rest) d zero past =
      Sends-stop (all_files (directory name can_open inside rest) d) past
  send_entries-Sends (directory name can_open inside rest) d (suc n) past =
      let deeper = path_in d name in
      let inner = send_entries w save_dir inside deeper (suc n) past in
      let seen = visit (is_hidden name) can_open inner (suc n, past) in
      Sends-append _ (all_files rest d) (suc n) past seen _
        (visit-Sends (is_hidden name) can_open (all_files inside deeper) (suc n) past inner
          (send_entries-Sends inside deeper (suc n) past))
        (send_entries-Sends rest d seen.0 seen.1)
  send_entries-Sends (regular name rest) d zero past =
      Sends-stop (all_files (regular name rest) d) past
  send_entries-Sends (regular name rest) d (suc n) past =
      let now = send_file w save_dir (path_in d name) past in
      Sends-append (path_in d name ∷ []) (all_files rest d) (suc n) past (n, now) _
        (
          omega arith,
          send_file-opened (path_in d name) past
              ∙ ap (λ r. opened_paths past ++ path_in d name ∷ r) (sym (take-nil n)),
        )
        (send_entries-Sends rest d n now)
  send_entries-Sends (special name rest) d zero past =
      Sends-stop (all_files (special name rest) d) past
  send_entries-Sends (special name rest) d (suc n) past = send_entries-Sends rest d (suc n) past

  -- handleSmallWFlag on a directory that can be opened asks the server to open, in order, the
  -- first files of the tree below it, hidden directories and those that cannot be opened left
  -- out, as many as it may send, and lowers that number by the files of the tree, not below 0,
  -- whatever the server answers.
  pub handle_small_w_flag-opened :
      (inside : Entries) (dirname : List ℕ) (remaining : ℕ) (past : List Call)
      → let result = handle_small_w_flag w save_dir true inside dirname remaining past in
        (result.0 ≡ remaining - length (all_files inside dirname))
        × (opened_paths result.1 ≡ opened_paths past ++ take remaining (all_files inside dirname))
  unfolding handle_small_w_flag
  handle_small_w_flag-opened inside dirname remaining past =
      send_entries-Sends inside dirname remaining past
