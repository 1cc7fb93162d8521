-- ===== src/Caching/Edit/Loops.antt =====
-- The two loops of the edit handlers of caching.c against the plan made on the queue.
use progetto_sistemi_operati.Base.{
  ℕ, zero, suc, ◌+◌, ◌-◌, ◌%◌, ◌≤◌, ◌<◌, ◌≡◌, refl, sym, ap, ◌∙◌, inl, inr, List, [], ◌∷◌, Option,
  some, Bool, true, false, length, arith, ltb, ◌==◌, ok, Bool-cases, ◌>>=◌, Outcome,
}
use progetto_sistemi_operati.Base.Int.{pos, -ℤ_pos}
use progetto_sistemi_operati.Base.Ring.{window, step-mod}
use progetto_sistemi_operati.Caching.State.{Scan, scan, scan_step, collect, slot, next}
use progetto_sistemi_operati.Caching.Plan.{
  Plan, plan, plan-nil, plan-ne-nil, plan-fits, plan-hit, plan-miss, others, others-nil, others-hit,
  others-miss,
}
use progetto_sistemi_operati.Caching.Valid.{total}

module _ (len : ℕ → ℕ) (limit cs file : ℕ) (slots : List ℕ) (new : ℕ) (small : new ≤ limit) where
  -- The first loop, case by case.
  scan-fits :
      (fuel e : ℕ) (s : Scan)
      → s.expected ≡ pos e
      → ltb limit e ≡ false
      → scan len limit cs file slots (suc fuel) s ≡ ok s
  unfolding scan
  scan-fits fuel e s he fits = ground arith

  abbrev passed : Scan → Scan
  passed s = record s { edited = some s.index; index = next cs s.index }

  scan-hit :
      (x fuel e : ℕ) (s : Scan)
      → s.expected ≡ pos e
      → ltb limit e ≡ true
      → slot slots s.index ≡ x
      → (x == file) ≡ true
      → scan len limit cs file slots (suc fuel) s ≡ scan len limit cs file slots fuel (passed s)
  unfolding scan scan_step
  scan-hit x fuel e s he over hx hit = ground arith

  abbrev taken : ℕ → ℕ → Scan → Scan
  taken x e s = record s {
    dim = s.dim + 1;
    expected = pos (e - len x);
    index = next cs s.index;
    file_count = s.file_count - 1;
  }

  scan-miss :
      (x fuel e : ℕ) (s : Scan)
      → s.expected ≡ pos e
      → len x ≤ e
      → ltb limit e ≡ true
      → slot slots s.index ≡ x
      → (x == file) ≡ false
      → scan len limit cs file slots (suc fuel) s ≡ scan len limit cs file slots fuel (taken x e s)
  unfolding scan scan_step
  scan-miss x fuel e s he le over hx miss = ground (arith, -ℤ_pos e (len x) le)

  -- Where the loop saw the edited file.
  abbrev pub Seen : Option ℕ → Option ℕ → Bool → Type 0
  Seen before after true = (i : ℕ) × (after ≡ some i) × (slot slots i ≡ file)
  Seen before after false = after ≡ before

  Seen-passed :
      (b : Bool) (j : ℕ) (before after : Option ℕ)
      → slot slots j ≡ file
      → Seen (some j) after b
      → Seen before after true
  Seen-passed true j before after h s = s
  Seen-passed false j before after h s = (j, s, h)

  pub record Scanned (s : Scan) (p : Plan) (s' : Scan) : Type 0 where
    pub seen : Seen s.edited s'.edited p.skipped
    pub bytes : s'.expected ≡ pos p.left
    pub dim : s'.dim ≡ s.dim + length p.evicted
    pub files : s'.file_count ≡ s.file_count - length p.evicted

  abbrev Follows : ℕ → Scan → Plan → Type 0
  Follows fuel s p = (s' : Scan) × (scan len limit cs file slots fuel s ≡ ok s') × Scanned s p s'

  pub scan_lem :
      (w : List ℕ) (fuel e : ℕ) (s : Scan)
      → window 0 slots cs s.index (length w) ≡ w
      → s.expected ≡ pos e
      → e ≡ new + total len (others file w)
      → length w < fuel
      → Follows fuel s (plan len limit file e w)
  scan_lem w zero e s hw he h hf = elim hf [ ]
  scan_lem [] (suc fuel) e s hw he h hf = (
    s,
    scan-fits fuel e s he (ground (arith, small, others-nil file)),
    ground (arith, plan-nil len limit file e),
  )
  scan_lem (x ∷ xs) (suc fuel) e s hw he h hf = elim (Bool-cases (ltb limit e)) [
    | inr fits ↦ (
      s,
      scan-fits fuel e s he fits,
      rw (plan-fits len limit file x xs e fits)
          (record { seen = refl; bytes = he; dim = omega arith; files = omega arith }),
    )
    | inl over ↦ elim (Bool-cases (x == file)) [
      | inl hit ↦
          let (s', r, m) =
            scan_lem xs fuel e (passed s) (cc) he (rw (others-hit file x xs hit) at h)
              (omega arith) in
          (
            s',
            scan-hit x fuel e s he over (cc) hit ∙ r,
            rw (plan-hit len limit file x xs e over hit) (record {
              seen =
                  Seen-passed (plan len limit file e xs).skipped s.index s.edited s'.edited
                    (ground arith) m.seen;
              bytes = m.bytes;
              dim = m.dim;
              files = m.files;
            }),
          )
      | inr miss ↦
          let h' = rw (others-miss file x xs miss) at h in
          let le : len x ≤ e = omega arith in
          let fits : e - len x ≡ new + total len (others file xs) = omega arith in
          let (s', r, m) =
            scan_lem xs fuel (e - len x) (taken x e s) (cc) refl fits (omega arith) in
          (
            s',
            scan-miss x fuel e s he le over (cc) miss ∙ r,
            rw (plan-miss len limit file x xs e over miss) (record {
              seen = m.seen;
              bytes = m.bytes;
              dim = omega (arith, m.dim);
              files = omega (arith, m.files);
            }),
          )
    ]
  ]

-- The second loop takes the files of the plan, and leaves the head where the rest begins.
module _ (len : ℕ → ℕ) (limit cs file : ℕ) (slots : List ℕ) (new : ℕ) (small : new ≤ limit) where
  pub record Collected (h : ℕ) (w : List ℕ) (p : Plan) (r : Outcome (List ℕ × ℕ)) : Type 0 where
    pub new_head : ℕ
    pub returns : r ≡ ok (p.evicted, new_head)
    pub head_in : new_head < cs
    pub same_end : (new_head + length p.rest) % cs ≡ (h + length w) % cs
    pub rest : window 0 slots cs new_head (length p.rest) ≡ p.rest

  collect-nothing :
      (fuel h : ℕ) (w : List ℕ)
      → h < cs
      → window 0 slots cs h (length w) ≡ w
      → (l : ℕ)
      → Collected h w
          (record { evicted = []; skipped = false; rest = w; left = l })
          (collect cs file slots fuel 0 h)
  unfolding collect
  collect-nothing fuel h w hh hw l = record {
    new_head = h;
    returns = refl;
    head_in = hh;
    same_end = refl;
    rest = hw;
  }

  collect-hit :
      (fuel todo h : ℕ) (x : ℕ)
      → slot slots h ≡ x
      → (x == file) ≡ true
      → collect cs file slots (suc fuel) (suc todo) h
        ≡ collect cs file slots fuel (suc todo) (next cs h)
  unfolding collect
  collect-hit fuel todo h x hx hit = rw (hx, hit)

  collect-miss :
      (fuel todo h : ℕ) (x : ℕ)
      → slot slots h ≡ x
      → (x == file) ≡ false
      → collect cs file slots (suc fuel) (suc todo) h
        ≡ (collect cs file slots fuel todo (next cs h) >>= λ r. ok (x ∷ r.0, r.1))
  unfolding collect
  collect-miss fuel todo h x hx miss = rw (hx, miss)

  pub collect_lem :
      (w : List ℕ) (fuel e h : ℕ)
      → h < cs
      → window 0 slots cs h (length w) ≡ w
      → e ≡ new + total len (others file w)
      → length w < fuel
      → let p = plan len limit file e w in
        Collected h w p (collect cs file slots fuel (length p.evicted) h)
  collect_lem w zero e h hh hw he hf = elim hf [ ]
  collect_lem [] (suc fuel) e h hh hw he hf =
      rw (plan-nil len limit file e) (collect-nothing (suc fuel) h [] hh hw e)
  collect_lem (x ∷ xs) (suc fuel) e h hh hw he hf = elim (Bool-cases (ltb limit e)) [
    | inr fits ↦
        rw (plan-fits len limit file x xs e fits) (collect-nothing (suc fuel) h (x ∷ xs) hh hw e)
    | inl over ↦ elim (Bool-cases (x == file)) [
      | inl hit ↦
          let h' = rw (others-hit file x xs hit) at he in
          let p : Plan = plan len limit file e xs in
          let m = collect_lem xs fuel e (next cs h) (omega arith) (cc) h' (omega arith) in
          let k : length p.evicted ≡ suc (length p.evicted - 1) =
            omega (arith, plan-ne-nil len limit file new small xs e h' (ground arith)) in
          rw (plan-hit len limit file x xs e over hit) (record {
            new_head = m.new_head;
            returns =
                ap (λ t. collect cs file slots (suc fuel) t h) k
                ∙ collect-hit fuel (length p.evicted - 1) h x (cc) hit
                ∙ ap (λ t. collect cs file slots fuel t (next cs h)) (sym k)
                ∙ m.returns;
            head_in = m.head_in;
            same_end = m.same_end ∙ step-mod cs h (length xs);
            rest = m.rest;
          })
      | inr miss ↦
          let h' = rw (others-miss file x xs miss) at he in
          let p : Plan = plan len limit file (e - len x) xs in
          let fits : e - len x ≡ new + total len (others file xs) = omega arith in
          let m =
            collect_lem xs fuel (e - len x) (next cs h) (omega arith) (cc) fits (omega arith) in
          rw (plan-miss len limit file x xs e over miss) (record {
            new_head = m.new_head;
            returns =
                collect-miss fuel (length p.evicted) h x (cc) miss
                ∙ ap (λ o. o >>= λ r. ok (x ∷ r.0, r.1)) m.returns;
            head_in = m.head_in;
            same_end = m.same_end ∙ step-mod cs h (length xs);
            rest = m.rest;
          })
    ]
  ]
