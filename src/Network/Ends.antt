-- ===== src/Network/Ends.antt =====
-- The chase of canonical names in cowrie/src/cowrie/core/network.py ends, and finds only what the records lead to.
use honeybee_potstore.Base.{
  ℕ, zero, suc, ◌≤◌, ◌<◌, ◌≡◌, refl, true, false, List, [], ◌∷◌, Option, none, some, arith, length,
  ◌==◌, if◌then◌else◌, Bool-cases, inl, inr,
}
use honeybee_potstore.Base.Text.{Text}
use honeybee_potstore.Base.Dict.{Eq}
use honeybee_potstore.Network.Filter.{
  Rr, record_cname, record_a, record_aaaa, other_record, Answer, raised, nothing, answers,
  visited_name, Resolved, go_on, read_records, read_answer, resolve_cname,
}

module _ {N : Type 0} ⦃e : Eq N⦄ where
  -- How many of the names `zs` were not visited.
  abbrev pub unvisited : List N → List N → ℕ
  unvisited [] vs = 0
  unvisited (z ∷ zs) vs = if visited_name z vs then unvisited zs vs else suc (unvisited zs vs)

  pub unvisited-le : (zs vs : List N) → unvisited zs vs ≤ length zs
  unvisited-le [] vs = omega arith
  unvisited-le (z ∷ zs) vs = ground (arith, unvisited-le zs vs)

  unvisited-more : (a : N) (zs vs : List N) → unvisited zs (a ∷ vs) ≤ unvisited zs vs
  unfolding visited_name
  unvisited-more a [] vs = omega arith
  unvisited-more a (z ∷ zs) vs = ground (arith, unvisited-more a zs vs)

  unvisited-visit :
      (a : N) (zs vs : List N)
      → visited_name a zs ≡ true
      → visited_name a vs ≡ false
      → unvisited zs (a ∷ vs) < unvisited zs vs
  unfolding visited_name
  unvisited-visit a [] vs m n = ground arith
  unvisited-visit a (z ∷ zs) vs m n = elim (Bool-cases (e.beq z a)) [
    | inl q ↦
        let same : z ≡ a = e.beq→eq z a q in ground (arith, unvisited-more a zs vs, e.beq_refl a)
    | inr q ↦ ground (arith, unvisited-visit a zs vs)
  ]

  -- The canonical names among the records are names of `zs`.
  abbrev RecordIn : List N → Rr N → Type 0
  RecordIn zs (record_cname name) = visited_name name zs ≡ true
  RecordIn zs _ = Unit

  abbrev RecordsIn : List N → List (Rr N) → Type 0
  RecordsIn zs [] = Unit
  RecordsIn zs (r ∷ rs) = RecordIn zs r × RecordsIn zs rs

  abbrev AnswerIn : List N → Answer N → Type 0
  AnswerIn zs (answers rs) = RecordsIn zs rs
  AnswerIn zs _ = Unit

  -- A call that returns, and forgets no visit.
  abbrev Ends : List N → ℕ → Resolved N → Type 0
  Ends zs k r = (ip : Option Text) × (vs : List N) × (r ≡ some (ip, vs)) × (unvisited zs vs ≤ k)

  Ends-le : (zs : List N) (j k : ℕ) (r : Resolved N) → j ≤ k → Ends zs j r → Ends zs k r
  Ends-le zs j k r l (ip, vs, q, m) = (ip, vs, q, omega arith)

  go_on-Ends :
      (zs : List N) (k : ℕ) (rest : List N → Resolved N) (r : Resolved N)
      → ((ws : List N) → unvisited zs ws ≤ k → Ends zs (unvisited zs ws) (rest ws))
      → Ends zs k r
      → Ends zs k (go_on rest r)
  go_on-Ends zs k rest none h (ip, vs, q, m) = cc
  go_on-Ends zs k rest (some (none, ws)) h (ip, vs, q, m) =
      let same : ws ≡ vs = cc in
      let le : unvisited zs ws ≤ k = rw same m in
      Ends-le zs (unvisited zs ws) k (rest ws) le (h ws le)
  go_on-Ends zs k rest (some (some t, ws)) h (ip, vs, q, m) =
      let same : ws ≡ vs = cc in
      let le : unvisited zs ws ≤ k = rw same m in
      elim (Bool-cases (length t == 0)) [
        | inl z ↦ rw z (Ends-le zs (unvisited zs ws) k (rest ws) le (h ws le))
        | inr z ↦ rw z (some t, ws, refl, le)
      ]

  module _ (zs : List N) (resolve : N → List N → Resolved N) where
    abbrev Ending : ℕ → Type 0
    Ending k =
        (b : N) (vs : List N)
        → visited_name b zs ≡ true
        → unvisited zs vs ≤ k
        → Ends zs (unvisited zs vs) (resolve b vs)

    read_records-Ends :
        (k : ℕ)
        → Ending k
        → (rs : List (Rr N)) (vs : List N) → RecordsIn zs rs
        → unvisited zs vs ≤ k
        → Ends zs (unvisited zs vs) (read_records resolve rs vs)
    unfolding read_records
    read_records-Ends k h [] vs i l = (none, vs, refl, omega arith)
    read_records-Ends k h (record_a quad ∷ rs) vs i l = (quad, vs, refl, omega arith)
    read_records-Ends k h (record_aaaa quad ∷ rs) vs i l = (quad, vs, refl, omega arith)
    read_records-Ends k h (other_record ∷ rs) vs i l = read_records-Ends k h rs vs i.1 l
    read_records-Ends k h (record_cname name ∷ rs) vs i l =
        go_on-Ends zs (unvisited zs vs) (read_records resolve rs) (resolve name vs)
          (λ ws m. read_records-Ends k h rs ws i.1 (omega arith)) (h name vs i.0 l)

    read_answer-Ends :
        (k : ℕ)
        → Ending k
        → (x : Answer N) (vs : List N) → AnswerIn zs x
        → unvisited zs vs ≤ k
        → Ends zs (unvisited zs vs) (read_answer resolve x vs)
    read_answer-Ends k h raised vs i l = (none, vs, refl, omega arith)
    read_answer-Ends k h nothing vs i l = (none, vs, refl, omega arith)
    read_answer-Ends k h (answers rs) vs i l = read_records-Ends k h rs vs i l

  -- No record of a name of `zs` leads to a canonical name outside `zs`.
  abbrev pub Closed : (N → Answer N) → List N → Type 0
  Closed lookup_address zs = (a : N) → visited_name a zs ≡ true → AnswerIn zs (lookup_address a)

  module _ (lookup_address : N → Answer N) (zs : List N) (closed : Closed lookup_address zs) where
    resolve_cname-Ends :
        (fuel : ℕ) (a : N) (vs : List N)
        → visited_name a zs ≡ true
        → unvisited zs vs < fuel
        → Ends zs (unvisited zs vs) (resolve_cname lookup_address fuel a vs)
    unfolding resolve_cname
    resolve_cname-Ends zero a vs m l = absurd (omega arith)
    resolve_cname-Ends (suc fuel) a vs m l = elim (Bool-cases (visited_name a vs)) [
      | inl seen ↦ rw (resolve_cname, seen) (none, vs, refl, omega arith)
      | inr new ↦
          let less = unvisited-visit a zs vs m new in
          rw (resolve_cname, new)
            (Ends-le zs (unvisited zs (a ∷ vs)) (unvisited zs vs) _ (omega arith) (
              read_answer-Ends zs (resolve_cname lookup_address fuel) (unvisited zs (a ∷ vs))
                (λ b ws i k. resolve_cname-Ends fuel b ws i (omega arith)) (lookup_address a)
                (a ∷ vs) (closed a m) (omega arith)))
    ]

    -- Where the names that canonical names lead to are finitely many, one look-up for each is enough:
    -- however the names point at each other, the call returns, with an address or with None.
    pub resolve_cname-returns :
        (a : N)
        → visited_name a zs ≡ true
        → (ip : Option Text) × (vs : List N) × (resolve_cname lookup_address (suc (length zs)) a []
            ≡ some (ip, vs))
    resolve_cname-returns a m =
        let (ip, vs, q, _) =
          resolve_cname-Ends (suc (length zs)) a [] m (omega (arith, unvisited-le zs [])) in
        (ip, vs, q)
