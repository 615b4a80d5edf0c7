-- ===== src/WorkingDirectories/Counts.antt =====
-- What working-directories-service.ts says of each directory.
use private_agent_platform.Base.{
  ℕ, suc, ◌+◌, String, true, List, [], ◌∷◌, Option, none, some, ◌==◌, if◌then◌else◌, is_truthy, ltb,
  length, filter, ◌≡◌, refl, sym, ◌∙◌, ap, arith, eq_iff, Bool-cases, Option-cases, inl, inr, subst,
}
use private_agent_platform.JsMap
use private_agent_platform.JsMap.{JsMap}
use private_agent_platform.JsMap.Laws.{get-set}
use private_agent_platform.WorkingDirectories.{
  Metadata, Conversation, add_conversation, build_directory_map, add_discovered, directory_map,
}

abbrev pub max : ℕ → ℕ → ℕ
max a b = if ltb a b then b else a

max_assoc : (a b c : ℕ) → max (max a b) c ≡ max a (max b c)
max_assoc a b c = ground arith

max_zero : (a : ℕ) → max a 0 ≡ a
max_zero a = ground arith

add_suc : (a b : ℕ) → a + 1 + b ≡ a + suc b
add_suc a b = omega arith

one_add : (a : ℕ) → 1 + a ≡ suc a
one_add a = omega arith

add_zero : (a : ℕ) → a + 0 ≡ a
add_zero a = omega arith

abbrev pub or_discovered : Option Metadata → Option Metadata → Option Metadata
or_discovered (some e) o = some e
or_discovered none o = o

or_nothing : (o : Option Metadata) → o ≡ or_discovered o none
or_nothing none = refl
or_nothing (some e) = refl

-- One directory of the scan.
discover-get :
    (path : String) (e : Metadata) (m : JsMap Metadata) (j : String) (o : Option Metadata)
    → or_discovered (JsMap.get j (if JsMap.has path m then m else JsMap.set path e m)) o
      ≡ or_discovered (JsMap.get j m) (if path == j then some e else o)
discover-get path e m j o = elim (Option-cases (JsMap.get path m)) [
  | inr (old, known) ↦ rw known (elim (Bool-cases (path == j)) [
    | inr other ↦ rw other
    | inl same ↦ rw (subst (λ k. JsMap.get k m ≡ some old) ((eq_iff path j).0 same) known)
  ])
  | inl new ↦
      rw (new, get-set path j e m)
        (elim (Bool-cases (path == j)) [
          | inr other ↦ rw other
          | inl same ↦ rw (same, subst (λ k. JsMap.get k m ≡ none) ((eq_iff path j).0 same) new)
        ])
]

add_discovered-get :
    (found m : JsMap Metadata) (j : String)
    → JsMap.get j (add_discovered found m) ≡ or_discovered (JsMap.get j m) (JsMap.get j found)
unfolding add_discovered JsMap.get
add_discovered-get [] m j = or_nothing (JsMap.get j m)
add_discovered-get ((path, e) ∷ found) m j =
    add_discovered-get found (if JsMap.has path m then m else JsMap.set path e m) j
    ∙ discover-get path e m j (JsMap.get j found)

module _ (time : String → ℕ) where
  abbrev pub latest : List Conversation → ℕ
  latest [] = 0
  latest (c ∷ cs) = max (time c.1) (latest cs)

  -- What the conversations of one directory come to.
  abbrev pub described : List Conversation → Option Metadata
  described [] = none
  described (c ∷ cs) = some (record { last_date = latest (c ∷ cs); count = length (c ∷ cs) })

  abbrev with_old : Option Metadata → List Conversation → Option Metadata
  with_old none cs = described cs
  with_old (some e) cs =
      some (record { last_date = max e.last_date (latest cs); count = e.count + length cs })

  abbrev seen : Option Metadata → ℕ → Option Metadata
  seen none t = some (record { last_date = t; count = 1 })
  seen (some e) t = some (record { last_date = max e.last_date t; count = e.count + 1 })

  old_alone : (o : Option Metadata) → o ≡ with_old o []
  old_alone none = refl
  old_alone (some e) = rw (max_zero e.last_date, add_zero e.count)

  -- The two writes of a known directory.
  written :
      (path j at : String) (old : Metadata) (m : JsMap Metadata)
      → JsMap.get path m ≡ some old
      → JsMap.get j (
          if ltb old.last_date (time at)
          then JsMap.set path (record { last_date = time at; count = old.count + 1 }) m
          else JsMap.set path (record { last_date = old.last_date; count = old.count + 1 }) m)
        ≡ (if path == j then seen (JsMap.get j m) (time at) else JsMap.get j m)
  written path j at old m e = elim (Bool-cases (path == j)) [
    | inl same ↦
        let here = subst (λ k. JsMap.get k m ≡ some old) ((eq_iff path j).0 same) e in
        rw (here, same)
          (elim (Bool-cases (ltb old.last_date (time at))) [
            | inl later ↦ rw later (get-set path j _ m ∙ rw same)
            | inr earlier ↦ rw earlier (get-set path j _ m ∙ rw same)
          ])
    | inr other ↦ rw other (elim (Bool-cases (ltb old.last_date (time at))) [
      | inl later ↦ rw later (get-set path j _ m ∙ rw other)
      | inr earlier ↦ rw earlier (get-set path j _ m ∙ rw other)
    ])
  ]

  add_conversation-get :
      (c : Conversation) (m : JsMap Metadata) (j : String)
      → is_truthy j ≡ true
      → JsMap.get j (add_conversation time c m)
        ≡ (if c.0 == j then seen (JsMap.get j m) (time c.1) else JsMap.get j m)
  unfolding add_conversation
  add_conversation-get (path, at) m j h = elim (Bool-cases (is_truthy path)) [
    | inr blank ↦
        rw (blank, add_conversation)
          (elim (Bool-cases (path == j)) [
            | inl same ↦ cc (ap is_truthy ((eq_iff path j).0 same))
            | inr other ↦ rw other
          ])
    | inl named ↦ elim (Option-cases (JsMap.get path m)) [
      | inl e ↦
          rw (named, add_conversation)
            (rw (e, get-set path j _ m)
              (elim (Bool-cases (path == j)) [
                | inl same ↦ rw (same, sym ((eq_iff path j).0 same), e)
                | inr other ↦ rw other
              ]))
      | inr (old, e) ↦ rw (named, add_conversation) (rw e (written path j at old m e))
    ]
  ]

  seen-with_old :
      (o : Option Metadata) (c : Conversation) (cs : List Conversation)
      → with_old (seen o (time c.1)) cs ≡ with_old o (c ∷ cs)
  seen-with_old none c [] = refl
  seen-with_old none c (d ∷ cs) = rw (one_add (length (d ∷ cs)))
  seen-with_old (some e) c cs =
      rw (max_assoc e.last_date (time c.1) (latest cs), add_suc e.count (length cs))

  build-with_old :
      (cs : List Conversation) (m : JsMap Metadata) (j : String)
      → is_truthy j ≡ true
      → JsMap.get j (build_directory_map time cs m)
        ≡ with_old (JsMap.get j m) (filter (λ c. c.0 == j) cs)
  unfolding build_directory_map
  build-with_old [] m j h = old_alone (JsMap.get j m)
  build-with_old (c ∷ cs) m j h =
      build-with_old cs (add_conversation time c m) j h
      ∙ rw (add_conversation-get c m j h) (elim (Bool-cases (c.0 == j)) [
        | inl same ↦ rw same (seen-with_old (JsMap.get j m) c (filter (λ c. c.0 == j) cs))
        | inr other ↦ rw other
      ])

  build_directory_map-described :
      (cs : List Conversation) (j : String)
      → is_truthy j ≡ true
      → JsMap.get j (build_directory_map time cs []) ≡ described (filter (λ c. c.0 == j) cs)
  unfolding JsMap.get
  build_directory_map-described cs j h = build-with_old cs [] j h

  -- A directory of the map is one that a conversation names, with the number of its conversations and
  -- the latest of their times, or one that none names and the scan discovered, with what the scan
  -- says of it.
  pub directory_map-described :
      (found : JsMap Metadata) (cs : List Conversation) (j : String)
      → is_truthy j ≡ true
      → JsMap.get j (directory_map time found cs)
        ≡ or_discovered (described (filter (λ c. c.0 == j) cs)) (JsMap.get j found)
  unfolding directory_map
  directory_map-described found cs j h =
      add_discovered-get found (build_directory_map time cs []) j
      ∙ rw (build_directory_map-described cs j h)
