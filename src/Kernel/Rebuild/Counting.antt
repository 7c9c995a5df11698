-- ===== src/Kernel/Rebuild/Counting.antt =====
-- What the first two loops of `rebuild_graph` compute.
use mathlib.Core.Path.{subst}
use native.Mathlib.Decide.{ℕ_discrete}
use mathlib.Core.Bool.{true≢false}
use smtstabilizer.Common.{
  ℕ, suc, ◌+◌, ◌<◌, ◌≡◌, refl, sym, ◌∙◌, arith, Bool, true, false, if◌then◌else◌, ◌==◌, ltb, List,
  [], ◌∷◌, map, length, get_or, get_elem?-get_or, set, length-set, All, All-mono, get_or-set_ne,
  get_or-set_self, Option, none, some, inl, inr, Bool-cases, ==_iff,
}
use smtstabilizer.Common.Outcome.{ok}
use smtstabilizer.Common.Maps.{Counts, count_find, count_or_zero, bump, count_find-bump}
use smtstabilizer.Kernel.Rebuild.Rows.{listed}
use smtstabilizer.Kernel.Rebuild.{count_hashes, mark_ambiguous}

-- How often `h` occurs.
abbrev pub occurrences : ℕ → List ℕ → ℕ
occurrences h [] = 0
occurrences h (x ∷ xs) = let rest = occurrences h xs in if x == h then suc rest else rest

abbrev pub hashes_of : List ℕ → List ℕ → List ℕ
hashes_of table ns = map (λ n. get_or table n 0) ns

pub count_hashes-occurrences :
    (table ns : List ℕ) (counts : Counts)
    → All (λ n. n < length table) ns
    → (counts' : Counts) × (count_hashes table ns counts ≡ ok counts')
      × ((h : ℕ)
          → count_or_zero (count_find counts' h)
            ≡ count_or_zero (count_find counts h) + occurrences h (hashes_of table ns))
unfolding count_hashes
count_hashes-occurrences table [] counts below = (counts, refl, λ h. omega arith)
count_hashes-occurrences table (n ∷ ns) counts below =
    let g = get_or table n 0 in
    let (counts', returns, counted) = count_hashes-occurrences table ns (bump g counts) below.1 in
    (
      counts',
      rw (get_elem?-get_or table n 0 below.0) returns,
      λ h. counted h ∙ elim (Bool-cases (g == h)) [
        | inl y ↦ rw (count_find-bump g h counts, y, (==_iff g h).0 y) (omega arith)
        | inr n ↦ rw (count_find-bump g h counts, n) (omega arith)
      ],
    )

pub present : (o : Option ℕ) → 0 < count_or_zero o → (c : ℕ) × (o ≡ some c)
present none h = absurd (omega arith)
present (some c) h = (c, refl)

-- The hash of a listed node occurs.
pub occurrences-listed :
    (table ns : List ℕ) → All (λ n. 0 < occurrences (get_or table n 0) (hashes_of table ns)) ns
occurrences-listed table [] = tt
occurrences-listed table (n ∷ ns) =
    (ground arith, All-mono (λ m h. ground arith) ns (occurrences-listed table ns))

module _ (counts : Counts) (table : List ℕ) where
  abbrev pub is_ambiguous : ℕ → Bool
  is_ambiguous n = ltb 1 (count_or_zero (count_find counts (get_or table n 0)))

  -- A vector of marks that are all on ambiguous nodes.
  abbrev pub IsSound : List Bool → Type 0
  IsSound visited = (i : ℕ) → get_or visited i false ≡ true → is_ambiguous i ≡ true

  IsSound-set :
      (visited : List Bool) (n : ℕ)
      → IsSound visited
      → is_ambiguous n ≡ true
      → IsSound (set visited n true)
  IsSound-set visited n sound amb i h = elim (ℕ_discrete n i) [
    | yes e ↦ subst (λ j. is_ambiguous j ≡ true) e amb
    | no ne ↦ sound i (sym (get_or-set_ne visited n i true false ne) ∙ h)
  ]

  -- The round of the second loop for one node.
  unfoldable marked : ℕ → List Bool → List Bool
  marked n visited = if is_ambiguous n then set visited n true else visited

  abbrev Countable : List Bool → ℕ → Type 0
  Countable visited n =
      (n < length table)
      × (n < length visited)
      × (c : ℕ) × (count_find counts (get_or table n 0) ≡ some c)

  marked-lem :
      (visited : List Bool) (n : ℕ)
      → n < length visited
      → IsSound visited
      → IsSound (marked n visited)
        × (length (marked n visited) ≡ length visited)
        × ((i : ℕ) → get_or visited i false ≡ true → get_or (marked n visited) i false ≡ true)
        × (is_ambiguous n ≡ true → get_or (marked n visited) n false ≡ true)
  unfolding marked
  marked-lem visited n l sound = elim (Bool-cases (is_ambiguous n)) [
    | inl amb ↦ rw amb (
      IsSound-set visited n sound amb,
      length-set visited n true,
      (λ i h. elim (ℕ_discrete n i) [
        | yes e ↦
            subst (λ j. get_or (set visited n true) j false ≡ true) e
              (get_or-set_self visited n true false l)
        | no ne ↦ get_or-set_ne visited n i true false ne ∙ h
      ]),
      λ _. get_or-set_self visited n true false l,
    )
    | inr clear ↦ rw clear (sound, refl, (λ i h. h), λ e. cc)
  ]

  marked_elsewhere :
      (visited : List Bool) (n i : ℕ)
      → (i == n) ≡ false
      → get_or (marked n visited) i false ≡ get_or visited i false
  unfolding marked
  marked_elsewhere visited n i d = elim (Bool-cases (is_ambiguous n)) [
    | inl amb ↦ rw amb (get_or-set_ne visited n i true false (λ e. absurd (ground arith)))
    | inr clear ↦ rw clear refl
  ]

  mark_ambiguous-round :
      (n : ℕ) (ns : List ℕ) (visited : List Bool)
      → Countable visited n
      → mark_ambiguous counts table (n ∷ ns) visited
        ≡ mark_ambiguous counts table ns (marked n visited)
  unfolding mark_ambiguous marked
  mark_ambiguous-round n ns visited (l, lv, c, found) =
      rw (get_elem?-get_or table n 0 l, found)
        (elim (Bool-cases (ltb 1 c)) [
          | inl y ↦ rw (y, get_elem?-get_or visited n false lv) refl
          | inr z ↦ rw z refl
        ])

  -- The second loop marks every ambiguous node of the list, and no other node.
  pub mark_ambiguous-marks :
      (ns : List ℕ) (visited : List Bool)
      → All (Countable visited) ns
      → IsSound visited
      → (visited' : List Bool) × (mark_ambiguous counts table ns visited ≡ ok visited')
        × (length visited' ≡ length visited)
        × IsSound visited'
        × ((i : ℕ) → get_or visited i false ≡ true → get_or visited' i false ≡ true)
        × All (λ n. get_or visited' n false ≡ is_ambiguous n) ns
        × ((i : ℕ) → listed i ns ≡ false → get_or visited' i false ≡ get_or visited i false)
  unfolding mark_ambiguous
  mark_ambiguous-marks [] visited below sound =
      (visited, refl, refl, sound, (λ i h. h), tt, (λ i h. refl))
  mark_ambiguous-marks (n ∷ ns) visited ((l, lv, c, found), below) sound =
      let (sound', sized, keeps, marks) = marked-lem visited n lv sound in
      let (visited', returns, sized', sound'', keeps', all, frame) =
        mark_ambiguous-marks ns (marked n visited)
          (All-mono (λ m (b, v, d, f). (b, omega (arith, sized), d, f)) ns below) sound' in
      (
        visited',
        mark_ambiguous-round n ns visited (l, lv, c, found) ∙ returns,
        sized' ∙ sized,
        sound'',
        (λ i h. keeps' i (keeps i h)),
        (
          elim (Bool-cases (is_ambiguous n)) [
            | inl amb ↦ keeps' n (marks amb) ∙ sym amb
            | inr clear ↦ elim (Bool-cases (get_or visited' n false)) [
              | inl y ↦ absurd (true≢false (sym (sound'' n y) ∙ clear))
              | inr z ↦ z ∙ sym clear
            ]
          ],
          all,
        ),
        (λ i h. frame i (ground arith) ∙ marked_elsewhere visited n i (ground arith)),
      )
