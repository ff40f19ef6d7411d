-- ===== src/Core/WikiMarkdown/Toc.antt =====
-- The counters of `annotate_toc_items` against a count over the headings that came before.
use hivewiki_web.Base.{
  ℕ, zero, suc, ◌+◌, ◌-◌, ◌≤◌, ◌<◌, min, ◌≡◌, refl, some, List, [], ◌∷◌, arith, ◌==◌, ltb,
  if◌then◌else◌, length, get_or, replicate, All,
}
use hivewiki_web.Core.WikiMarkdown.{
  TocItem, AnnotatedItem, min_level, add_one_at, zero_from, toc_label, annotate_from,
  annotate_toc_items,
}

-- How many headings of a level came since the last shallower one, the latest heading first.
abbrev pub siblings : ℕ → List ℕ → ℕ
siblings level [] = 0
siblings level (h ∷ hs) =
    if ltb h level then 0 else if h == level then siblings level hs + 1 else siblings level hs

-- The table of contents by that count, with no counters kept.
abbrev pub numbered : ℕ → List ℕ → List TocItem → List AnnotatedItem
numbered lowest past [] = []
numbered lowest past (x ∷ xs) =
    (record {
      item = x;
      toc_level = x.level - lowest + 1;
      label = toc_label (x.level - lowest + 1) (siblings x.level past + 1);
    })
    ∷ numbered lowest (x.level ∷ past) xs

abbrev pub numbered_toc : List TocItem → List AnnotatedItem
numbered_toc [] = []
numbered_toc (x ∷ xs) = numbered (min_level x.level xs) [] (x ∷ xs)

-- The level that HEADING_RE gives a heading.
abbrev pub IsHeading : TocItem → Type 0
IsHeading x = (1 ≤ x.level) × (x.level ≤ 6)

bumped :
    (i : ℕ) (cs : List ℕ)
    → i < length cs
    → (ds : List ℕ) × (add_one_at i cs ≡ some ds)
      × (length ds ≡ length cs)
      × ((j : ℕ) → get_or ds j 0 ≡ (if j == i then get_or cs j 0 + 1 else get_or cs j 0))
unfolding add_one_at
bumped i [] h = elim h [ ]
bumped zero (c ∷ cs) h = ((c + 1) ∷ cs, refl, refl, by_place)
  where
    by_place :
        (j : ℕ)
        → get_or ((c + 1) ∷ cs) j 0
          ≡ (if j == zero then get_or (c ∷ cs) j 0 + 1 else get_or (c ∷ cs) j 0)
    by_place zero = refl
    by_place (suc j) = ground arith
bumped (suc i) (c ∷ cs) h =
    let (ds, e, l, g) = bumped i cs (omega arith) in (c ∷ ds, rw e, omega (arith, l), step ds g)
  where
    step :
        (ds : List ℕ)
        → ((j : ℕ) → get_or ds j 0 ≡ (if j == i then get_or cs j 0 + 1 else get_or cs j 0))
        → (j : ℕ)
        → get_or (c ∷ ds) j 0
          ≡ (if j == suc i then get_or (c ∷ cs) j 0 + 1 else get_or (c ∷ cs) j 0)
    step ds g zero = ground arith
    step ds g (suc j) = ground (arith, g j)

length-zero_from : (n : ℕ) (cs : List ℕ) → length (zero_from n cs) ≡ length cs
unfolding zero_from
length-zero_from n [] = refl
length-zero_from zero (c ∷ cs) = omega (arith, length-zero_from zero cs)
length-zero_from (suc n) (c ∷ cs) = omega (arith, length-zero_from n cs)

get_or-zero_from :
    (n : ℕ) (cs : List ℕ) (j : ℕ)
    → get_or (zero_from n cs) j 0 ≡ (if ltb j n then get_or cs j 0 else 0)
unfolding zero_from
get_or-zero_from n [] j = ground arith
get_or-zero_from zero (c ∷ cs) zero = refl
get_or-zero_from zero (c ∷ cs) (suc j) = ground (arith, get_or-zero_from zero cs j)
get_or-zero_from (suc n) (c ∷ cs) zero = ground arith
get_or-zero_from (suc n) (c ∷ cs) (suc j) = ground (arith, get_or-zero_from n cs j)

module _ (lowest : ℕ) where
  -- The counters hold, level by level, the count over the past.
  abbrev Counts : List ℕ → List ℕ → Type 0
  Counts cs past = (length cs ≡ 6) × ((j : ℕ) → j < 6 → get_or cs j 0 ≡ siblings (lowest + j) past)

  next-Counts :
      (level : ℕ) (cs ds past : List ℕ)
      → lowest ≤ level
      → Counts cs past
      → length ds ≡ length cs
      → ((j : ℕ)
          → get_or ds j 0 ≡ (if j == level - lowest then get_or cs j 0 + 1 else get_or cs j 0))
      → Counts (zero_from (level - lowest + 1) ds) (level ∷ past)
  next-Counts level cs ds past low h len g = (
    omega (arith, length-zero_from (level - lowest + 1) ds, h.0),
    λ j lt. ground (arith, get_or-zero_from (level - lowest + 1) ds j, g j, h.1 j lt),
  )

  abbrev IsInRange : TocItem → Type 0
  IsInRange x = (lowest ≤ x.level) × (x.level < lowest + 6)

  step :
      (x : TocItem) (xs : List TocItem) (cs ds : List ℕ) (n : ℕ) (out : List AnnotatedItem)
      → add_one_at (x.level - lowest) cs ≡ some ds
      → annotate_from lowest (zero_from (x.level - lowest + 1) ds) xs ≡ some out
      → get_or (zero_from (x.level - lowest + 1) ds) (x.level - lowest) 0 ≡ n
      → annotate_from lowest cs (x ∷ xs)
        ≡ some (
            (record {
              item = x;
              toc_level = x.level - lowest + 1;
              label = toc_label (x.level - lowest + 1) n;
            })
            ∷ out)
  unfolding annotate_from
  step x xs cs ds n out e rest number =
      let at : x.level - lowest + 1 - 1 ≡ x.level - lowest = omega arith in
      rw (at, e, rest, at, number, annotate_from) refl

  -- The counter that the label shows.
  count_at :
      (level : ℕ) (cs ds past : List ℕ)
      → lowest ≤ level
      → level < lowest + 6
      → Counts cs past
      → ((j : ℕ)
          → get_or ds j 0 ≡ (if j == level - lowest then get_or cs j 0 + 1 else get_or cs j 0))
      → get_or (zero_from (level - lowest + 1) ds) (level - lowest) 0 ≡ siblings level past + 1
  count_at level cs ds past low high h g =
      let back : lowest + (level - lowest) ≡ level = omega arith in
      let counted = h.1 (level - lowest) (omega arith) in
      ground (
        arith,
        rw back at counted,
        get_or-zero_from (level - lowest + 1) ds (level - lowest),
        g (level - lowest),
      )

  annotate_from-eq :
      (xs : List TocItem) (cs past : List ℕ)
      → All IsInRange xs
      → Counts cs past
      → annotate_from lowest cs xs ≡ some (numbered lowest past xs)
  unfolding annotate_from
  annotate_from-eq [] cs past r h = refl
  annotate_from-eq (x ∷ xs) cs past ((low, high), r) h =
      let (ds, e, len, g) = bumped (x.level - lowest) cs (omega (arith, h.0)) in
      step x xs cs ds (siblings x.level past + 1) _ e
        (annotate_from-eq xs (zero_from (x.level - lowest + 1) ds) (x.level ∷ past) r
          (next-Counts x.level cs ds past low h len g))
        (count_at x.level cs ds past low high h g)

min_level-le : (m : ℕ) (xs : List TocItem) → min_level m xs ≤ m
min_level-le m [] = omega arith
min_level-le m (x ∷ xs) = omega (arith, min_level-le (min m x.level) xs)

min_level-pos : (m : ℕ) (xs : List TocItem) → 1 ≤ m → All IsHeading xs → 1 ≤ min_level m xs
min_level-pos m [] h r = h
min_level-pos m (x ∷ xs) h r = min_level-pos (min m x.level) xs (omega arith) r.1

IsInRange-min_level :
    (m : ℕ) (xs : List TocItem)
    → 1 ≤ m
    → All IsHeading xs
    → (lowest : ℕ) → lowest ≤ min_level m xs
    → 1 ≤ lowest
    → All (IsInRange lowest) xs
IsInRange-min_level m [] h r lowest le pos = tt
IsInRange-min_level m (x ∷ xs) h r lowest le pos = (
  (omega (arith, min_level-le (min m x.level) xs), omega arith),
  IsInRange-min_level (min m x.level) xs (omega arith) r.1 lowest le pos,
)

zeros : (j : ℕ) → ◌≡◌ {A = ℕ} (get_or (replicate 6 0) j 0) 0
zeros zero = refl
zeros (suc zero) = refl
zeros (suc (suc zero)) = refl
zeros (suc (suc (suc zero))) = refl
zeros (suc (suc (suc (suc zero)))) = refl
zeros (suc (suc (suc (suc (suc zero))))) = refl
zeros (suc (suc (suc (suc (suc (suc j)))))) = refl

-- For headings of levels 1 to 6 `annotate_toc_items` raises no IndexError, and it returns the
-- entries in order, each with its level counted from the shallowest heading and a label whose number
-- is one more than the headings of that level since the last shallower heading.
pub annotate_toc_items-eq-numbered :
    (items : List TocItem)
    → All IsHeading items
    → annotate_toc_items items ≡ some (numbered_toc items)
unfolding annotate_toc_items
annotate_toc_items-eq-numbered [] h = refl
annotate_toc_items-eq-numbered (x ∷ xs) h =
    let lowest = min_level x.level xs in
    let pos : 1 ≤ lowest = min_level-pos x.level xs h.0.0 h.1 in
    annotate_from-eq lowest (x ∷ xs) (replicate 6 0) []
      (
        (min_level-le x.level xs, omega arith),
        IsInRange-min_level x.level xs h.0.0 h.1 lowest (omega arith) pos,
      )
      (refl, λ j lt. zeros j)
