-- ===== src/Django/Cache.antt =====
-- `django.core.cache.cache`. Times are microseconds, timeouts are seconds. An entry is there from its
-- `set` until its timeout has passed or it is deleted; the laws leave out eviction for lack of memory.
use hivewiki_web.Base.{
  ℕ, ◌+◌, ◌*◌, ◌≤◌, ◌≡◌, refl, Bool, true, false, Option, none, some, ltb, is_some, Bool-cases, inl,
  inr, if◌then◌else◌,
}

abbrev pub second : ℕ
second = 1_000_000

-- `same` decides whether two keys are equal.
pub record Cache (K V : Type 0) (same : K → K → Bool) : Type 1 where
  pub Store : Type 0
  -- `get now key`
  pub get : ℕ → K → Store → Option V
  -- `set now key value timeout`
  pub set : ℕ → K → V → ℕ → Store → Store
  -- `add now key value timeout`: stores unless the key is there, and says whether it stored.
  pub add : ℕ → K → V → ℕ → Store → Bool × Store
  pub delete : K → Store → Store
  pub get-set :
      (now t : ℕ) (k j : K) (v : V) (d : ℕ) (s : Store)
      → now ≤ t
      → get t j (set now k v d s)
        ≡ (if same k j then (if ltb t (now + d * second) then some v else none) else get t j s)
  pub get-delete :
      (t : ℕ) (k j : K) (s : Store) → get t j (delete k s) ≡ (if same k j then none else get t j s)
  pub add-eq-set :
      (now : ℕ) (k : K) (v : V) (d : ℕ) (s : Store)
      → add now k v d s ≡ (if is_some (get now k s) then (false, s) else (true, set now k v d s))

-- A cache that meets the laws: a function from keys to values with the time at which they end.
module _ {V : Type 0} where
  abbrev pub entry_at : ℕ → Option (V × ℕ) → Option V
  entry_at t none = none
  entry_at t (some (v, end)) = if ltb t end then some v else none

module _ {K V : Type 0} (same : K → K → Bool) where
  abbrev pub put_entry : ℕ → K → V → ℕ → (K → Option (V × ℕ)) → K → Option (V × ℕ)
  put_entry now k v d s j = if same k j then some (v, now + d * second) else s j

  pub get-put_entry :
      (now t : ℕ) (k j : K) (v : V) (d : ℕ) (s : K → Option (V × ℕ))
      → entry_at t (put_entry now k v d s j) ≡ (
          if same k j
          then (if ltb t (now + d * second) then some v else none)
          else entry_at t (s j))
  get-put_entry now t k j v d s = elim (Bool-cases (same k j)) [ inl e ↦ rw e | inr e ↦ rw e ]

  pub get-drop_entry :
      (t : ℕ) (k j : K) (s : K → Option (V × ℕ))
      → entry_at t (if same k j then none else s j) ≡ (if same k j then none else entry_at t (s j))
  get-drop_entry t k j s = elim (Bool-cases (same k j)) [ inl e ↦ rw e | inr e ↦ rw e ]

  abbrev pub table_cache : Cache K V same
  table_cache = record {
    Store = K → Option (V × ℕ);
    get = λ t k s. entry_at t (s k);
    set = put_entry;
    add = λ now k v d s.
        if is_some (entry_at now (s k)) then (false, s) else (true, put_entry now k v d s);
    delete = λ k s j. if same k j then none else s j;
    get-set = λ now t k j v d s h. get-put_entry now t k j v d s;
    get-delete = get-drop_entry;
    add-eq-set = λ now k v d s. refl;
  }
