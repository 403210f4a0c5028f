-- ===== src/Traceflow/Tags.antt =====
-- The data plane tags: what allocateTag, deallocateTag and occupyTag of
-- pkg/controller/traceflow/controller.go do to the map of running Traceflows.
use antrea.Common.{
  ℕ, zero, suc, ◌+◌, ◌≤◌, ◌<◌, ◌≡◌, ◌≢◌, inl, inr, refl, sym, subst, ◌&&◌, String, true, false,
  ◌||◌, none, some, [], ◌∷◌, arith, nat_eq, string_eq, ltb, ◌==◌, if◌then◌else◌, Map, get, put,
  get-put, get-remove, Unique, Unique-put, Unique-remove, Bool-cases, Option-cases, ==_iff,
}
use antrea.Traceflow.{
  Controller, Traceflow, Err, upper_limit_reached, min_tag_num, max_tag_num, occupy_tag, has_name,
  first_free, allocate_tag, deallocate_tag, new_controller,
}

pub has_name-get :
    (m : Map ℕ String) (n : String) → Unique m → has_name m n ≡ true → (t : ℕ) × (get m t ≡ some n)
unfolding has_name get
has_name-get [] n u h = absurd (cc)
has_name-get ((k, v) ∷ m) n u h = elim (Bool-cases (string_eq.beq v n)) [
  | inl e ↦ (k, ground (arith, ==_iff k k, string_eq.beq_iff v n))
  | inr e ↦ let (t, g) = has_name-get m n u.1 (ground arith) in (t, ground (arith, ==_iff k t))
]

pub has_name-none :
    (m : Map ℕ String) (n : String) (t : ℕ) → has_name m n ≡ false → get m t ≢ some n
unfolding has_name get
has_name-none [] n t h g = cc
has_name-none ((k, v) ∷ m) n t h g = ground (arith, string_eq.beq_iff v n, has_name-none m n t)

pub first_free-some :
    (rounds i : ℕ) (m : Map ℕ String) (t : ℕ)
    → first_free rounds i m ≡ some t
    → (i ≤ t) × (t < i + rounds) × (get m t ≡ none)
unfolding first_free
first_free-some zero i m t h = absurd (cc)
first_free-some (suc rounds) i m t h = ground (arith, first_free-some rounds (i + 1) m t)

pub first_free-least :
    (rounds i : ℕ) (m : Map ℕ String) (t u : ℕ)
    → first_free rounds i m ≡ some t
    → i ≤ u
    → u < t
    → get m u ≢ none
unfolding first_free
first_free-least zero i m t u h a b = absurd (cc)
first_free-least (suc rounds) i m t u h a b =
    ground (arith, ==_iff i u, first_free-least rounds (i + 1) m t u)

pub first_free-none :
    (rounds i : ℕ) (m : Map ℕ String) (u : ℕ)
    → first_free rounds i m ≡ none
    → i ≤ u
    → u < i + rounds
    → get m u ≢ none
unfolding first_free
first_free-none zero i m u h a b = absurd (omega arith)
first_free-none (suc rounds) i m u h a b = ground (arith, first_free-none rounds (i + 1) m u)

-- The map has one entry for a tag, its tags lie between 1 and 14, and no Traceflow has two.
pub record IsValid (c : Controller) : Type 0 where
  pub unique : Unique c.running_traceflows
  pub in_range :
      (t : ℕ) (n : String)
      → get c.running_traceflows t ≡ some n
      → (min_tag_num ≤ t) × (t ≤ max_tag_num)
  pub one_tag :
      (t u : ℕ) (n : String)
      → get c.running_traceflows t ≡ some n
      → get c.running_traceflows u ≡ some n
      → t ≡ u

-- How a call of allocateTag with `name` ends, for the controller before and after it.
pub data Allocates (c : Controller) (name : String) (c' : Controller) (tag : ℕ) (err : Err)
    : Type 0 where
  already :
      (t : ℕ)
      → get c.running_traceflows t ≡ some name
      → c' ≡ c
      → tag ≡ 0
      → err ≡ none
      → Allocates c name c' tag err
  allocated :
      ((t : ℕ) → get c.running_traceflows t ≢ some name)
      → (min_tag_num ≤ tag)
      → (tag ≤ max_tag_num)
      → get c.running_traceflows tag ≡ none
      → ((u : ℕ) → min_tag_num ≤ u → u < tag → get c.running_traceflows u ≢ none)
      → c'.running_traceflows ≡ put c.running_traceflows tag name
      → err ≡ none
      → Allocates c name c' tag err
  full :
      ((t : ℕ) → get c.running_traceflows t ≢ some name)
      → ((u : ℕ) → min_tag_num ≤ u → u ≤ max_tag_num → get c.running_traceflows u ≢ none)
      → c' ≡ c
      → tag ≡ 0
      → err ≡ some upper_limit_reached
      → Allocates c name c' tag err

-- allocateTag leaves a Traceflow that has a tag alone and returns 0; else it gives the lowest free
-- tag from 1 to 14 to the name and changes nothing else; and it fails, with no change, only if all
-- of these tags are taken.
pub allocate_tag-Allocates :
    (c : Controller) (name : String)
    → Unique c.running_traceflows
    → Allocates c name (allocate_tag c name).0 (allocate_tag c name).1 (allocate_tag c name).2
allocate_tag-Allocates c name u = elim (Bool-cases (has_name c.running_traceflows name)) [
  | inl old ↦
      let (t, g) = has_name-get c.running_traceflows name u old in
      unfold allocate_tag in rw old (already t g refl refl refl)
  | inr new ↦ elim (Option-cases (first_free 14 min_tag_num c.running_traceflows)) [
    | inl e ↦
        unfold allocate_tag in
        rw new (
          rw e (
            full (λ t. has_name-none c.running_traceflows name t new)
              (λ u a b. first_free-none 14 min_tag_num c.running_traceflows u e a (omega arith))
              refl refl refl))
    | inr (i, e) ↦
        let (lo, hi, free) = first_free-some 14 min_tag_num c.running_traceflows i e in
        unfold allocate_tag in
        rw new (
          rw e (
            allocated (λ t. has_name-none c.running_traceflows name t new) lo (omega arith) free
              (λ u a b. first_free-least 14 min_tag_num c.running_traceflows i u e a b) refl refl))
  ]
]

new_tag-IsValid :
    (c : Controller) (tag : ℕ) (name : String)
    → IsValid c
    → ((t : ℕ) → get c.running_traceflows t ≢ some name)
    → min_tag_num ≤ tag
    → tag ≤ max_tag_num
    → IsValid (record { running_traceflows = put c.running_traceflows tag name })
new_tag-IsValid c tag name v new lo hi = record {
  unique = Unique-put c.running_traceflows tag name v.unique;
  in_range = λ t n g.
      ground (arith, get-put c.running_traceflows tag t name, ==_iff tag t, v.in_range t n);
  one_tag = λ t u n g h. ground (
    arith,
    get-put c.running_traceflows tag t name,
    get-put c.running_traceflows tag u name,
    ==_iff tag t,
    ==_iff tag u,
    v.one_tag t u n,
    new t,
    new u,
  );
}

pub Allocates-IsValid :
    {c c' : Controller} {name : String} {tag : ℕ} {err : Err}
    → Allocates c name c' tag err
    → IsValid c
    → IsValid c'
Allocates-IsValid (already t g e _ _) v = rw e v
Allocates-IsValid (full _ _ e _ _) v = rw e v
Allocates-IsValid {c} {name = name} {tag = tag} (allocated new lo hi _ _ e _) v =
    subst (λ m. IsValid (record { running_traceflows = m })) (sym e)
      (new_tag-IsValid c tag name v new lo hi)

pub allocate_tag-IsValid :
    (c : Controller) (name : String) → IsValid c → IsValid (allocate_tag c name).0
allocate_tag-IsValid c name v = Allocates-IsValid (allocate_tag-Allocates c name v.unique) v

-- deallocateTag takes back a tag only from the Traceflow that has it, and no other lookup changes.
pub get-deallocate_tag :
    (c : Controller) (name : String) (tag j : ℕ)
    → get (deallocate_tag c name tag).running_traceflows j ≡ (
        if (tag == j)
          && (elim (get c.running_traceflows tag) [ none ↦ false | some n ↦ string_eq.beq name n ])
        then none
        else get c.running_traceflows j)
unfolding deallocate_tag
get-deallocate_tag c name tag j =
    ground (arith, get-remove c.running_traceflows tag j, ==_iff tag j)

pub deallocate_tag-IsValid :
    (c : Controller) (name : String) (tag : ℕ) → IsValid c → IsValid (deallocate_tag c name tag)
deallocate_tag-IsValid c name tag v = record {
  unique = unfold deallocate_tag in ground (arith, Unique-remove c.running_traceflows tag v.unique);
  in_range = λ t n g. ground (arith, get-deallocate_tag c name tag t, v.in_range t n);
  one_tag = λ t u n g h.
      ground
        (arith, get-deallocate_tag c name tag t, get-deallocate_tag c name tag u, v.one_tag t u n);
}

pub occupy_tag-IsValid :
    (c : Controller) (tf : Traceflow)
    → IsValid c
    → ((t : ℕ) → get c.running_traceflows t ≢ some tf.name)
    → IsValid (occupy_tag c tf).0
unfolding occupy_tag
occupy_tag-IsValid c tf v new =
    elim (Bool-cases (ltb tf.dataplane_tag min_tag_num || ltb max_tag_num tf.dataplane_tag)) [
      | inl out ↦ rw out v
      | inr inside ↦ elim (Option-cases (get c.running_traceflows tf.dataplane_tag)) [
        | inl e ↦
            rw inside (
              rw e (new_tag-IsValid c tf.dataplane_tag tf.name v new (ground arith) (ground arith)))
        | inr (n, e) ↦ rw inside (
            rw e (elim (Bool-cases (string_eq.beq tf.name n)) [
              | inl same ↦ rw same v
              | inr other ↦ rw other v
            ]))
      ]
    ]

-- A tag that was given out and is taken back at once leaves every lookup as it was.
pub get-deallocate-allocate :
    (c : Controller) (name : String) (j : ℕ)
    → Unique c.running_traceflows
    → let (c', tag, err) = allocate_tag c name in
      tag ≢ 0 → get (deallocate_tag c' name tag).running_traceflows j ≡ get c.running_traceflows j
get-deallocate-allocate c name j u nz = go (allocate_tag-Allocates c name u) nz
  where
    go :
        {c' : Controller} {tag : ℕ} {err : Err}
        → Allocates c name c' tag err
        → tag ≢ 0
        → get (deallocate_tag c' name tag).running_traceflows j ≡ get c.running_traceflows j
    go (already _ _ _ z _) nz = absurd (nz z)
    go (full _ _ _ z _) nz = absurd (nz z)
    go {c' = c'} {tag = tag} (allocated _ _ _ free _ e _) nz = ground (
      arith,
      get-deallocate_tag c' name tag j,
      get-put c.running_traceflows tag j name,
      get-put c.running_traceflows tag tag name,
      ==_iff tag j,
      ==_iff tag tag,
      string_eq.beq_iff name name,
      e,
    )

pub new_controller-IsValid : IsValid new_controller
unfolding new_controller get
new_controller-IsValid = record {
  unique = tt;
  in_range = λ t n g. absurd (cc);
  one_tag = λ t u n g h. absurd (cc);
}
