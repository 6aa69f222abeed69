-- ===== src/Queue/Selection.antt =====
-- What a query for a row of the queue asks for (src/queue.rs, runner/src/database.rs), in terms of
-- numbers, lists and names instead of the tests of the queries.
use janitor.Base.{
  String, ℕ, ◌+◌, ◌<◌, ◌≡◌, ◌≢◌, refl, Option, none, some, List, [], ◌∷◌, Bool, true, false, not,
  arith, ◌⊎◌, inl, inr, str_eq, eq_iff, any, ◌==◌, ltb, filterb, All, Bool-cases, if◌then◌else◌,
  Option-cases, ltb→lt,
}
use janitor.Base.Int.{ℤ, pos_part, neg_part, ltb_ℤ}
use janitor.Base.Order.{IsTotalOrder, first, sort_by, select_some, select_none, All-map}
use mathlib.Core.List.{Memᴰ}
use janitor.Queue.Listing.{is_wanted, host_is_kept, is_empty_list}
use janitor.Queue.Rows.{QueueItem}

-- The name is the one that is asked for, if one is.
abbrev pub IsExpected : Option String → String → Type 0
IsExpected none name = Unit {0}
IsExpected (some expected) name = name ≡ expected

abbrev HostIsOther : List String → Option String → Type 0
HostIsOther hosts none = hosts ≡ []
HostIsOther hosts (some host) = All (λ other. host ≢ other) hosts

-- There is no URL, or its host is none of these; a URL without a host passes only an empty list.
abbrev pub HostIsKept : (String → Option String) → List String → Option String → Type 0
HostIsKept host_of hosts none = Unit {0}
HostIsKept host_of hosts (some url) = HostIsOther hosts (host_of url)

-- The same, where the hosts may not be given.
abbrev pub HostPasses : (String → Option String) → Option (List String) → Option String → Type 0
HostPasses host_of none url = Unit {0}
HostPasses host_of (some hosts) url = HostIsKept host_of hosts url

-- a < b and a = b, for integers.
abbrev pub IsBelow : ℤ → ℤ → Type 0
IsBelow a b = pos_part a + neg_part b < pos_part b + neg_part a

abbrev pub IsLevel : ℤ → ℤ → Type 0
IsLevel a b = pos_part a + neg_part b ≡ pos_part b + neg_part a

-- The row that is picked is one of those that pass, and precedes them all; where none is picked,
-- none passes.
abbrev pub IsPick :
    (QueueItem → Type 0)
    → (QueueItem → QueueItem → Type 0)
    → List QueueItem
    → Option QueueItem
    → Type 0
IsPick Passes Precedes rows none = All (λ row. ¬ Passes row) rows
IsPick Passes Precedes rows (some row) =
    Memᴰ row rows × Passes row × All (λ other. Passes other → Precedes row other) rows

-- One key of an order, before the others.
pub by_key :
    (x y : ℕ) (rest : Bool)
    → (if ltb x y then true else if ltb y x then false else rest) ≡ true
    → (x < y) ⊎ ((x ≡ y) × (rest ≡ true))
by_key x y rest h = elim (Bool-cases (ltb x y)) [
  | inl e ↦ inl (ltb→lt x y e)
  | inr e ↦ inr (ground (arith, h, e), ground (arith, h, e))
]

pub by_integer_key :
    (x y : ℤ) (rest : Bool)
    → (if ltb_ℤ x y then true else if ltb_ℤ y x then false else rest) ≡ true
    → IsBelow x y ⊎ (IsLevel x y × (rest ≡ true))
by_integer_key x y rest h = by_key (pos_part x + neg_part y) (pos_part y + neg_part x) rest h

pub is_wanted-true :
    (o : Option String) (name : String) → is_wanted o name ≡ true → IsExpected o name
unfolding is_wanted
is_wanted-true none name h = tt
is_wanted-true (some expected) name h = (eq_iff name expected).0 h

pub is_wanted_if : (o : Option String) (name : String) → IsExpected o name → is_wanted o name ≡ true
unfolding is_wanted
is_wanted_if none name h = refl
is_wanted_if (some expected) name h = (eq_iff name expected).1 h

pub id-unassigned :
    (x : ℕ) (ids : List ℕ) → not (any (λ id. id == x) ids) ≡ true → All (λ id. id ≢ x) ids
id-unassigned x [] h = tt
id-unassigned x (id ∷ rest) h = (ground (arith, h), id-unassigned x rest (ground (arith, h)))

pub id-unassigned_if :
    (x : ℕ) (ids : List ℕ) → All (λ id. id ≢ x) ids → not (any (λ id. id == x) ids) ≡ true
id-unassigned_if x [] h = refl
id-unassigned_if x (id ∷ rest) (other, others) =
    ground (arith, other, id-unassigned_if x rest others)

host-other :
    (host : String) (hosts : List String)
    → not (any (str_eq host) hosts) ≡ true
    → All (λ other. host ≢ other) hosts
host-other host [] h = tt
host-other host (x ∷ rest) h =
    (ground (arith, h, eq_iff host x), host-other host rest (ground (arith, h)))

host-other_if :
    (host : String) (hosts : List String)
    → All (λ other. host ≢ other) hosts
    → not (any (str_eq host) hosts) ≡ true
host-other_if host [] h = refl
host-other_if host (x ∷ rest) (other, others) =
    ground (arith, other, eq_iff host x, host-other_if host rest others)

module _ (host_of : String → Option String) (hosts : List String) where
  host_is_kept-cases :
      (url : String) (o : Option String)
      → host_of url ≡ o
      → (host_is_kept host_of hosts (some url) ≡ true → HostIsOther hosts o)
        × (HostIsOther hosts o → host_is_kept host_of hosts (some url) ≡ true)
  unfolding host_is_kept is_empty_list
  host_is_kept-cases url none e = rw (e, host_is_kept) (λ h. ground (arith, h), λ h. rw h refl)
  host_is_kept-cases url (some host) e =
      rw (e, host_is_kept) (host-other host hosts, host-other_if host hosts)

  pub host_is_kept-true :
      (url : Option String) → host_is_kept host_of hosts url ≡ true → HostIsKept host_of hosts url
  host_is_kept-true none h = tt
  host_is_kept-true (some url) h = (host_is_kept-cases url (host_of url) refl).0 h

  pub host_is_kept_if :
      (url : Option String) → HostIsKept host_of hosts url → host_is_kept host_of hosts url ≡ true
  unfolding host_is_kept
  host_is_kept_if none h = refl
  host_is_kept_if (some url) h = (host_is_kept-cases url (host_of url) refl).1 h

module _ (test : QueueItem → Bool) (Passes : QueueItem → Type 0)
    (sound : (row : QueueItem) → test row ≡ true → Passes row)
    (complete : (row : QueueItem) → Passes row → test row ≡ true)
    (before : QueueItem → QueueItem → Bool) (Precedes : QueueItem → QueueItem → Type 0)
    (order : IsTotalOrder before)
    (orders : (a b : QueueItem) → before a b ≡ true → Precedes a b) where
  all_preceded :
      (row : QueueItem) (rows : List QueueItem)
      → All (λ other. before row other ≡ true) (filterb test rows)
      → All (λ other. Passes other → Precedes row other) rows
  all_preceded row [] h = tt
  all_preceded row (other ∷ rest) h = elim (Bool-cases (test other)) [
    | inl e ↦ let kept = rw e at h in (λ p. orders row other kept.0, all_preceded row rest kept.1)
    | inr e ↦ (λ p. absurd (cc (complete other p)), all_preceded row rest (rw e at h))
  ]

  -- The first row of a query, after its WHERE and ORDER BY.
  pub select-IsPick :
      (rows : List QueueItem)
      → IsPick Passes Precedes rows (first (sort_by before (filterb test rows)))
  select-IsPick rows = elim (Option-cases (first (sort_by before (filterb test rows)))) [
    | inl e ↦ rw e (
        All-map (λ row. test row ≡ false) (λ row. ¬ Passes row) rows
          (λ row f p. absurd (cc (complete row p))) (select_none before test rows e))
    | inr (row, e) ↦
        let best = select_some before order test rows row e in
        rw e (best.0, sound row best.1, all_preceded row rows best.2)
  ]
