-- ===== src/Base/Order.antt =====
-- `WHERE`, `ORDER BY` and `LIMIT`: the rows that satisfy a test, sorted by a Boolean order, in which
-- `before x y` says that x does not come after y.
use mathlib.Core.Path.{◌≡◌, refl, sym, ap, ◌∙◌}
use mathlib.Core.Logic.{inl, inr}
use mathlib.Core.Bool.{Bool, true, false}
use mathlib.Core.List.{List, [], ◌∷◌, Memᴰ, Permᴰ}
use mathlib.Core.List.Permᴰ
use mathlib.Core.Option.{Option, none, some}
use Prim.Native.Nat.{ℕ, zero, suc, ◌≤◌}
use native.Mathlib.Omega.{arith}
use janitor.Base.Lists.{All, filterb, length}
use janitor.Base.Tests.{if◌then◌else◌, Bool-cases, is_some}

pub record IsTotalOrder {ℓ} {A : Type ℓ} (before : A → A → Bool) : Type ℓ where
  pub total : (x y : A) → before x y ≡ false → before y x ≡ true
  pub transitive : (x y z : A) → before x y ≡ true → before y z ≡ true → before x z ≡ true

-- A strict order of which neither side need come first.
pub record IsWeakOrder {ℓ} {A : Type ℓ} (under : A → A → Bool) : Type ℓ where
  pub asymmetric : (x y : A) → under x y ≡ true → under y x ≡ false
  pub negative : (x y z : A) → under x y ≡ false → under y z ≡ false → under x z ≡ false

-- One more column of an `ORDER BY`, before the others.
abbrev pub then_by {ℓ} : {A : Type ℓ} → (A → A → Bool) → (A → A → Bool) → A → A → Bool
then_by under before x y = if under x y then true else if under y x then false else before x y

pub then_by-IsTotalOrder {ℓ} :
    {A : Type ℓ} (under before : A → A → Bool)
    → IsWeakOrder under
    → IsTotalOrder before
    → IsTotalOrder (then_by under before)
then_by-IsTotalOrder under before w o = record {
  total = λ x y e. ground (arith, e, o.total x y, w.asymmetric x y);
  transitive = λ x y z e f. ground (
    arith,
    e,
    f,
    o.transitive x y z,
    w.asymmetric x y,
    w.asymmetric y z,
    w.asymmetric z x,
    w.negative x z y,
    w.negative z y x,
    w.negative y x z,
  );
}

module _ {ℓ} {A : Type ℓ} where
  abbrev pub first : List A → Option A
  first [] = none
  first (x ∷ xs) = some x

  -- `LIMIT n`
  abbrev pub take : ℕ → List A → List A
  take zero xs = []
  take (suc n) [] = []
  take (suc n) (x ∷ xs) = x ∷ take n xs

  pub take_all : (n : ℕ) (xs : List A) → length xs ≤ n → take n xs ≡ xs
  take_all zero [] h = refl
  take_all zero (x ∷ xs) h = absurd (omega (arith, h))
  take_all (suc n) [] h = refl
  take_all (suc n) (x ∷ xs) h = ap (λ ys. x ∷ ys) (take_all n xs (omega (arith, h)))

  pub first-take : (xs : List A) → first (take 1 xs) ≡ first xs
  first-take [] = refl
  first-take (x ∷ xs) = refl

  pub Memᴰ-filterb :
      (p : A → Bool) (x : A) (xs : List A) → Memᴰ x (filterb p xs) → Memᴰ x xs × (p x ≡ true)
  Memᴰ-filterb p x [] m = elim m [ ]
  Memᴰ-filterb p x (y ∷ ys) m = elim (Bool-cases (p y)) [
    | inl e ↦ elim (rw e at m) [
      | Memᴰ.head f ↦ (Memᴰ.head f, rw f e)
      | Memᴰ.tail t ↦ (Memᴰ.tail (Memᴰ-filterb p x ys t).0, (Memᴰ-filterb p x ys t).1)
    ]
    | inr e ↦ let found = Memᴰ-filterb p x ys (rw e at m) in (Memᴰ.tail found.0, found.1)
  ]

  pub All-Memᴰ {κ} : (P : A → Type κ) (x : A) (xs : List A) → Memᴰ x xs → All P xs → P x
  All-Memᴰ P x [] m ps = elim m [ ]
  All-Memᴰ P x (y ∷ ys) (Memᴰ.head e) (p, ps) = rw e p
  All-Memᴰ P x (y ∷ ys) (Memᴰ.tail t) (p, ps) = All-Memᴰ P x ys t ps

  pub All-map {κ μ} :
      (P : A → Type κ) (Q : A → Type μ) (xs : List A) → ((x : A) → P x → Q x) → All P xs → All Q xs
  All-map P Q [] f ps = tt
  All-map P Q (x ∷ xs) f (p, ps) = (f x p, All-map P Q xs f ps)

  pub All-Permᴰ {κ} : (P : A → Type κ) {xs ys : List A} → Permᴰ xs ys → All P xs → All P ys
  All-Permᴰ P Permᴰ.nil ps = tt
  All-Permᴰ P (Permᴰ.cons e r) (p, ps) = (rw (← e) p, All-Permᴰ P r ps)
  All-Permᴰ P (Permᴰ.swap e f) (p, (q, ps)) = (rw (← f) q, (rw (← e) p, ps))
  All-Permᴰ P (Permᴰ.trans r t) ps = All-Permᴰ P t (All-Permᴰ P r ps)

  pub Memᴰ-Permᴰ : (x : A) {xs ys : List A} → Permᴰ xs ys → Memᴰ x xs → Memᴰ x ys
  Memᴰ-Permᴰ x Permᴰ.nil m = elim m [ ]
  Memᴰ-Permᴰ x (Permᴰ.cons e r) (Memᴰ.head f) = Memᴰ.head (f ∙ e)
  Memᴰ-Permᴰ x (Permᴰ.cons e r) (Memᴰ.tail m) = Memᴰ.tail (Memᴰ-Permᴰ x r m)
  Memᴰ-Permᴰ x (Permᴰ.swap e f) (Memᴰ.head g) = Memᴰ.tail (Memᴰ.head (g ∙ e))
  Memᴰ-Permᴰ x (Permᴰ.swap e f) (Memᴰ.tail (Memᴰ.head g)) = Memᴰ.head (g ∙ f)
  Memᴰ-Permᴰ x (Permᴰ.swap e f) (Memᴰ.tail (Memᴰ.tail m)) = Memᴰ.tail (Memᴰ.tail m)
  Memᴰ-Permᴰ x (Permᴰ.trans r t) m = Memᴰ-Permᴰ x t (Memᴰ-Permᴰ x r m)

  module _ (before : A → A → Bool) where
    abbrev pub insert_by : A → List A → List A
    insert_by x [] = x ∷ []
    insert_by x (y ∷ ys) = if before x y then x ∷ y ∷ ys else y ∷ insert_by x ys

    abbrev pub sort_by : List A → List A
    sort_by [] = []
    sort_by (x ∷ xs) = insert_by x (sort_by xs)

    abbrev pub IsSorted : List A → Type ℓ
    IsSorted [] = Unit
    IsSorted (x ∷ xs) = All (λ y. before x y ≡ true) xs × IsSorted xs

    All-insert_by {κ} :
        (P : A → Type κ) (x : A) (xs : List A) → P x → All P xs → All P (insert_by x xs)
    All-insert_by P x [] p ps = (p, tt)
    All-insert_by P x (y ∷ ys) p ps = elim (Bool-cases (before x y)) [
      | inl e ↦ rw e (p, ps)
      | inr e ↦ rw e (ps.0, All-insert_by P x ys p ps.1)
    ]

    insert_by-IsSorted :
        IsTotalOrder before → (x : A) (xs : List A) → IsSorted xs → IsSorted (insert_by x xs)
    insert_by-IsSorted o x [] s = (tt, tt)
    insert_by-IsSorted o x (y ∷ ys) s = elim (Bool-cases (before x y)) [
      | inl e ↦ rw e (
        (
          e,
          All-map (λ z. before y z ≡ true) (λ z. before x z ≡ true) ys (λ z. o.transitive x y z e)
              s.0,
        ),
        s,
      )
      | inr e ↦ rw e (
        All-insert_by (λ z. before y z ≡ true) x ys (o.total x y e) s.0,
        insert_by-IsSorted o x ys s.1,
      )
    ]

    pub sort_by-IsSorted : IsTotalOrder before → (xs : List A) → IsSorted (sort_by xs)
    sort_by-IsSorted o [] = tt
    sort_by-IsSorted o (x ∷ xs) = insert_by-IsSorted o x (sort_by xs) (sort_by-IsSorted o xs)

    insert_by-Permᴰ : (x : A) (xs : List A) → Permᴰ (insert_by x xs) (x ∷ xs)
    insert_by-Permᴰ x [] = Permᴰ.refl (x ∷ [])
    insert_by-Permᴰ x (y ∷ ys) = elim (Bool-cases (before x y)) [
      | inl e ↦ rw e (Permᴰ.refl (x ∷ y ∷ ys))
      | inr e ↦ rw e (Permᴰ.trans (Permᴰ.cons refl (insert_by-Permᴰ x ys)) (Permᴰ.swap refl refl))
    ]

    pub sort_by-Permᴰ : (xs : List A) → Permᴰ (sort_by xs) xs
    sort_by-Permᴰ [] = Permᴰ.nil
    sort_by-Permᴰ (x ∷ xs) =
        Permᴰ.trans (insert_by-Permᴰ x (sort_by xs)) (Permᴰ.cons refl (sort_by-Permᴰ xs))

    pub length-sort_by : (xs : List A) → length (sort_by xs) ≡ length xs
    length-sort_by [] = refl
    length-sort_by (x ∷ xs) = omega (arith, length-insert_by x (sort_by xs), length-sort_by xs)
      where
        length-insert_by : (y : A) (ys : List A) → length (insert_by y ys) ≡ suc (length ys)
        length-insert_by y [] = refl
        length-insert_by y (z ∷ zs) = ground (arith, length-insert_by y zs)

    self : IsTotalOrder before → (x : A) → before x x ≡ true
    self o x = elim (Bool-cases (before x x)) [ inl e ↦ e | inr e ↦ o.total x x e ]

    -- The first row after sorting comes before every row.
    pub first_least :
        IsTotalOrder before
        → (xs : List A) (x : A) → first (sort_by xs) ≡ some x
        → Memᴰ x xs × All (λ y. before x y ≡ true) xs
    first_least o xs x e = found (sort_by xs) e (sort_by-IsSorted o xs) (sort_by-Permᴰ xs)
      where
        found :
            (sorted : List A)
            → first sorted ≡ some x
            → IsSorted sorted
            → Permᴰ sorted xs
            → Memᴰ x xs × All (λ y. before x y ≡ true) xs
        found [] f s r = absurd (cc f)
        found (y ∷ ys) f s r =
            let same : y ≡ x = cc f in
            (
              Memᴰ-Permᴰ x r (Memᴰ.head (sym same)),
              rw (← same) (All-Permᴰ (λ z. before y z ≡ true) r (self o y, s.0)),
            )

    insert_by-is_some : (x : A) (xs : List A) → is_some (first (insert_by x xs)) ≡ true
    insert_by-is_some x [] = refl
    insert_by-is_some x (y ∷ ys) = elim (Bool-cases (before x y)) [
      | inl e ↦ rw e refl
      | inr e ↦ rw e refl
    ]

    -- Sorting leaves no row only where there was none.
    pub first-none : (xs : List A) → first (sort_by xs) ≡ none → xs ≡ []
    first-none [] e = refl
    first-none (x ∷ xs) e = absurd (cc (rw e at (insert_by-is_some x (sort_by xs))))

    -- The first of the rows that satisfy a test is one of them and comes before them all.
    pub select_some :
        IsTotalOrder before
        → (p : A → Bool) (xs : List A) (x : A) → first (sort_by (filterb p xs)) ≡ some x
        → Memᴰ x xs × (p x ≡ true) × All (λ y. before x y ≡ true) (filterb p xs)
    select_some o p xs x e =
        let least = first_least o (filterb p xs) x e in
        let here = Memᴰ-filterb p x xs least.0 in (here.0, here.1, least.1)

    none_left : (p : A → Bool) (xs : List A) → filterb p xs ≡ [] → All (λ x. p x ≡ false) xs
    none_left p [] e = tt
    none_left p (x ∷ xs) e = elim (Bool-cases (p x)) [
      | inl f ↦ absurd (cc (rw f at e))
      | inr f ↦ (f, none_left p xs (rw f at e))
    ]

    -- There is no first one only where no row satisfies the test.
    pub select_none :
        (p : A → Bool) (xs : List A)
        → first (sort_by (filterb p xs)) ≡ none
        → All (λ x. p x ≡ false) xs
    select_none p xs e = none_left p xs (first-none (filterb p xs) e)
