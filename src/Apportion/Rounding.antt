-- ===== src/Apportion/Rounding.antt =====
-- The floors and the remainders of the split, and how often a holding stands in a list.
-- How often a holding's id stands in a list of holdings.
use fund_lok.Prelude.{
  ℕ, zero, suc, ◌+◌, ◌-◌, ◌*◌, ◌≤◌, ◌<◌, ◌≡◌, refl, ap, ◌∙◌, Bool, List, [], ◌∷◌, arith, ◌==◌,
  if◌then◌else◌, length, All, lookup-insert, All-map, All-zip, sorted-All, sum_by-sorted,
}
use fund_lok.Db.{Holding}
use native.Mathlib.Nat.{div-add-mod, mod-lt}
use fund_lok.Apportion.{
  Floors, floor_round, floors_from, add_leftover, base_share, remainder, total_principal, sum_by,
  Dict, get_or, sorted, take, insert,
}

abbrev pub occurrences : ℕ → List Holding → ℕ
occurrences x hs = sum_by (λ (h : Holding). if h.id == x then 1 else 0) hs

-- No holding's id stands again later in the list.
abbrev pub HasNoRepeat : List Holding → Type 0
HasNoRepeat [] = Unit
HasNoRepeat (h ∷ hs) = (occurrences h.id hs ≡ 0) × HasNoRepeat hs

pub get_or-add_leftover :
    (shares : Dict ℕ) (taken : List Holding) (x : ℕ)
    → get_or (add_leftover shares taken) x 0 ≡ get_or shares x 0 + occurrences x taken
unfolding add_leftover
get_or-add_leftover shares [] x = omega arith
get_or-add_leftover shares (h ∷ taken) x =
    get_or-add_leftover (insert h.id (get_or shares h.id 0 + 1) shares) taken x
    ∙ ground (arith, lookup-insert h.id x (get_or shares h.id 0 + 1) shares)

-- Each holding's id stands once in the list: `id` is the primary key.
abbrev pub HasUniqueIds : List Holding → Type 0
HasUniqueIds hs = All (λ (h : Holding). occurrences h.id hs ≡ 1) hs

-- The dict after the floors: each holding of the list has its own, any other id keeps what it had.
pub shares-floors_from_other :
    (total amount : ℕ) (f : Floors) (hs : List Holding) (x : ℕ)
    → occurrences x hs ≡ 0
    → get_or (floors_from total amount f hs).shares x 0 ≡ get_or f.shares x 0
unfolding floors_from
shares-floors_from_other total amount f [] x h = refl
shares-floors_from_other total amount f (g ∷ hs) x h =
    shares-floors_from_other total amount (floor_round total amount f g) hs x (ground arith)
    ∙ unfold floor_round in
      ground (arith, lookup-insert g.id x (base_share total amount g) f.shares)

-- `holding` and the amounts that the dicts hold for it.
abbrev pub HasFloor : ℕ → ℕ → Dict ℕ → Holding → Type 0
HasFloor total amount shares h = get_or shares h.id 0 ≡ base_share total amount h

pub shares-floors_from :
    (total amount : ℕ) (f : Floors) (hs : List Holding)
    → HasNoRepeat hs
    → All (HasFloor total amount (floors_from total amount f hs).shares) hs
unfolding floors_from
shares-floors_from total amount f [] u = tt
shares-floors_from total amount f (g ∷ hs) u = (
  shares-floors_from_other total amount (floor_round total amount f g) hs g.id u.0
      ∙ unfold floor_round in
        ground (arith, lookup-insert g.id g.id (base_share total amount g) f.shares),
  shares-floors_from total amount (floor_round total amount f g) hs u.1,
)

pub floor_sum-floors_from :
    (total amount : ℕ) (f : Floors) (hs : List Holding)
    → (floors_from total amount f hs).floor_sum ≡ f.floor_sum + sum_by (base_share total amount) hs
unfolding floors_from
floor_sum-floors_from total amount f [] = omega arith
floor_sum-floors_from total amount f (g ∷ hs) =
    floor_sum-floors_from total amount (floor_round total amount f g) hs
    ∙ unfold floor_round in omega arith

-- Every holding's entitlement is its floor and its remainder.
pub floors_and_remainders :
    (total amount : ℕ) (hs : List Holding)
    → total * sum_by (base_share total amount) hs + sum_by (remainder total amount) hs
      ≡ total_principal hs * amount
floors_and_remainders total amount [] = omega arith
floors_and_remainders total amount (h ∷ hs) =
    grind (arith, floors_and_remainders total amount hs, div-add-mod (h.principal * amount) total)

pub remainders-lt :
    (total amount : ℕ) (hs : List Holding)
    → 0 < total
    → sum_by (remainder total amount) hs + length hs ≤ length hs * total
remainders-lt total amount [] h = omega arith
remainders-lt total amount (g ∷ hs) h =
    grind (arith, remainders-lt total amount hs h, mod-lt (g.principal * amount) h)

pub occurrences-pos :
    (hs : List Holding) (g : Holding)
    → All (λ (h : Holding). 0 < occurrences h.id (g ∷ hs)) (g ∷ hs)
occurrences-pos [] g = (ground arith, tt)
occurrences-pos (h ∷ hs) g = (
  ground arith,
  All-map (λ (x : Holding) (p : 0 < occurrences x.id (h ∷ hs)). omega arith) (h ∷ hs)
      (occurrences-pos hs h),
)

pub HasUniqueIds-tail : (g : Holding) (hs : List Holding) → HasUniqueIds (g ∷ hs) → HasUniqueIds hs
HasUniqueIds-tail g [] u = tt
HasUniqueIds-tail g (h ∷ hs) u =
    All-map
      (λ (x : Holding) (p : (occurrences x.id (g ∷ h ∷ hs) ≡ 1) × (0 < occurrences x.id (h ∷ hs))).
        omega arith)
      (h ∷ hs) (All-zip _ _ (h ∷ hs) u.1 (occurrences-pos hs h))

pub HasUniqueIds-HasNoRepeat : (hs : List Holding) → HasUniqueIds hs → HasNoRepeat hs
HasUniqueIds-HasNoRepeat [] u = tt
HasUniqueIds-HasNoRepeat (h ∷ hs) u =
    (ground (arith, u.0), HasUniqueIds-HasNoRepeat hs (HasUniqueIds-tail h hs u))

pub HasUniqueIds-sorted :
    (precedes : Holding → Holding → Bool) (hs : List Holding)
    → HasUniqueIds hs
    → HasUniqueIds (sorted precedes hs)
HasUniqueIds-sorted precedes hs u =
    sorted-All precedes (λ (h : Holding). occurrences h.id (sorted precedes hs) ≡ 1) hs
      (All-map
        (λ (x : Holding) (p : occurrences x.id hs ≡ 1).
          sum_by-sorted precedes (λ (h : Holding). if h.id == x.id then 1 else 0) hs ∙ p)
        hs u)

pub count_pairs_step :
    (h : Holding) (hs ts : List Holding)
    → occurrences h.id ts + sum_by (λ (t : Holding). occurrences t.id hs) ts
      ≡ sum_by (λ (t : Holding). occurrences t.id (h ∷ hs)) ts
count_pairs_step h hs [] = refl
count_pairs_step h hs (t ∷ ts) = ground (arith, count_pairs_step h hs ts)

-- Counting the pairs of equal ids in two lists, by either list first.
pub count_pairs :
    (hs ts : List Holding)
    → sum_by (λ (h : Holding). occurrences h.id ts) hs
      ≡ sum_by (λ (t : Holding). occurrences t.id hs) ts
count_pairs [] [] = refl
count_pairs [] (t ∷ ts) = omega (arith, count_pairs [] ts)
count_pairs (h ∷ hs) ts = omega (arith, count_pairs hs ts, count_pairs_step h hs ts)

pub sum_by-one :
    (f : Holding → ℕ) (ts : List Holding)
    → All (λ (t : Holding). f t ≡ 1) ts
    → sum_by f ts ≡ length ts
sum_by-one f [] h = refl
sum_by-one f (t ∷ ts) h = omega (arith, h.0, sum_by-one f ts h.1)

pub sum_by-congr :
    (f g : Holding → ℕ) (hs : List Holding)
    → All (λ (h : Holding). f h ≡ g h) hs
    → sum_by f hs ≡ sum_by g hs
sum_by-congr f g [] h = refl
sum_by-congr f g (x ∷ hs) h = omega (arith, h.0, sum_by-congr f g hs h.1)

pub sum_by-add :
    (f g : Holding → ℕ) (hs : List Holding)
    → sum_by (λ (h : Holding). f h + g h) hs ≡ sum_by f hs + sum_by g hs
sum_by-add f g [] = refl
sum_by-add f g (x ∷ hs) = omega (arith, sum_by-add f g hs)

pub floor_le : (t f r a : ℕ) → 0 < t → t * f + r ≡ t * a → f ≤ a
floor_le t f r a positive e = grind arith

pub quotient_lt : (t d r n : ℕ) → 0 < n → t * d ≡ r → r + n ≤ n * t → d < n
quotient_lt t d r n some_items e bound = grind arith

pub left_lt : (t f r a n : ℕ) → 0 < t → 0 < n → t * f + r ≡ t * a → r + n ≤ n * t → a - f < n
left_lt t f r a n positive some_items e bound =
    quotient_lt t (a - f) r n some_items
      (omega (arith, e, ap (λ (x : ℕ). t * x) (split (floor_le t f r a positive e)))) bound
  where
    split : f ≤ a → a ≡ f + (a - f)
    split h = omega arith

pub some_holding : (hs : List Holding) → 0 < total_principal hs → 0 < length hs
some_holding [] h = h
some_holding (x ∷ hs) h = omega arith

abbrev pub HasRemainder : ℕ → ℕ → Dict ℕ → Holding → Type 0
HasRemainder total amount remainders h = get_or remainders h.id 0 ≡ remainder total amount h

remainders-floors_from_other :
    (total amount : ℕ) (f : Floors) (hs : List Holding) (x : ℕ)
    → occurrences x hs ≡ 0
    → get_or (floors_from total amount f hs).remainders x 0 ≡ get_or f.remainders x 0
unfolding floors_from
remainders-floors_from_other total amount f [] x h = refl
remainders-floors_from_other total amount f (g ∷ hs) x h =
    remainders-floors_from_other total amount (floor_round total amount f g) hs x (ground arith)
    ∙ unfold floor_round in
      ground (arith, lookup-insert g.id x (remainder total amount g) f.remainders)

pub remainders-floors_from :
    (total amount : ℕ) (f : Floors) (hs : List Holding)
    → HasNoRepeat hs
    → All (HasRemainder total amount (floors_from total amount f hs).remainders) hs
unfolding floors_from
remainders-floors_from total amount f [] u = tt
remainders-floors_from total amount f (g ∷ hs) u = (
  remainders-floors_from_other total amount (floor_round total amount f g) hs g.id u.0
      ∙ unfold floor_round in
        ground (arith, lookup-insert g.id g.id (remainder total amount g) f.remainders),
  remainders-floors_from total amount (floor_round total amount f g) hs u.1,
)

pub occurrences-take : (x n : ℕ) (hs : List Holding) → occurrences x (take n hs) ≤ occurrences x hs
occurrences-take x zero hs = omega arith
occurrences-take x (suc n) [] = omega arith
occurrences-take x (suc n) (h ∷ hs) = omega (arith, occurrences-take x n hs)
