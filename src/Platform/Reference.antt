-- ===== src/Platform/Reference.antt =====
-- A platform that meets the laws: it shows that they can hold, and runs the tests.
use os_pintos.Base.{
  ℕ, ◌≡◌, refl, sym, subst, true, false, List, [], ◌∷◌, ◌++◌, arith, if◌then◌else◌,
}
use os_pintos.Base.{length, is_empty, has, ◌==◌, ◌||◌, All, Bool-cases, inl, inr}
use os_pintos.Base.Sorted.{IsSorted, HeadOk, IsAsym, IsNegTrans}
use os_pintos.Platform.{Less, Platform}

abbrev front : List ℕ → ℕ
front [] = 0
front (x ∷ l) = x

abbrev pop : List ℕ → ℕ × List ℕ
pop [] = (0, [])
pop (x ∷ l) = (x, l)

abbrev insert : List ℕ → ℕ → Less → List ℕ
insert [] x less = x ∷ []
insert (y ∷ l) x less = if less x y then x ∷ y ∷ l else y ∷ insert l x less

abbrev remove : ℕ → List ℕ → List ℕ
remove x [] = []
remove x (y ∷ l) = if x == y then l else y ∷ remove x l

abbrev max_from : ℕ → List ℕ → Less → ℕ
max_from m [] less = m
max_from m (y ∷ l) less = max_from (if less m y then y else m) l less

abbrev maximum : List ℕ → Less → ℕ
maximum [] less = 0
maximum (x ∷ l) less = max_from x l less

pub insert_splits :
    (l : List ℕ) (x : ℕ) (less : Less)
    → (before : List ℕ) × (after : List ℕ) × (l ≡ before ++ after)
      × (insert l x less ≡ before ++ x ∷ after)
insert_splits [] x less = ([], [], refl, refl)
insert_splits (y ∷ l) x less = elim (Bool-cases (less x y)) [
  | inl e ↦ ([], y ∷ l, refl, ground arith)
  | inr e ↦ let (b, a, p, q) = insert_splits l x less in (y ∷ b, a, ground arith, ground arith)
]

insert-HeadOk :
    (y x : ℕ) (l : List ℕ) (less : Less)
    → less x y ≡ false
    → HeadOk less y l
    → HeadOk less y (insert l x less)
insert-HeadOk y x [] less h k = h
insert-HeadOk y x (z ∷ l) less h k = ground arith

pub insert-IsSorted :
    (l : List ℕ) (x : ℕ) (less : Less)
    → IsAsym less
    → IsSorted less l
    → IsSorted less (insert l x less)
insert-IsSorted [] x less asym s = (tt, tt)
insert-IsSorted (y ∷ l) x less asym s =
    ground (arith, asym x y, insert-HeadOk y x l less, insert-IsSorted l x less asym s.1)

pub remove_lem :
    (x : ℕ) (before after : List ℕ)
    → has x before ≡ false
    → remove x (before ++ x ∷ after) ≡ before ++ after
remove_lem x [] after h = ground arith
remove_lem x (y ∷ before) after h = ground (arith, remove_lem x before after)

max_from_mem :
    (m : ℕ) (l : List ℕ) (less : Less)
    → ((max_from m l less == m) || has (max_from m l less) l) ≡ true
max_from_mem m [] less = ground arith
max_from_mem m (y ∷ l) less = ground (arith, max_from_mem m l less, max_from_mem y l less)

pub maximum_mem : (x : ℕ) (l : List ℕ) (less : Less) → has (maximum (x ∷ l) less) (x ∷ l) ≡ true
maximum_mem x l less = max_from_mem x l less

pub max_from_highest :
    (m : ℕ) (l : List ℕ) (less : Less)
    → IsAsym less
    → IsNegTrans less
    → All (λ y. less (max_from m l less) y ≡ false) (m ∷ l)
max_from_highest m [] less asym neg = (ground (arith, asym m m), tt)
max_from_highest m (y ∷ l) less asym neg = elim (Bool-cases (less m y)) [
  | inl more ↦
      let (top, others) = max_from_highest y l less asym neg in
      let same : max_from m (y ∷ l) less ≡ max_from y l less = rw more refl in
      subst (λ x. All (λ z. less x z ≡ false) (m ∷ y ∷ l)) (sym same)
        (neg (max_from y l less) y m top (asym m y more), (top, others))
  | inr no_more ↦
      let (top, others) = max_from_highest m l less asym neg in
      let same : max_from m (y ∷ l) less ≡ max_from m l less = rw no_more refl in
      subst (λ x. All (λ z. less x z ≡ false) (m ∷ y ∷ l)) (sym same)
        (top, (neg (max_from m l less) m y top no_more, others))
]

instance abbrev pub reference : Platform
reference = record {
  list_empty = is_empty;
  list_front = front;
  list_pop_front = pop;
  list_push_back = λ l x. l ++ x ∷ [];
  list_insert_ordered = insert;
  list_remove = remove;
  list_max = maximum;
  list_size = length;
  intr_disable = λ i. record i { on = false };
  intr_set_level = λ b i. record i { on = b };
  intr_yield_on_return = λ i. record i { yield_on_return = true };
  switch_entry_frame = 4;
  switch_threads_frame = 28;
  switch_entry = 0xc002_1000;
  kernel_thread = 0xc002_2000;
  list_empty_lem = λ l. refl;
  list_front_lem = λ x l. refl;
  list_pop_front_lem = λ x l. refl;
  list_push_back_lem = λ l x. refl;
  list_size_lem = λ l. refl;
  list_insert_ordered_splits = insert_splits;
  list_insert_ordered-IsSorted = insert-IsSorted;
  list_remove_lem = remove_lem;
  list_max_mem = maximum_mem;
  list_max_highest = max_from_highest;
  intr_disable_lem = λ i. refl;
  intr_set_level_lem = λ b i. refl;
  intr_yield_on_return_lem = λ i. refl;
}
