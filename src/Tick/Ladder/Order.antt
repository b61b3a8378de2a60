-- ===== src/Tick/Ladder/Order.antt =====
-- pydefi/pathfinder/v3_tick_math.py: a ladder is sorted, and a swap crosses its ticks in order.
use mathlib.Core.List.{reverse, Perm}
use mathlib.Core.List.Perm
use pydefi.Common.{
  ℕ, suc, ◌≤◌, ◌≡◌, refl, ap, Bool, true, false, List, [], ◌∷◌, ◌++◌, arith, ltb, leb,
  if◌then◌else◌, All, take, drop, Bool-cases, inl, inr,
}
use pydefi.Tick.Ladder.{
  Tick, insert_tick, sort_ticks, prices_of, make_ladder, bisect_left, bisect_right, crossings,
  min_sentinel, max_sentinel,
}

-- Prices do not fall along the list.
abbrev pub IsSorted : List Tick → Type 0
IsSorted [] = Unit
IsSorted (t ∷ ts) = All (λ u. t.sqrt_price ≤ u.sqrt_price) ts × IsSorted ts

All-weaken :
    (a b : ℕ) (ts : List Tick)
    → a ≤ b
    → All (λ u. b ≤ u.sqrt_price) ts
    → All (λ u. a ≤ u.sqrt_price) ts
All-weaken a b [] h e = tt
All-weaken a b (t ∷ ts) h e = (omega arith, All-weaken a b ts h e.1)

All-insert :
    (a : ℕ) (t : Tick) (ts : List Tick)
    → a ≤ t.sqrt_price
    → All (λ u. a ≤ u.sqrt_price) ts
    → All (λ u. a ≤ u.sqrt_price) (insert_tick t ts)
unfolding insert_tick
All-insert a t [] h e = (h, tt)
All-insert a t (u ∷ us) h e = ground (arith, All-insert a t us h e.1)

insert_tick-IsSorted : (t : Tick) (ts : List Tick) → IsSorted ts → IsSorted (insert_tick t ts)
unfolding insert_tick
insert_tick-IsSorted t [] h = (tt, tt)
insert_tick-IsSorted t (u ∷ us) h = ground (
  arith,
  insert_tick-IsSorted t us h.1,
  All-weaken t.sqrt_price u.sqrt_price us,
  All-insert u.sqrt_price t us,
)

sort_ticks-IsSorted : (ts : List Tick) → IsSorted (sort_ticks ts)
unfolding sort_ticks
sort_ticks-IsSorted [] = tt
sort_ticks-IsSorted (t ∷ ts) = insert_tick-IsSorted t (sort_ticks ts) (sort_ticks-IsSorted ts)

insert_tick-perm : (t : Tick) (ts : List Tick) → Perm (insert_tick t ts) (t ∷ ts)
unfolding insert_tick
insert_tick-perm t [] = Perm.refl (t ∷ [])
insert_tick-perm t (u ∷ us) = elim (Bool-cases (leb t.sqrt_price u.sqrt_price)) [
  | inl e ↦ rw e (Perm.refl (t ∷ u ∷ us))
  | inr e ↦ rw e (Perm.trans (Perm.cons u (insert_tick-perm t us)) (Perm.swap t u us))
]

sort_ticks-perm : (ts : List Tick) → Perm (sort_ticks ts) ts
unfolding sort_ticks
sort_ticks-perm [] = Perm.refl []
sort_ticks-perm (t ∷ ts) =
    Perm.trans (insert_tick-perm t (sort_ticks ts)) (Perm.cons t (sort_ticks-perm ts))

-- The ticks whose price passes a test, in the order of the list.
abbrev pub select : (ℕ → Bool) → List Tick → List Tick
select f [] = []
select f (t ∷ ts) = let rest = select f ts in if f t.sqrt_price then t ∷ rest else rest

select_none_below :
    (p : ℕ) (ts : List Tick) → All (λ u. p ≤ u.sqrt_price) ts → select (λ q. ltb q p) ts ≡ []
select_none_below p [] h = refl
select_none_below p (t ∷ ts) h = ground (arith, select_none_below p ts h.1)

select-All_above :
    (p : ℕ) (ts : List Tick) → All (λ u. suc p ≤ u.sqrt_price) ts → select (λ q. ltb p q) ts ≡ ts
select-All_above p [] h = refl
select-All_above p (t ∷ ts) h = ground (arith, select-All_above p ts h.1)

take-bisect_left :
    (p : ℕ) (ts : List Tick)
    → IsSorted ts
    → take (bisect_left (prices_of ts) p) ts ≡ select (λ q. ltb q p) ts
unfolding bisect_left
take-bisect_left p [] h = refl
take-bisect_left p (t ∷ ts) h =
    ground (arith, take-bisect_left p ts h.1, select_none_below p ts, All-weaken p t.sqrt_price ts)

drop-bisect_right :
    (p : ℕ) (ts : List Tick)
    → IsSorted ts
    → drop (bisect_right (prices_of ts) p) ts ≡ select (λ q. ltb p q) ts
unfolding bisect_right
drop-bisect_right p [] h = refl
drop-bisect_right p (t ∷ ts) h =
    ground
      (arith, drop-bisect_right p ts h.1, select-All_above p ts, All-weaken (suc p) t.sqrt_price ts)

-- A ladder holds the ticks that it is given, each as often, with prices that do not fall.
pub make_ladder-IsSorted :
    (ts : List Tick) → IsSorted (make_ladder ts).ticks × Perm (make_ladder ts).ticks ts
unfolding make_ladder
make_ladder-IsSorted ts = (sort_ticks-IsSorted ts, sort_ticks-perm ts)

-- A swap downward crosses the ticks strictly below its price, highest first, then the lower bound;
-- upward those strictly above, lowest first, then the upper bound.
pub crossings_lem :
    (ts : List Tick) (p : ℕ)
    → (crossings (make_ladder ts) p true
        ≡ reverse (select (λ q. ltb q p) (make_ladder ts).ticks) ++ (min_sentinel ∷ []))
      × (crossings (make_ladder ts) p false
          ≡ select (λ q. ltb p q) (make_ladder ts).ticks ++ (max_sentinel ∷ []))
unfolding crossings make_ladder
crossings_lem ts p = (
  ap (λ l. reverse l ++ (min_sentinel ∷ []))
      (take-bisect_left p (sort_ticks ts) (sort_ticks-IsSorted ts)),
  ap (λ l. l ++ (max_sentinel ∷ [])) (drop-bisect_right p (sort_ticks ts) (sort_ticks-IsSorted ts)),
)
