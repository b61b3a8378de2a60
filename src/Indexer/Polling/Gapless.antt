-- ===== src/Indexer/Polling/Gapless.antt =====
-- pydefi/indexer/indexer.py: live polling skips no block.
use Prim.{absurd}
use pydefi.Types.{Address, bytes_eq, bytes_eq_iff}
use pydefi.Common.{
  ℕ, suc, ◌≡◌, ◌≤◌, ◌<◌, ◌⊎◌, inl, inr, refl, sym, ap, subst, Bool-cases, false, some, List, [],
  ◌∷◌, ◌++◌, ltb, if◌then◌else◌, leb, leb→le, Result, ok, err, Exception, arith,
}
use pydefi.Graph.Search.Route.{In}
use pydefi.Indexer.Polling.{
  Checkpoints, get_last, set_last, set_all, candidate, earliest, PoolIndexer, is_empty, advance,
  poll_once, run,
}

get_last-set_last : (cs : Checkpoints) (a : Address) (n : ℕ) → get_last (set_last cs a n) a ≡ some n
get_last-set_last [] a n = rw ((bytes_eq_iff a a).1 refl) refl
get_last-set_last ((k, m) ∷ cs) a n = elim (Bool-cases (bytes_eq k a)) [
  | inl e ↦ rw (e, e) refl
  | inr e ↦ rw (e, e) (get_last-set_last cs a n)
]

set_last-keeps :
    (cs : Checkpoints) (a b : Address) (n : ℕ)
    → get_last cs a ≡ some n
    → get_last (set_last cs b n) a ≡ some n
set_last-keeps [] a b n h = cc
set_last-keeps ((k, m) ∷ cs) a b n h = elim (Bool-cases (bytes_eq k b)) [
  | inl e ↦ rw e (elim (Bool-cases (bytes_eq k a)) [
    | inl f ↦ rw f refl
    | inr f ↦ rw f (let g : get_last cs a ≡ some n = rw f at h in g)
  ])
  | inr e ↦ rw e (elim (Bool-cases (bytes_eq k a)) [
    | inl f ↦ rw f (let g : some m ≡ some n = rw f at h in g)
    | inr f ↦ rw f (set_last-keeps cs a b n (rw f at h))
  ])
]

set_all-keeps :
    (cs : Checkpoints) (a : Address) (bs : List Address) (n : ℕ)
    → get_last cs a ≡ some n
    → get_last (set_all cs bs n) a ≡ some n
set_all-keeps cs a [] n h = h
set_all-keeps cs a (b ∷ bs) n h = set_all-keeps (set_last cs b n) a bs n (set_last-keeps cs a b n h)

get_last-set_all :
    (cs : Checkpoints) (a : Address) (bs : List Address) (n : ℕ)
    → In a bs
    → get_last (set_all cs bs n) a ≡ some n
get_last-set_all cs a [] n i = elim i [ ]
get_last-set_all cs a (b ∷ bs) n (inl i) =
    set_all-keeps (set_last cs b n) a bs n
      (subst (λ x. get_last (set_last cs b n) x ≡ some n) (sym i) (get_last-set_last cs b n))
get_last-set_all cs a (b ∷ bs) n (inr i) = get_last-set_all (set_last cs b n) a bs n i

In-append : {A : Type 0} (x : A) (xs ys : List A) → In x xs → In x (xs ++ ys)
In-append x [] ys i = elim i [ ]
In-append x (y ∷ xs) ys (inl i) = inl i
In-append x (y ∷ xs) ys (inr i) = inr (In-append x xs ys i)

earliest-le :
    (cs : Checkpoints) (n : ℕ) (as' : List Address) (from : ℕ) → earliest cs n as' from ≤ from
unfolding earliest
earliest-le cs n [] from = omega arith
earliest-le cs n (a ∷ as') from =
    let c = candidate n (get_last cs a) in
    let ih = earliest-le cs n as' (if ltb c from then c else from) in ground arith

earliest-least :
    (cs : Checkpoints) (n : ℕ) (as' : List Address) (from : ℕ) (a : Address) (k : ℕ)
    → In a as'
    → get_last cs a ≡ some k
    → earliest cs n as' from ≤ suc k
unfolding earliest
earliest-least cs n [] from a k i h = elim i [ ]
earliest-least cs n (b ∷ bs) from a k (inl i) h =
    let e : candidate n (get_last cs b) ≡ suc k =
      ap (candidate n) (subst (λ x. get_last cs x ≡ some k) i h) in
    let c = candidate n (get_last cs b) in
    let ih = earliest-le cs n bs (if ltb c from then c else from) in ground arith
earliest-least cs n (b ∷ bs) from a k (inr i) h =
    let c = candidate n (get_last cs b) in
    earliest-least cs n bs (if ltb c from then c else from) a k i h

module _ {D : Type 0} (process : List Address → ℕ → ℕ → D → Result Exception D × List Address) where
  -- The ranges were processed one after the other, none with an exception.
  abbrev pub Processed : List (ℕ × ℕ) → D → D → Type 0
  Processed [] d d' = d ≡ d'
  Processed ((first, last) ∷ rs) d d' =
      (as' : List Address) × (found : List Address) × (e : D) × (process as' first last d
        ≡ (ok e, found))
      × Processed rs e d'

  -- The block lies in one of the ranges.
  abbrev pub InRanges : ℕ → List (ℕ × ℕ) → Type 0
  InRanges b [] = ⊥
  InRanges b ((first, last) ∷ rs) = ((first ≤ b) × (b ≤ last)) ⊎ InRanges b rs

  -- Ranges were processed that hold all blocks after `k` up to the address's checkpoint in `t`.
  abbrev pub CaughtUp : Address → ℕ → PoolIndexer D → PoolIndexer D → Type 0
  CaughtUp a k s t =
      In a t.tracked
      × (last : ℕ) × (get_last t.checkpoints a ≡ some last)
      × (rs : List (ℕ × ℕ)) × Processed rs s.database t.database
      × ((b : ℕ) → k < b → b ≤ last → InRanges b rs)

  idle :
      (s t : PoolIndexer D) (k : ℕ) (a : Address)
      → In a t.tracked
      → get_last t.checkpoints a ≡ some k
      → s.database ≡ t.database
      → CaughtUp a k s t
  idle s t k a i h e = (i, k, h, [], e, λ b x y. absurd (omega arith))

  advance-CaughtUp :
      (s : PoolIndexer D) (from current k : ℕ) (a : Address)
      → In a s.tracked
      → get_last s.checkpoints a ≡ some k
      → from ≤ suc k
      → (r : Result Exception D × List Address) → process s.tracked from current s.database ≡ r
      → CaughtUp a k s (advance process s current r)
  advance-CaughtUp s from current k a i h l (err x, found) e =
      idle s (advance process s current (err x, found)) k a (In-append a s.tracked found i) h refl
  advance-CaughtUp s from current k a i h l (ok d, found) e =
      let j = In-append a s.tracked found i in
      (
        j,
        current,
        get_last-set_all s.checkpoints a (s.tracked ++ found) current j,
        (from, current) ∷ [],
        (s.tracked, found, d, e, refl),
        λ b x y. inl (omega (arith, l, x), y),
      )

  poll_once-CaughtUp :
      (s : PoolIndexer D) (current k : ℕ) (a : Address)
      → In a s.tracked
      → get_last s.checkpoints a ≡ some k
      → CaughtUp a k s (poll_once process current s)
  unfolding poll_once
  poll_once-CaughtUp s current k a i h =
      let e = earliest s.checkpoints current s.tracked current in
      let l = earliest-least s.checkpoints current s.tracked current a k i h in
      elim (Bool-cases (is_empty s.tracked)) [
        | inl m ↦ rw m (idle s s k a i h refl)
        | inr m ↦ rw m (elim (Bool-cases (ltb current e)) [
          | inl n ↦ rw n (idle s s k a i h refl)
          | inr n ↦ rw n (advance-CaughtUp s e current k a i h l _ refl)
        ])
      ]

  Processed-append :
      (rs qs : List (ℕ × ℕ)) (d e f : D)
      → Processed rs d e
      → Processed qs e f
      → Processed (rs ++ qs) d f
  Processed-append [] qs d e f p q = subst (λ x. Processed qs x f) (sym p) q
  Processed-append ((i, j) ∷ rs) qs d e f (as', found, x, y, z) q =
      (as', found, x, y, Processed-append rs qs x e f z q)

  InRanges-append :
      (b : ℕ) (rs qs : List (ℕ × ℕ)) → InRanges b rs ⊎ InRanges b qs → InRanges b (rs ++ qs)
  InRanges-append b [] qs (inl x) = elim x [ ]
  InRanges-append b [] qs (inr x) = x
  InRanges-append b ((i, j) ∷ rs) qs (inl (inl x)) = inl x
  InRanges-append b ((i, j) ∷ rs) qs (inl (inr x)) = inr (InRanges-append b rs qs (inl x))
  InRanges-append b ((i, j) ∷ rs) qs (inr x) = inr (InRanges-append b rs qs (inr x))

  -- Polling at any sequence of heads, also one that goes back, with polls that raise among them: a tracked
  -- address with a checkpoint stays tracked, and every block after that checkpoint up to the one it has in
  -- the end lies in a range that was processed without an exception.
  pub run-CaughtUp :
      (heads : List ℕ) (s : PoolIndexer D) (k : ℕ) (a : Address)
      → In a s.tracked
      → get_last s.checkpoints a ≡ some k
      → CaughtUp a k s (run process heads s)
  run-CaughtUp [] s k a i h = idle s s k a i h refl
  run-CaughtUp (n ∷ ns) s k a i h =
      let t = poll_once process n s in
      let (j, last, g, rs, p, c) = poll_once-CaughtUp s n k a i h in
      let (j', last', g', rs', p', c') = run-CaughtUp ns t last a j g in
      (
        j',
        last',
        g',
        rs ++ rs',
        Processed-append rs rs' s.database t.database _ p p',
        λ b x y. InRanges-append b rs rs' (elim (Bool-cases (leb b last)) [
          | inl z ↦ inl (c b x (leb→le b last z))
          | inr z ↦ inr (c' b (ground arith) y)
        ]),
      )

  some-nonempty : (a : Address) (xs : List Address) → In a xs → is_empty xs ≡ false
  some-nonempty a [] i = elim i [ ]
  some-nonempty a (x ∷ xs) i = refl

  advance-reaches :
      (s : PoolIndexer D) (current : ℕ) (a : Address) (r : Result Exception D × List Address)
      (d : D)
      → In a s.tracked
      → r.0 ≡ ok d
      → get_last (advance process s current r).checkpoints a ≡ some current
  advance-reaches s current a (err x, found) d i e = cc
  advance-reaches s current a (ok x, found) d i e =
      get_last-set_all s.checkpoints a (s.tracked ++ found) current (In-append a s.tracked found i)

  -- A poll whose range is processed without an exception, whatever its first block, brings the checkpoint
  -- of each tracked address to the head: no poll returns early because a range is empty.
  pub poll_once-reaches :
      (s : PoolIndexer D) (current : ℕ) (a : Address)
      → ((from : ℕ)
          → from ≤ current
          → (d : D) × ((process s.tracked from current s.database).0 ≡ ok d))
      → In a s.tracked
      → get_last (poll_once process current s).checkpoints a ≡ some current
  unfolding poll_once
  poll_once-reaches s current a f i =
      let e = earliest s.checkpoints current s.tracked current in
      let l : e ≤ current = earliest-le s.checkpoints current s.tracked current in
      let (d, m) = f e l in
      let n : ltb current e ≡ false = ground arith in
      rw (some-nonempty a s.tracked i, n)
        (advance-reaches s current a (process s.tracked e current s.database) d i m)
