-- ===== src/Threadlist/Links.antt =====
-- When the pointers form a list of threads, and what an edit at one place leaves of it.
use longcat_os.Base.{ℕ, some, List, [], ◌∷◌, ◌++◌, ◌≡◌, ◌≢◌, arith, sym, subst, ◌∙◌}
use longcat_os.Threadlist.{Nodes, tail, listnode}

-- `a` and `b` are neighbours.
abbrev pub Link : Nodes → ℕ → ℕ → Type 0
Link h a b = (h.next a ≡ some b) × (h.prev b ≡ some a)

-- From the node at `p` the threads follow one another up to the tail.
abbrev pub Links : Nodes → ℕ → List ℕ → Type 0
Links h p [] = Link h p tail
Links h p (x ∷ xs) = Link h p (listnode x) × Links h (listnode x) xs

-- The address is not that of a thread of the list.
abbrev pub Out : ℕ → List ℕ → Type 0
Out p [] = Unit {0}
Out p (x ∷ xs) = (p ≢ listnode x) × Out p xs

-- The node at `p` and the threads behind it are all different.
abbrev pub Distinct : ℕ → List ℕ → Type 0
Distinct p [] = Unit {0}
Distinct p (x ∷ xs) = Out p (x ∷ xs) × Distinct (listnode x) xs

abbrev pub last_of : ℕ → List ℕ → ℕ
last_of p [] = p
last_of p (x ∷ xs) = last_of (listnode x) xs

abbrev pub first_of : List ℕ → ℕ
first_of [] = tail
first_of (y ∷ ys) = listnode y

pub Out-left : (p : ℕ) (xs ys : List ℕ) → Out p (xs ++ ys) → Out p xs
Out-left p [] ys o = tt
Out-left p (x ∷ xs) ys (n, o) = (n, Out-left p xs ys o)

pub Out-right : (p : ℕ) (xs ys : List ℕ) → Out p (xs ++ ys) → Out p ys
Out-right p [] ys o = o
Out-right p (x ∷ xs) ys (n, o) = Out-right p xs ys o

pub Out-join : (p : ℕ) (xs ys : List ℕ) → Out p xs → Out p ys → Out p (xs ++ ys)
Out-join p [] ys o u = u
Out-join p (x ∷ xs) ys (n, o) u = (n, Out-join p xs ys o u)

pub Out-first : (p : ℕ) (ys : List ℕ) → p ≢ tail → Out p ys → p ≢ first_of ys
Out-first p [] n o = n
Out-first p (y ∷ ys) n (m, o) = m

Out-last : (p x : ℕ) (xs : List ℕ) → Out p (x ∷ xs) → p ≢ last_of (listnode x) xs
Out-last p x [] (n, o) = n
Out-last p x (y ∷ xs) (n, o) = Out-last p y xs o

pub Distinct-left : (p : ℕ) (xs ys : List ℕ) → Distinct p (xs ++ ys) → Distinct p xs
Distinct-left p [] ys d = tt
Distinct-left p (x ∷ xs) ys ((n, o), d) =
    ((n, Out-left p xs ys o), Distinct-left (listnode x) xs ys d)

pub Distinct-right : (p : ℕ) (xs ys : List ℕ) → Distinct p (xs ++ ys) → Distinct (last_of p xs) ys
Distinct-right p [] ys d = d
Distinct-right p (x ∷ xs) ys (o, d) = Distinct-right (listnode x) xs ys d

pub Distinct-Out : (p : ℕ) (ys : List ℕ) → Distinct p ys → Out p ys
Distinct-Out p [] d = tt
Distinct-Out p (y ∷ ys) (o, d) = o

-- What follows a part of the list is not in that part.
pub Distinct-first : (p : ℕ) (xs ys : List ℕ) → Distinct p (xs ++ ys) → Out (first_of ys) xs
Distinct-first p [] ys d = tt
Distinct-first p (x ∷ xs) ys (o, d) = (
  λ e.
      Out-first (listnode x) ys (omega arith)
        (Out-right (listnode x) xs ys (Distinct-Out (listnode x) (xs ++ ys) d)) (sym e),
  Distinct-first (listnode x) xs ys d,
)

pub Links-right :
    (h : Nodes) (p : ℕ) (xs ys : List ℕ) → Links h p (xs ++ ys) → Links h (last_of p xs) ys
Links-right h p [] ys l = l
Links-right h p (x ∷ xs) ys (k, l) = Links-right h (listnode x) xs ys l

-- The last node before `ys` and the first of `ys` are neighbours.
pub Links-first : (h : Nodes) (p : ℕ) (ys : List ℕ) → Links h p ys → Link h p (first_of ys)
Links-first h p [] l = l
Links-first h p (y ∷ ys) (k, l) = k

-- `h'` differs from `h` only in the next pointers of `a` and `n` and the previous ones of `b` and `n`.
pub record Edit (h h' : Nodes) (a b n : ℕ) : Type 0 where
  pub same_next : (m : ℕ) → m ≢ a → m ≢ n → h'.next m ≡ h.next m
  pub same_prev : (m : ℕ) → m ≢ b → m ≢ n → h'.prev m ≡ h.prev m

module _ (h h' : Nodes) (a b n : ℕ) (e : Edit h h' a b n) where
  kept : (p q : ℕ) → p ≢ a → p ≢ n → q ≢ b → q ≢ n → Link h p q → Link h' p q
  kept p q pa pn qb qn (l, r) = (e.same_next p pa pn ∙ l, e.same_prev q qb qn ∙ r)

  -- The list behind a node that is out of the way
  frame :
      (p : ℕ) (ys : List ℕ)
      → p ≢ a
      → p ≢ n
      → Out a ys
      → Out n ys
      → Out b ys
      → b ≢ tail
      → n ≢ tail
      → Links h p ys
      → Links h' p ys
  frame p [] pa pn oa on ob bt nt l = kept p tail pa pn (λ d. bt (sym d)) (λ d. nt (sym d)) l
  frame p (y ∷ ys) pa pn (ya, oa) (yn, on) (yb, ob) bt nt (l, ls) = (
    kept p (listnode y) pa pn (λ d. yb (sym d)) (λ d. yn (sym d)) l,
    frame (listnode y) ys (λ d. ya (sym d)) (λ d. yn (sym d)) oa on ob bt nt ls,
  )

  -- The rest of the list behind a new neighbour
  pub attach :
      (k m : ℕ) (ys : List ℕ)
      → b ≡ first_of ys
      → Link h' m b
      → Distinct a ys
      → Out n ys
      → n ≢ tail
      → Links h k ys
      → Links h' m ys
  attach k m [] f l d on nt ls = subst (Link h' m) f l
  attach k m (y ∷ ys) f l ((ya, oa), d) (yn, on) nt (l0, ls) = (
    subst (Link h' m) f l,
    frame (listnode y) ys (λ q. ya (sym q)) (λ q. yn (sym q)) oa on
        (subst (λ z. Out z ys) (sym f) (Distinct-Out (listnode y) ys d)) (λ q. omega arith) nt ls,
  )

  -- The part of the list before the edit
  pub relink :
      (p : ℕ) (xs us vs : List ℕ)
      → a ≡ last_of p xs
      → Out b xs
      → Out n xs
      → p ≢ n
      → Distinct p xs
      → Links h p (xs ++ us)
      → Links h' a vs
      → Links h' p (xs ++ vs)
  relink p [] us vs f ob on pn d l r = subst (λ z. Links h' z vs) f r
  relink p (x ∷ xs) us vs f (xb, ob) (xn, on) pn (o, d) (l, ls) r = (
    kept p (listnode x) (λ q. Out-last p x xs o (q ∙ f)) pn (λ q. xb (sym q)) (λ q. xn (sym q)) l,
    relink (listnode x) xs us vs f ob on (λ q. xn (sym q)) d ls r,
  )

pub Out-last_of : (n p : ℕ) (xs : List ℕ) → n ≢ p → Out n xs → n ≢ last_of p xs
Out-last_of n p [] e o = e
Out-last_of n p (x ∷ xs) e (m, o) = Out-last_of n (listnode x) xs m o
