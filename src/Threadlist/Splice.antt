-- ===== src/Threadlist/Splice.antt =====
-- Putting a node into a list at any place, and taking one out.
use longcat_os.Base.{
  ℕ, none, some, List, [], ◌∷◌, ◌++◌, ◌+◌, ◌-◌, ◌≡◌, ◌≢◌, arith, refl, sym, ap, ◌∙◌, length,
  ℕ_discrete,
}
use longcat_os.Threadlist.{Nodes, head, tail, listnode}
use longcat_os.Base.Store.{store, store_self, store_ne, store-store_ne}
use longcat_os.Threadlist.Links.{
  Link, Links, Out, Distinct, last_of, first_of, Out-left, Out-right, Out-join, Out-first,
  Out-last_of, Distinct-left, Distinct-right, Distinct-Out, Distinct-first, Links-right, Edit,
  attach, relink,
}

-- The memory holds the list `xs`: the threads follow one another between the bookends, a thread that
-- is not on the list has NULL pointers, and the count is right.
pub record IsList (h : Nodes) (xs : List ℕ) : Type 0 where
  pub links : Links h head xs
  pub head_prev : h.prev head ≡ none
  pub tail_next : h.next tail ≡ none
  pub selfs : (t : ℕ) → h.self (listnode t) ≡ some t
  pub distinct : Distinct head xs
  pub off :
      (t : ℕ) → Out (listnode t) xs → (h.prev (listnode t) ≡ none) × (h.next (listnode t) ≡ none)
  pub size : h.count ≡ length xs

abbrev pub spliced : Nodes → ℕ → ℕ → ℕ → Nodes
spliced h a n b = record h {
  prev = store (store h.prev n (some a)) b (some n);
  next = store (store h.next n (some b)) a (some n);
}

abbrev pub removed : Nodes → ℕ → ℕ → ℕ → Nodes
removed h a n b = record h {
  prev = store (store h.prev b (some a)) n none;
  next = store (store h.next a (some b)) n none;
}

-- The count is not part of the links.
count-Links :
    (h : Nodes) (c p : ℕ) (xs : List ℕ) → Links h p xs → Links (record h { count = c }) p xs
count-Links h c p [] l = l
count-Links h c p (x ∷ xs) (k, l) = (k, count-Links h c (listnode x) xs l)

pub spliced-Edit : (h : Nodes) (a n b : ℕ) → Edit h (spliced h a n b) a b n
spliced-Edit h a n b = record {
  same_next = λ m ma mn. store-store_ne h.next n a m (some b) (some n) mn ma;
  same_prev = λ m mb mn. store-store_ne h.prev n b m (some a) (some n) mn mb;
}

pub removed-Edit : (h : Nodes) (a n b : ℕ) → Edit h (removed h a n b) a b n
removed-Edit h a n b = record {
  same_next = λ m ma mn. store-store_ne h.next a n m (some b) none ma mn;
  same_prev = λ m mb mn. store-store_ne h.prev b n m (some a) none mb mn;
}

Distinct-restart : (p n : ℕ) (ys : List ℕ) → Distinct p ys → Out n ys → Distinct n ys
Distinct-restart p n [] d o = tt
Distinct-restart p n (y ∷ ys) (u, d) o = (o, d)

Out-remove : (p t : ℕ) (xs ys : List ℕ) → Out p (xs ++ (t ∷ ys)) → Out p (xs ++ ys)
Out-remove p t [] ys (n, o) = o
Out-remove p t (x ∷ xs) ys (n, o) = (n, Out-remove p t xs ys o)

Distinct-insert :
    (p t : ℕ) (xs ys : List ℕ)
    → Distinct p (xs ++ ys)
    → Out (listnode t) (xs ++ ys)
    → p ≢ listnode t
    → Distinct p (xs ++ (t ∷ ys))
Distinct-insert p t [] ys d o n = ((n, Distinct-Out p ys d), Distinct-restart p (listnode t) ys d o)
Distinct-insert p t (x ∷ xs) ys ((m, u), d) (k, o) n = (
  (m, Out-join p xs (t ∷ ys) (Out-left p xs ys u) (n, Out-right p xs ys u)),
  Distinct-insert (listnode x) t xs ys d o (λ e. k (sym e)),
)

Distinct-remove : (p t : ℕ) (xs ys : List ℕ) → Distinct p (xs ++ (t ∷ ys)) → Distinct p (xs ++ ys)
Distinct-remove p t [] ys ((n, o), d) = Distinct-restart (listnode t) p ys d o
Distinct-remove p t (x ∷ xs) ys ((n, o), d) =
    ((n, Out-remove p t xs ys o), Distinct-remove (listnode x) t xs ys d)

first_of-ne_head : (ys : List ℕ) → first_of ys ≢ head
first_of-ne_head [] e = omega arith
first_of-ne_head (y ∷ ys) e = omega arith

last_of-ne_tail : (p : ℕ) (xs : List ℕ) → p ≢ tail → last_of p xs ≢ tail
last_of-ne_tail p [] n = n
last_of-ne_tail p (x ∷ xs) n = last_of-ne_tail (listnode x) xs (omega arith)

pub length-insert : (t : ℕ) (xs ys : List ℕ) → length (xs ++ (t ∷ ys)) ≡ length (xs ++ ys) + 1
length-insert t [] ys = omega arith
length-insert t (x ∷ xs) ys = omega (arith, length-insert t xs ys)

module _ (h : Nodes) (xs ys : List ℕ) (t : ℕ) where
  abbrev a : ℕ
  a = last_of head xs

  abbrev b : ℕ
  b = first_of ys

  abbrev n : ℕ
  n = listnode t

  -- A thread that is out of the list is none of the neighbours.
  apart_first : (u : ℕ) → Out (listnode u) ys → b ≢ listnode u
  apart_first u o e = Out-first (listnode u) ys (omega arith) o (sym e)

  pub apart_last : (u : ℕ) → Out (listnode u) xs → a ≢ listnode u
  apart_last u o e = Out-last_of (listnode u) head xs (omega arith) o (sym e)

  spliced_left : b ≢ n → Link (spliced h a n b) a n
  spliced_left bn = (
    store_self (store h.next n (some b)) a (some n),
    store_ne (store h.prev n (some a)) b n (some n) bn ∙ store_self h.prev n (some a),
  )

  spliced_right : a ≢ n → Link (spliced h a n b) n b
  spliced_right an = (
    store_ne (store h.next n (some b)) a n (some n) an ∙ store_self h.next n (some b),
    store_self (store h.prev n (some a)) b (some n),
  )

  removed_gap : a ≢ n → b ≢ n → Link (removed h a n b) a b
  removed_gap an bn = (
    store_ne (store h.next a (some b)) n a none (λ e. an (sym e)) ∙ store_self h.next a (some b),
    store_ne (store h.prev b (some a)) n b none (λ e. bn (sym e)) ∙ store_self h.prev b (some a),
  )

  module _ (h' : Nodes) (e : Edit h h' a b n) where
    -- The outer pointers of the bookends stay.
    same_head : h'.prev head ≡ h.prev head
    same_head = e.same_prev head (λ q. first_of-ne_head ys (sym q)) (omega arith)

    same_tail : h'.next tail ≡ h.next tail
    same_tail = e.same_next tail (λ q. last_of-ne_tail head xs (omega arith) (sym q)) (omega arith)

    -- So do the pointers of another thread off the list.
    same_off :
        (u : ℕ)
        → Out (listnode u) (xs ++ ys)
        → listnode u ≢ n
        → (h.prev (listnode u) ≡ none) × (h.next (listnode u) ≡ none)
        → (h'.prev (listnode u) ≡ none) × (h'.next (listnode u) ≡ none)
    same_off u o un (p, q) = (
      e.same_prev (listnode u) (λ k. apart_first u (Out-right (listnode u) xs ys o) (sym k)) un ∙ p,
      e.same_next (listnode u) (λ k. apart_last u (Out-left (listnode u) xs ys o) (sym k)) un ∙ q,
    )

  module _ (v : IsList h (xs ++ ys)) (o : Out n (xs ++ ys)) where
    spliced-Links : Links (spliced h a n b) head (xs ++ (t ∷ ys))
    spliced-Links =
        let ol = Out-left n xs ys o in
        let or = Out-right n xs ys o in
        relink h (spliced h a n b) a b n (spliced-Edit h a n b) head xs ys (t ∷ ys) refl
          (Distinct-first head xs ys v.distinct) ol (omega arith)
          (Distinct-left head xs ys v.distinct) v.links
          (
            spliced_left (apart_first t or),
            attach h (spliced h a n b) a b n (spliced-Edit h a n b) a n ys refl
                (spliced_right (apart_last t ol)) (Distinct-right head xs ys v.distinct) or
                (omega arith) (Links-right h head xs ys v.links),
          )

    pub spliced-IsList : IsList (record (spliced h a n b) { count = h.count + 1 }) (xs ++ (t ∷ ys))
    spliced-IsList = record {
      links = count-Links (spliced h a n b) (h.count + 1) head (xs ++ (t ∷ ys)) spliced-Links;
      head_prev = same_head (spliced h a n b) (spliced-Edit h a n b) ∙ v.head_prev;
      tail_next = same_tail (spliced h a n b) (spliced-Edit h a n b) ∙ v.tail_next;
      selfs = v.selfs;
      distinct = Distinct-insert head t xs ys v.distinct o (omega arith);
      off = λ u w.
          let r = Out-right (listnode u) xs (t ∷ ys) w in
          let w' = Out-remove (listnode u) t xs ys w in
          same_off (spliced h a n b) (spliced-Edit h a n b) u w' r.0 (v.off u w');
      size = omega (arith, v.size, length-insert t xs ys);
    }

  module _ (v : IsList h (xs ++ (t ∷ ys))) where
    removed-Distinct : Distinct head (xs ++ ys)
    removed-Distinct = Distinct-remove head t xs ys v.distinct

    pub removed-Out : Out n xs × Out n ys
    removed-Out = (
      Distinct-first head xs (t ∷ ys) v.distinct,
      Distinct-Out n ys (Distinct-right head xs (t ∷ ys) v.distinct).1,
    )

    removed-Links : Links (removed h a n b) head (xs ++ ys)
    removed-Links =
        let (ol, or) = removed-Out in
        relink h (removed h a n b) a b n (removed-Edit h a n b) head xs (t ∷ ys) ys refl
          (Distinct-first head xs ys removed-Distinct) ol (omega arith)
          (Distinct-left head xs ys removed-Distinct) v.links
          (attach h (removed h a n b) a b n (removed-Edit h a n b) n a ys refl
            (removed_gap (apart_last t ol) (apart_first t or))
            (Distinct-right head xs ys removed-Distinct) or (omega arith)
            (Links-right h head xs (t ∷ ys) v.links).1)

    removed_off :
        (u : ℕ)
        → Out (listnode u) (xs ++ ys)
        → ((removed h a n b).prev (listnode u) ≡ none)
          × ((removed h a n b).next (listnode u) ≡ none)
    removed_off u w = elim (ℕ_discrete (listnode u) n) [
      | yes q ↦ (
        ap (removed h a n b).prev q ∙ store_self (store h.prev b (some a)) n none,
        ap (removed h a n b).next q ∙ store_self (store h.next a (some b)) n none,
      )
      | no q ↦ same_off (removed h a n b) (removed-Edit h a n b) u w q (
          v.off u (
            Out-join (listnode u) xs (t ∷ ys) (Out-left (listnode u) xs ys w)
              (q, Out-right (listnode u) xs ys w)))
    ]

    pub removed-IsList : IsList (record (removed h a n b) { count = h.count - 1 }) (xs ++ ys)
    removed-IsList = record {
      links = count-Links (removed h a n b) (h.count - 1) head (xs ++ ys) removed-Links;
      head_prev = same_head (removed h a n b) (removed-Edit h a n b) ∙ v.head_prev;
      tail_next = same_tail (removed h a n b) (removed-Edit h a n b) ∙ v.tail_next;
      selfs = v.selfs;
      distinct = removed-Distinct;
      off = removed_off;
      size = omega (arith, v.size, length-insert t xs ys);
    }
