-- ===== src/Threadlist/Ends.antt =====
-- The calls of threadlist.c as operations on lists of threads.
use longcat_os.Base.{
  ℕ, none, some, List, [], ◌∷◌, ◌++◌, ◌+◌, ◌-◌, ◌%◌, ◌^◌, ◌≡◌, ◌≢◌, ◌<◌, arith, refl, sym, subst,
  ap, ◌∙◌, length, ltb, true,
}
use longcat_os.Base.Outcome.{M, ret, ◌>>◌}
use longcat_os.Threadlist.{
  Nodes, head, tail, listnode, count_up, count_down, threadlist_insertafternode,
  threadlist_insertbeforenode, threadlist_removenode, threadlist_addhead, threadlist_addtail,
  threadlist_remhead, threadlist_remtail, threadlist_insertafter, threadlist_insertbefore,
  threadlist_remove,
}
use longcat_os.Base.Store.{store, store_self, store_ne}
use longcat_os.Threadlist.Links.{Link, Out, last_of, first_of, Out-left, Links-right, Links-first}
use longcat_os.Threadlist.Splice.{
  IsList, spliced, removed, spliced-IsList, removed-IsList, apart_last, length-insert, removed-Out,
}
use mathlib.Core.List.{append_assoc, append-nil}

insertafter_lem :
    (h : Nodes) (p t b : ℕ)
    → h.next p ≡ some b
    → p ≢ listnode t
    → h.prev (listnode t) ≡ none
    → h.next (listnode t) ≡ none
    → threadlist_insertafternode p t h ≡ ret tt (spliced h p (listnode t) b)
unfolding threadlist_insertafternode
insertafter_lem h p t b e n ep en = rw (
  ep,
  en,
  e,
  store_self h.prev (listnode t) (some p),
  store_ne (store h.next (listnode t) (some b)) p (listnode t) (some (listnode t)) n,
  store_self h.next (listnode t) (some b),
)

insertbefore_lem :
    (h : Nodes) (p t b : ℕ)
    → h.prev b ≡ some p
    → p ≢ listnode t
    → h.prev (listnode t) ≡ none
    → h.next (listnode t) ≡ none
    → threadlist_insertbeforenode t b h ≡ ret tt (spliced h p (listnode t) b)
unfolding threadlist_insertbeforenode
insertbefore_lem h p t b e n ep en = ground (
  arith,
  store_self h.prev (listnode t) (some p),
  store_ne (store h.next (listnode t) (some b)) p (listnode t) (some (listnode t)) n,
  store_self h.next (listnode t) (some b),
)

removenode_lem :
    (h : Nodes) (p n b : ℕ)
    → h.prev n ≡ some p
    → h.next n ≡ some b
    → p ≢ n
    → threadlist_removenode n h ≡ ret tt (removed h p n b)
unfolding threadlist_removenode
removenode_lem h p n b ep en ne = ground (arith, store_ne h.next p n (some b) ne)

count_down_lem :
    (k : Nodes) → ltb 0 k.count ≡ true → count_down k ≡ ret tt (record k { count = k.count - 1 })
count_down_lem k e = ground arith

remhead_lem :
    (h k : Nodes) (x b : ℕ)
    → h.next head ≡ some (listnode x)
    → h.next (listnode x) ≡ some b
    → threadlist_removenode (listnode x) h ≡ ret tt k
    → ltb 0 k.count ≡ true
    → k.self (listnode x) ≡ some x
    → threadlist_remhead h ≡ ret (some x) (record k { count = k.count - 1 })
unfolding threadlist_remhead
remhead_lem h k x b eh en er ec es = ground arith

remtail_lem :
    (h k : Nodes) (x b : ℕ)
    → h.prev tail ≡ some (listnode x)
    → h.prev (listnode x) ≡ some b
    → threadlist_removenode (listnode x) h ≡ ret tt k
    → ltb 0 k.count ≡ true
    → k.self (listnode x) ≡ some x
    → threadlist_remtail h ≡ ret (some x) (record k { count = k.count - 1 })
unfolding threadlist_remtail
remtail_lem h k x b eh en er ec es = ground arith

module _ (h : Nodes) (xs ys : List ℕ) (t : ℕ) where
  -- An insertion between `xs` and `ys`
  splice_at :
      (f : M Nodes (Unit {0}))
      → IsList h (xs ++ ys)
      → Out (listnode t) (xs ++ ys)
      → length (xs ++ ys) + 1 < 2 ^ 32
      → f h ≡ ret tt (spliced h (last_of head xs) (listnode t) (first_of ys))
      → (h' : Nodes) × ((f >> count_up) h ≡ ret tt h') × IsList h' (xs ++ (t ∷ ys))
  splice_at f v o l e =
      let c : (h.count + 1) % 2 ^ 32 ≡ h.count + 1 = omega (arith, v.size) in
      (
        _,
        ap (λ r. ◌>>◌ (λ m. r) count_up h) e
            ∙ ap
                (λ c.
                  ret tt
                    (record (spliced h (last_of head xs) (listnode t) (first_of ys)) { count = c }))
                c,
        spliced-IsList h xs ys t v o,
      )

  between : IsList h (xs ++ ys) → Link h (last_of head xs) (first_of ys)
  between v = Links-first h (last_of head xs) ys (Links-right h head xs ys v.links)

  insert_after :
      IsList h (xs ++ ys)
      → Out (listnode t) (xs ++ ys)
      → length (xs ++ ys) + 1 < 2 ^ 32
      → (h' : Nodes) × ((threadlist_insertafternode (last_of head xs) t >> count_up) h ≡ ret tt h')
        × IsList h' (xs ++ (t ∷ ys))
  insert_after v o l = splice_at (threadlist_insertafternode (last_of head xs) t) v o l (
      insertafter_lem h (last_of head xs) t (first_of ys) (between v).0
        (apart_last h xs ys t t (Out-left (listnode t) xs ys o)) (v.off t o).0 (v.off t o).1)

  insert_before :
      IsList h (xs ++ ys)
      → Out (listnode t) (xs ++ ys)
      → length (xs ++ ys) + 1 < 2 ^ 32
      → (h' : Nodes) × ((threadlist_insertbeforenode t (first_of ys) >> count_up) h ≡ ret tt h')
        × IsList h' (xs ++ (t ∷ ys))
  insert_before v o l = splice_at (threadlist_insertbeforenode t (first_of ys)) v o l (
      insertbefore_lem h (last_of head xs) t (first_of ys) (between v).1
        (apart_last h xs ys t t (Out-left (listnode t) xs ys o)) (v.off t o).0 (v.off t o).1)

  -- The node of `t` lies between its neighbours.
  taken_out :
      IsList h (xs ++ (t ∷ ys))
      → threadlist_removenode (listnode t) h
        ≡ ret tt (removed h (last_of head xs) (listnode t) (first_of ys))
  taken_out v =
      let r = Links-right h head xs (t ∷ ys) v.links in
      removenode_lem h (last_of head xs) (listnode t) (first_of ys) r.0.1
        (Links-first h (listnode t) ys r.1).0 (apart_last h xs ys t t (removed-Out h xs ys t v).0)

  counted : IsList h (xs ++ (t ∷ ys)) → ltb 0 h.count ≡ true
  counted v = ground (arith, v.size, length-insert t xs ys)

  remove_at :
      IsList h (xs ++ (t ∷ ys))
      → (h' : Nodes) × ((threadlist_removenode (listnode t) >> count_down) h ≡ ret tt h')
        × IsList h' (xs ++ ys)
  remove_at v = (
    _,
    ap (λ r. ◌>>◌ (λ m. r) count_down h) (taken_out v)
        ∙ count_down_lem (removed h (last_of head xs) (listnode t) (first_of ys)) (counted v),
    removed-IsList h xs ys t v,
  )

-- threadlist_addhead of a thread that is not on the list puts it in front.
pub threadlist_addhead-IsList :
    (h : Nodes) (xs : List ℕ) (t : ℕ)
    → IsList h xs
    → Out (listnode t) xs
    → length xs + 1 < 2 ^ 32
    → (h' : Nodes) × (threadlist_addhead t h ≡ ret tt h') × IsList h' (t ∷ xs)
unfolding threadlist_addhead
threadlist_addhead-IsList h xs t v o l = insert_after h [] xs t v o l

-- threadlist_addtail of a thread that is not on the list puts it at the end.
pub threadlist_addtail-IsList :
    (h : Nodes) (xs : List ℕ) (t : ℕ)
    → IsList h xs
    → Out (listnode t) xs
    → length xs + 1 < 2 ^ 32
    → (h' : Nodes) × (threadlist_addtail t h ≡ ret tt h') × IsList h' (xs ++ (t ∷ []))
unfolding threadlist_addtail
threadlist_addtail-IsList h xs t v o l =
    let e = sym (append-nil xs) in
    insert_before h xs [] t (subst (IsList h) e v) (subst (Out (listnode t)) e o)
      (subst (λ ys. length ys + 1 < 2 ^ 32) e l)

-- threadlist_insertbefore puts a thread that is not on the list directly before one that is.
pub threadlist_insertbefore-IsList :
    (h : Nodes) (xs ys : List ℕ) (o t : ℕ)
    → IsList h (xs ++ (o ∷ ys))
    → Out (listnode t) (xs ++ (o ∷ ys))
    → length (xs ++ (o ∷ ys)) + 1 < 2 ^ 32
    → (h' : Nodes) × (threadlist_insertbefore t o h ≡ ret tt h') × IsList h' (xs ++ (t ∷ (o ∷ ys)))
unfolding threadlist_insertbefore
threadlist_insertbefore-IsList h xs ys o t v u l = insert_before h xs (o ∷ ys) t v u l

last_of-append : (p o : ℕ) (xs : List ℕ) → last_of p (xs ++ (o ∷ [])) ≡ listnode o
last_of-append p o [] = refl
last_of-append p o (x ∷ xs) = last_of-append (listnode x) o xs

-- threadlist_insertafter puts a thread that is not on the list directly behind one that is.
pub threadlist_insertafter-IsList :
    (h : Nodes) (xs ys : List ℕ) (o t : ℕ)
    → IsList h (xs ++ (o ∷ ys))
    → Out (listnode t) (xs ++ (o ∷ ys))
    → length (xs ++ (o ∷ ys)) + 1 < 2 ^ 32
    → (h' : Nodes) × (threadlist_insertafter o t h ≡ ret tt h') × IsList h' (xs ++ (o ∷ (t ∷ ys)))
unfolding threadlist_insertafter
threadlist_insertafter-IsList h xs ys o t v u l =
    let e = sym (append_assoc xs (o ∷ []) ys) in
    let (h', r, w) =
      insert_after h (xs ++ (o ∷ [])) ys t (subst (IsList h) e v) (subst (Out (listnode t)) e u)
        (subst (λ zs. length zs + 1 < 2 ^ 32) e l) in
    (
      h',
      subst (λ p. (threadlist_insertafternode p t >> count_up) h ≡ ret tt h')
          (last_of-append head o xs) r,
      subst (IsList h') (append_assoc xs (o ∷ []) (t ∷ ys)) w,
    )

-- threadlist_remove takes a thread out of the list and leaves the others in their order.
pub threadlist_remove-IsList :
    (h : Nodes) (xs ys : List ℕ) (t : ℕ)
    → IsList h (xs ++ (t ∷ ys))
    → (h' : Nodes) × (threadlist_remove t h ≡ ret tt h') × IsList h' (xs ++ ys)
unfolding threadlist_remove
threadlist_remove-IsList h xs ys t v = remove_at h xs ys t v

-- threadlist_remhead takes the first thread off the list and gives it.
pub threadlist_remhead-IsList :
    (h : Nodes) (xs : List ℕ) (x : ℕ)
    → IsList h (x ∷ xs)
    → (h' : Nodes) × (threadlist_remhead h ≡ ret (some x) h') × IsList h' xs
threadlist_remhead-IsList h xs x v = (
  _,
  remhead_lem h (removed h head (listnode x) (first_of xs)) x (first_of xs) v.links.0.0
      (Links-first h (listnode x) xs v.links.1).0 (taken_out h [] xs x v) (counted h [] xs x v)
      (v.selfs x),
  removed-IsList h [] xs x v,
)

-- threadlist_remhead of an empty list gives NULL and changes nothing.
pub threadlist_remhead_empty : (h : Nodes) → IsList h [] → threadlist_remhead h ≡ ret none h
unfolding threadlist_remhead
threadlist_remhead_empty h v = ground (arith, v.links.0, v.tail_next)

-- threadlist_remtail takes the last thread off the list and gives it.
pub threadlist_remtail-IsList :
    (h : Nodes) (xs : List ℕ) (x : ℕ)
    → IsList h (xs ++ (x ∷ []))
    → (h' : Nodes) × (threadlist_remtail h ≡ ret (some x) h') × IsList h' xs
threadlist_remtail-IsList h xs x v =
    let r = Links-right h head xs (x ∷ []) v.links in
    (
      _,
      remtail_lem h (removed h (last_of head xs) (listnode x) tail) x (last_of head xs) r.1.1 r.0.1
          (taken_out h xs [] x v) (counted h xs [] x v) (v.selfs x),
      subst
          (IsList (record (removed h (last_of head xs) (listnode x) tail) { count = h.count - 1 }))
          (append-nil xs) (removed-IsList h xs [] x v),
    )
