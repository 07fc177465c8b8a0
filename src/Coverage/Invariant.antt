-- ===== src/Coverage/Invariant.antt =====
-- The state of the walk of internal/application/coverage/reversemap.go between its steps, against
-- the graph of calls.
use mathlib.Core.List.{Memᴰ}
use mathlib.Core.List.Memᴰ
use veska.Common.{
  ◌≡◌, refl, sym, ap, ◌∙◌, subst, inl, inr, Bool, true, false, not, ◌&&◌, ◌||◌, List, [], ◌∷◌, map,
  String, ◌==◌, string_eq, eq_iff, contains, contains-snoc, contains-map-snoc, All, Bool-cases,
  arith,
}
use veska.Coverage.{
  NodeRef, test_ref, Found, is_test_entrypoint, visit_new, visit, visit_all, Callers, expand,
}

-- `inbound` is the graph of calls, and `ref` the row of a node.
module _ (inbound : Callers) (ref : String → NodeRef) (seeds : List String) where
  -- The node is a seed, or calls a node that a seed reaches without being a test itself.
  pub data Reached : String → Type 0 where
    from : {id : String} → contains seeds id ≡ true → Reached id
    up :
        {id : String} {c : NodeRef}
        → Reached id
        → Memᴰ c (inbound id)
        → (c.node_id == "") ≡ false
        → is_test_entrypoint c ≡ false
        → Reached c.node_id

  -- The test calls a reached node, and is no seed.
  pub record Covers (id : String) : Type 0 where
    pub callee : String
    pub caller : NodeRef
    pub reached : Reached callee
    pub calls : Memᴰ caller (inbound callee)
    pub named : caller.node_id ≡ id
    pub nonempty : (id == "") ≡ false
    pub entry : is_test_entrypoint caller ≡ true
    pub new : contains seeds id ≡ false

  abbrev pub waits : List String → Found → String → Bool
  waits todo w v = contains todo v || contains w.next v

  pub record Inv (todo : List String) (w : Found) : Type 0 where
    pub base : (s : String) → contains seeds s ≡ true → contains w.visited s ≡ true
    pub reached : (v : String) → waits todo w v ≡ true → Reached v
    pub reported : (v : String) → contains w.seen_tests v ≡ true → Covers v
    pub listed : (v : String) → contains (map (λ t. t.node_id) w.tests) v ≡ contains w.seen_tests v
    pub closed :
        (v : String) (c : NodeRef)
        → contains w.visited v ≡ true
        → contains w.seen_tests v ≡ false
        → waits todo w v ≡ false
        → Memᴰ c (inbound v)
        → (c.node_id == "") ≡ false
        → contains w.visited c.node_id ≡ true
    pub sorted :
        (v : String)
        → contains w.seen_tests v
          ≡ (contains w.visited v && (not (contains seeds v) && is_test_entrypoint (ref v)))

  visit_new-Inv :
      (todo : List String) (n : String) (c : NodeRef) (w : Found)
      → Inv todo w
      → Reached n
      → Memᴰ c (inbound n)
      → ref c.node_id ≡ c
      → (c.node_id == "") ≡ false
      → contains w.visited c.node_id ≡ false
      → Inv todo (visit_new c w)
  visit_new-Inv todo n c w i r m known named unseen =
      let id = c.node_id in
      let fresh_test : contains w.seen_tests c.node_id ≡ false =
        ground (arith, i.sorted c.node_id) in
      let no_seed : contains seeds c.node_id ≡ false =
        elim (Bool-cases (contains seeds c.node_id)) [
          | inl s ↦ absurd (cc (i.base c.node_id s, unseen))
          | inr s ↦ s
        ] in
      elim (Bool-cases (is_test_entrypoint c)) [
        | inl test ↦
            let covered : Covers c.node_id = record {
              callee = n;
              caller = c;
              reached = r;
              calls = m;
              named = refl;
              nonempty = named;
              entry = test;
              new = no_seed;
            } in
            rw (unseen, test, fresh_test)
              (record {
                base = λ s h. ground (arith, contains-snoc w.visited id s, i.base s h);
                reached = i.reached;
                reported = λ v h. elim (Bool-cases (v == id)) [
                  | inl same ↦ rw ((eq_iff v id).0 same) covered
                  | inr other ↦ i.reported v (ground (arith, contains-snoc w.seen_tests id v))
                ];
                listed = λ v. ground (
                  arith,
                  contains-snoc w.seen_tests id v,
                  contains-map-snoc (λ t. t.node_id) w.tests (test_ref c) v,
                  i.listed v,
                );
                closed = λ v d seen untested over called full. ground (
                  arith,
                  contains-snoc w.visited id d.node_id,
                  contains-snoc w.visited id v,
                  contains-snoc w.seen_tests id v,
                  i.closed v d,
                );
                sorted = λ v. elim (Bool-cases (v == id)) [
                  | inl same ↦ ground (
                    arith,
                    ap (λ z. contains seeds z) ((eq_iff v id).0 same),
                    ap (λ z. is_test_entrypoint (ref z)) ((eq_iff v id).0 same),
                    ap is_test_entrypoint known,
                    contains-snoc w.visited id v,
                    contains-snoc w.seen_tests id v,
                  )
                  | inr other ↦ ground (
                    arith,
                    i.sorted v,
                    contains-snoc w.visited id v,
                    contains-snoc w.seen_tests id v,
                  )
                ];
              })
        | inr helper ↦
            rw (unseen, helper)
              (record {
                base = λ s h. ground (arith, contains-snoc w.visited id s, i.base s h);
                reached = λ v h. elim (Bool-cases (v == id)) [
                  | inl same ↦ rw ((eq_iff v id).0 same) (up r m named helper)
                  | inr other ↦ i.reached v (ground (arith, contains-snoc w.next id v))
                ];
                reported = i.reported;
                listed = i.listed;
                closed = λ v d seen untested over called full. ground (
                  arith,
                  contains-snoc w.visited id d.node_id,
                  contains-snoc w.visited id v,
                  contains-snoc w.next id v,
                  i.closed v d,
                );
                sorted = λ v. elim (Bool-cases (v == id)) [
                  | inl same ↦ ground (
                    arith,
                    ap (λ z. is_test_entrypoint (ref z)) ((eq_iff v id).0 same),
                    ap is_test_entrypoint known,
                    ap (λ z. contains w.seen_tests z) ((eq_iff v id).0 same),
                    contains-snoc w.visited id v,
                  )
                  | inr other ↦ ground (arith, i.sorted v, contains-snoc w.visited id v)
                ];
              })
      ]

  visit-keeps :
      (c : NodeRef) (w : Found) (v : String)
      → contains w.visited v ≡ true
      → contains (visit c w).visited v ≡ true
  unfolding visit
  visit-keeps c w v h = ground (arith, contains-snoc w.visited c.node_id v)

  visit_all-keeps :
      (cs : List NodeRef) (w : Found) (v : String)
      → contains w.visited v ≡ true
      → contains (visit_all cs w).visited v ≡ true
  unfolding visit_all
  visit_all-keeps [] w v h = h
  visit_all-keeps (c ∷ cs) w v h = visit_all-keeps cs (visit c w) v (visit-keeps c w v h)

  visit-seen :
      (c : NodeRef) (w : Found)
      → (c.node_id == "") ≡ false
      → contains (visit c w).visited c.node_id ≡ true
  unfolding visit
  visit-seen c w named =
      ground (arith, contains-snoc w.visited c.node_id c.node_id, eq_iff c.node_id c.node_id)

  module _ (known : (n : String) (c : NodeRef) → Memᴰ c (inbound n) → ref c.node_id ≡ c) where
    visit-Inv :
        (todo : List String) (n : String) (c : NodeRef) (w : Found)
        → Inv todo w
        → Reached n
        → Memᴰ c (inbound n)
        → Inv todo (visit c w)
    unfolding visit
    visit-Inv todo n c w i r m = elim (Bool-cases (c.node_id == "")) [
      | inl empty ↦ rw empty i
      | inr named ↦ elim (Bool-cases (contains w.visited c.node_id)) [
        | inl seen ↦ rw (named, seen) i
        | inr new ↦
            let i' = visit_new-Inv todo n c w i r m (known n c m) named new in
            rw (named, new) (rw new at i')
      ]
    ]

    -- The callers `cs` are a part of those of `n`.
    visit_all-Inv :
        (todo : List String) (n : String) (cs : List NodeRef) (w : Found)
        → Inv todo w
        → Reached n
        → ((c : NodeRef) → Memᴰ c cs → Memᴰ c (inbound n))
        → Inv todo (visit_all cs w)
          × ((c : NodeRef)
              → Memᴰ c cs
              → (c.node_id == "") ≡ false
              → contains (visit_all cs w).visited c.node_id ≡ true)
    unfolding visit_all
    visit_all-Inv todo n [] w i r part = (i, λ c m. elim m [ ])
    visit_all-Inv todo n (c ∷ cs) w i r part =
        let (i', all_seen) =
          visit_all-Inv todo n cs (visit c w) (visit-Inv todo n c w i r (part c (Memᴰ.head refl))) r
            (λ d m. part d (Memᴰ.tail m)) in
        (
          i',
          λ d m named. elim (Memᴰ.cases_cons m) [
            | inl e ↦
                visit_all-keeps cs (visit c w) d.node_id (rw e (visit-seen c w (rw e at named)))
            | inr later ↦ all_seen d later named
          ],
        )

    pub expand-Inv :
        (callers : Callers) (todo : List String) (w : Found)
        → All (λ n. callers n ≡ inbound n) todo
        → Inv todo w
        → Inv [] (expand callers todo w)
    unfolding expand contains
    expand-Inv callers [] w same i = i
    expand-Inv callers (n ∷ todo) w same i =
        let r : Reached n = i.reached n (ground (arith, eq_iff n n)) in
        let (i', all_seen) =
          visit_all-Inv (n ∷ todo) n (callers n) w i r (λ c m. subst (λ cs. Memᴰ c cs) same.0 m) in
        expand-Inv callers todo (visit_all (callers n) w) same.1 (record {
          base = i'.base;
          reached = λ v h. i'.reached v (ground arith);
          reported = i'.reported;
          listed = i'.listed;
          closed = λ v c seen untested over called named. elim (Bool-cases (v == n)) [
            | inl here ↦
                all_seen c
                  (subst (λ cs. Memᴰ c cs) (ap inbound ((eq_iff v n).0 here) ∙ sym same.0) called)
                  named
            | inr other ↦ i'.closed v c seen untested (ground arith) called named
          ];
          sorted = i'.sorted;
        })
