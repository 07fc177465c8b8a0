-- ===== src/Blast/Bounds.antt =====
-- The walk stays within its bounds.
use veska.Common.{
  ℕ, zero, suc, ◌≤◌, ◌<◌, ◌≡◌, refl, ap, sym, ◌∙◌, inl, inr, List, [], ◌∷◌, ◌++◌, String, ok,
  string_eq, leb, length, length-append, All, All-append, All-always, arith, Bool-cases, IsDistinct,
  IsDistinct-snoc, ℤ, pos, negsuc,
}
use veska.Common.Dict.{Dict, lookup, insert_absent, is_present, keys, contains-keys}
use veska.Blast.{
  Options, Applied, applied, bounded, Found, nothing_found, enqueue, EdgeReader, walk,
}
use veska.Blast.Walk.{walk_keeps}

bounded_range :
    (default cap : ℕ) (v : ℤ)
    → 0 < default
    → 0 < cap
    → (0 < bounded default cap v) × (bounded default cap v ≤ cap)
unfolding bounded
bounded_range default cap (pos zero) h k = ground arith
bounded_range default cap (pos (suc n)) h k = ground arith
bounded_range default cap (negsuc n) h k = ground arith

-- Whatever the caller asks for, the bounds that are applied are at least 1 and at most the caps.
pub applied_bounds :
    (default_hub : ℤ) (o : Options)
    → let a = applied default_hub o in
      (0 < a.max_depth) × (a.max_depth ≤ 10) × (0 < a.max_nodes) × (a.max_nodes ≤ 10000)
unfolding applied
applied_bounds default_hub o = (
  (bounded_range 3 10 o.max_depth (omega arith) (omega arith)).0,
  (bounded_range 3 10 o.max_depth (omega arith) (omega arith)).1,
  (bounded_range 200 10000 o.max_nodes (omega arith) (omega arith)).0,
  (bounded_range 200 10000 o.max_nodes (omega arith) (omega arith)).1,
)

-- The order lists the visited nodes, each once, within the bound on nodes, and each distance is
-- within the bound on depth.
pub record InBounds (o : Applied) (w : Found) : Type 0 where
  pub listed : w.order ≡ keys w.visited
  pub distinct : IsDistinct w.order
  pub few : length w.order ≤ o.max_nodes
  pub near : All (λ p. p.1 ≤ o.max_depth) w.visited

map-append-one :
    (xs : Dict String ℕ) (k : String) (d : ℕ) → keys (xs ++ (k, d) ∷ []) ≡ keys xs ++ k ∷ []
map-append-one [] k d = refl
map-append-one (x ∷ xs) k d = ap (λ ys. x.0 ∷ ys) (map-append-one xs k d)

enqueue-InBounds :
    (o : Applied) (id : String) (dist : ℕ) (w : Found)
    → dist ≤ o.max_depth
    → InBounds o w
    → InBounds o (enqueue o.max_nodes id dist w).0
unfolding enqueue
enqueue-InBounds o id dist w q b = elim (Bool-cases (is_present (lookup id w.visited))) [
  | inl seen ↦ rw seen b
  | inr new ↦ elim (Bool-cases (leb o.max_nodes (length w.order))) [
    | inl full ↦
        rw (new, full)
          (record { listed = b.listed; distinct = b.distinct; few = b.few; near = b.near })
    | inr room ↦
        rw (new, room, insert_absent id dist w.visited new)
          (record {
            listed = ap (λ xs. xs ++ id ∷ []) b.listed ∙ sym (map-append-one w.visited id dist);
            distinct =
                IsDistinct-snoc w.order id b.distinct
                  (rw b.listed (contains-keys id w.visited ∙ new));
            few = ground (arith, length-append w.order (id ∷ []));
            near = All-append _ w.visited ((id, dist) ∷ []) b.near (q, tt);
          })
  ]
]

-- A walk that returns has visited at most max_nodes nodes, each once, none of them farther than
-- max_depth from the seeds.
pub walk-InBounds {ℓ} :
    {E : Type ℓ} (reader : EdgeReader E) (o : Applied) (seeds : List String) (w : Found)
    → walk reader o seeds ≡ ok w
    → InBounds o w
walk-InBounds reader o seeds w h =
    walk_keeps reader o (InBounds o) (λ dist id. dist ≤ o.max_depth)
      (λ id dist v q b. enqueue-InBounds o id dist v q b)
      (λ v hubs b. record { listed = b.listed; distinct = b.distinct; few = b.few; near = b.near })
      (λ frontier per_src dist src e lt q. All-always _ (λ n. omega arith) (per_src src)) seeds w
      (All-always _ (λ id given. omega arith) seeds) empty h
  where
    empty : InBounds o nothing_found
    empty = record { listed = refl; distinct = tt; few = omega arith; near = tt }
