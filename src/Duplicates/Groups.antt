-- ===== src/Duplicates/Groups.antt =====
-- groupByHash of internal/application/duplicates/duplicates.go, against its rows.
use mathlib.Core.List.{append_assoc, append-nil}
use veska.Common.{
  some_of, some_of-sort_by, All-sort_by, ltb, ◌≤◌, ◌≡◌, refl, sym, ap, ◌∙◌, inl, inr, Option, none,
  ◌&&◌, some, List, [], ◌∷◌, ◌++◌, map, String, ◌==◌, string_eq, eq_iff, Bool-cases, arith, length,
  leb, All, keep_if, contains, contains-append, sort_by,
}
use veska.Common.Dict.{Dict, lookup, lookup-insert, is_present}
use veska.Duplicates.{
  ClonedNode, CloneMember, CloneGroup, member_of, member_less, group_less, Buckets, no_buckets,
  members_at, put_row, bucket, groups_of, group_by_hash,
}

absent_few :
    (o : Option (List CloneMember)) (xs : List CloneMember)
    → members_at o ≡ xs
    → (is_present o && leb 2 (length xs)) ≡ leb 2 (length xs)
absent_few none xs e = ground (arith, ap length e)
absent_few (some ms) xs e = refl

module _ (key_of : ClonedNode → String) where
  -- The members that share a key, in the order of the rows.
  abbrev pub sharing : String → List ClonedNode → List CloneMember
  sharing h rows = map member_of (keep_if (λ r. h == key_of r) rows)

  members-bucket :
      (rows : List ClonedNode) (b : Buckets) (h : String)
      → members_at (lookup h (bucket key_of rows b).by_hash)
        ≡ members_at (lookup h b.by_hash) ++ sharing h rows
  unfolding bucket keep_if
  members-bucket [] b h = sym (append-nil (members_at (lookup h b.by_hash)))
  members-bucket (r ∷ rows) b h =
      let k = key_of r in
      let grown = members_at (lookup k b.by_hash) ++ member_of r ∷ [] in
      members-bucket rows (put_row k (member_of r) b) h ∙ (elim (Bool-cases (h == k)) [
        | inl same ↦
            let e : h ≡ k = (eq_iff h k).0 same in
            rw
              (lookup-insert k h grown b.by_hash, same, ap (λ z. members_at (lookup z b.by_hash)) e)
              (append_assoc (members_at (lookup k b.by_hash)) (member_of r ∷ []) (sharing h rows))
        | inr other ↦ rw (lookup-insert k h grown b.by_hash, other) refl
      ])

  order-bucket :
      (rows : List ClonedNode) (b : Buckets) (h : String)
      → ((j : String) → contains b.order j ≡ is_present (lookup j b.by_hash))
      → contains (bucket key_of rows b).order h
        ≡ is_present (lookup h (bucket key_of rows b).by_hash)
  unfolding bucket contains
  order-bucket [] b h e = e h
  order-bucket (r ∷ rows) b h e =
      let k = key_of r in
      let grown = members_at (lookup k b.by_hash) ++ member_of r ∷ [] in
      order-bucket rows (put_row k (member_of r) b) h (λ j.
        elim (Bool-cases (is_present (lookup k b.by_hash))) [
          | inl seen ↦
              rw (seen, lookup-insert k j grown b.by_hash) (ground (arith, e j, e k, eq_iff j k))
          | inr new ↦
              rw (new, lookup-insert k j grown b.by_hash)
                (ground (arith, contains-append b.order (k ∷ []) j, e j))
        ])

  -- A group holds the rows of its key, at least two, sorted.
  pub record IsGroupOf (rows : List ClonedNode) (g : CloneGroup) : Type 0 where
    pub plural : 2 ≤ g.size
    pub counted : g.size ≡ length (sharing g.content_hash rows)
    pub listed : g.members ≡ sort_by member_less (sharing g.content_hash rows)

  All-groups_of :
      (rows : List ClonedNode) (m : Dict String (List CloneMember)) (order : List String)
      → ((h : String) → members_at (lookup h m) ≡ sharing h rows)
      → All (IsGroupOf rows) (groups_of m order)
  unfolding groups_of
  All-groups_of rows m [] same = tt
  All-groups_of rows m (h ∷ order) same =
      elim (Bool-cases (ltb (length (members_at (lookup h m))) 2)) [
        | inl few ↦ rw few (All-groups_of rows m order same)
        | inr enough ↦ rw enough (
          record {
            plural = ground arith;
            counted = ap length (same h);
            listed = ap (sort_by member_less) (same h);
          },
          All-groups_of rows m order same,
        )
      ]

  some_of-groups_of :
      (rows : List ClonedNode) (m : Dict String (List CloneMember)) (order : List String)
      (h : String)
      → ((j : String) → members_at (lookup j m) ≡ sharing j rows)
      → some_of (λ g. h == g.content_hash) (groups_of m order)
        ≡ (contains order h && leb 2 (length (sharing h rows)))
  unfolding groups_of some_of contains
  some_of-groups_of rows m [] h same = refl
  some_of-groups_of rows m (k ∷ order) h same =
      elim (Bool-cases (ltb (length (members_at (lookup k m))) 2)) [
        | inl few ↦ rw few (elim (Bool-cases (h == k)) [
          | inl e ↦
              let e' : h ≡ k = (eq_iff h k).0 e in
              ground (
                arith,
                some_of-groups_of rows m order h same,
                ap length (same k),
                ap (λ z. length (sharing z rows)) e',
              )
          | inr ne ↦ ground (arith, some_of-groups_of rows m order h same)
        ])
        | inr enough ↦ rw enough (elim (Bool-cases (h == k)) [
          | inl e ↦
              let e' : h ≡ k = (eq_iff h k).0 e in
              ground (
                arith,
                some_of-groups_of rows m order h same,
                ap length (same k),
                ap (λ z. length (sharing z rows)) e',
              )
          | inr ne ↦ ground (arith, some_of-groups_of rows m order h same)
        ])
      ]

  -- Every group of groupByHash holds exactly the rows of its key, at least two, sorted by file and
  -- line, and a key has a group exactly when at least two rows have it.
  pub group_by_hash_lem :
      (rows : List ClonedNode)
      → All (IsGroupOf rows) (group_by_hash key_of rows)
        × ((h : String)
            → some_of (λ g. h == g.content_hash) (group_by_hash key_of rows)
              ≡ leb 2 (length (sharing h rows)))
  unfolding group_by_hash lookup contains
  group_by_hash_lem rows =
      let b = bucket key_of rows no_buckets in
      let same = members-bucket rows no_buckets in
      (
        All-sort_by group_less _ _ (All-groups_of rows b.by_hash b.order same),
        λ h.
            some_of-sort_by group_less _ (groups_of b.by_hash b.order)
            ∙ some_of-groups_of rows b.by_hash b.order h same
            ∙ rw (order-bucket rows no_buckets h (λ j. refl))
                (absent_few (lookup h b.by_hash) (sharing h rows) (same h)),
      )
