-- ===== src/Domain/Finding/Lifecycle.antt =====
-- What a finding promises from its construction to its closing.
use veska.Common.{
  ℕ, ◌≡◌, refl, ◌≢◌, ◌↔◌, ◌⊎◌, inl, inr, true, Option, none, some, List, [], ◌∷◌, String, ok, err,
  ◌>>=◌, string_eq, eq_iff, arith, >>=-inv,
}
use veska.Domain.Actor.{ActorKind, is_actor_kind, human}
use veska.Domain.Finding.{
  Finding, FindingOption, with_node_anchor, with_file_anchor, with_actor_kind, already_closed,
  FindingSpec, high, at_least, severity_valid, layer_valid, open_state, closed_state, apply_option,
  apply_options, anchor_of, blank, identify, new_finding, close,
}

at_least-high_iff : (s : String) → (at_least s high ≡ true) ↔ ((s ≡ "high") ⊎ (s ≡ "critical"))
unfolding at_least
at_least-high_iff s = (
  ground (
    arith,
    eq_iff s "info",
    eq_iff s "low",
    eq_iff s "medium",
    eq_iff s "high",
    eq_iff s "critical",
  ),
  λ h. elim h [ inl e ↦ rw e refl | inr e ↦ rw e refl ],
)

-- When a finding may be closed.
pub record CanClose (f : Finding) (reason : String) (kind : ActorKind) (id : String) : Type 0 where
  pub not_closed : f.state ≢ closed_state
  pub reason_given : reason ≢ ""
  pub id_given : id ≢ ""
  pub kind_known : is_actor_kind kind ≡ true
  pub human_if_high : (f.severity ≡ "high") ⊎ (f.severity ≡ "critical") → kind ≡ human

abbrev pub closed_by : Finding → String → ActorKind → String → ℕ → Finding
closed_by f reason kind id now = record f {
  state = closed_state;
  closed_at = some now;
  closed_reason = some reason;
  actor_kind = some kind;
  actor_id = some id;
}

module _ (f : Finding) (reason : String) (kind : ActorKind) (id : String) (now : ℕ) where
  close-CanClose :
      {g : Finding}
      → close f reason kind id now ≡ ok g
      → CanClose f reason kind id × (g ≡ closed_by f reason kind id now)
  unfolding close
  close-CanClose e = ground (
    arith,
    eq_iff f.state closed_state,
    eq_iff reason "",
    eq_iff id "",
    eq_iff kind human,
    at_least-high_iff f.severity,
  )

  CanClose-close :
      CanClose f reason kind id → close f reason kind id now ≡ ok (closed_by f reason kind id now)
  unfolding close
  CanClose-close c = ground (
    arith,
    eq_iff f.state closed_state,
    eq_iff reason "",
    eq_iff id "",
    eq_iff kind human,
    at_least-high_iff f.severity,
  )

  -- Close succeeds exactly when the finding is not closed yet, a reason and an actor are given, the
  -- actor's kind is known, and a finding of severity high or critical is closed by a human; and
  -- then it sets the state and the attribution and leaves every other field alone.
  pub close_iff :
      (g : Finding)
      → (close f reason kind id now ≡ ok g)
        ↔ (CanClose f reason kind id × (g ≡ closed_by f reason kind id now))
  close_iff g = (close-CanClose, λ (c, e). rw e (CanClose-close c))

  -- A finding that was closed is closed for good: a second Close, by anyone, is refused.
  pub close_twice :
      (g : Finding) (reason' : String) (kind' : ActorKind) (id' : String) (later : ℕ)
      → close f reason kind id now ≡ ok g
      → close g reason' kind' id' later ≡ err already_closed
  close_twice g reason' kind' id' later e = rw ((close-CanClose e).1) (unfold close in refl)

-- What holds while the options of a new finding are applied.
record Inv (spec : FindingSpec) (f : Finding) : Type 0 where
  same_rule : f.rule ≡ spec.rule
  same_severity : f.severity ≡ spec.severity
  same_layer : f.source_layer ≡ spec.layer
  still_open : f.state ≡ open_state
  never_closed : f.closed_at ≡ none
  node_anchor : f.node_id ≢ some ""
  file_anchor : f.file_path ≢ some ""
  actor_known : (k : ActorKind) → f.actor_kind ≡ some k → is_actor_kind k ≡ true

apply_option-Inv :
    (spec : FindingSpec) (o : FindingOption) (f : Finding) {g : Finding}
    → Inv spec f
    → apply_option o f ≡ ok g
    → Inv spec g
unfolding apply_option
apply_option-Inv spec (with_node_anchor id) f v e = ground (arith, eq_iff id "")
apply_option-Inv spec (with_file_anchor path) f v e = ground (arith, eq_iff path "")
apply_option-Inv spec (with_actor_kind kind) f v e = grind arith
apply_option-Inv spec o f v e = ground arith

apply_options-Inv :
    (spec : FindingSpec) (os : List FindingOption) (f : Finding) {g : Finding}
    → Inv spec f
    → apply_options os f ≡ ok g
    → Inv spec g
unfolding apply_options
apply_options-Inv spec [] f v e = ground arith
apply_options-Inv spec (o ∷ os) f v e =
    let (m, first, rest) = >>=-inv (apply_option o f) _ e in
    apply_options-Inv spec os m (apply_option-Inv spec o f v first) rest

-- The contract of a finding that was just built: `derive` is the digest of its identity.
pub record IsFresh (derive : String → String → String → String) (spec : FindingSpec) (f : Finding)
    : Type 0 where
  pub anchor : String
  pub rule_given : f.rule ≢ ""
  pub severity_known : severity_valid f.severity ≡ true
  pub layer_known : layer_valid f.source_layer ≡ true
  pub still_open : (f.state ≡ open_state) × (f.closed_at ≡ none)
  pub anchored : anchor_of f.node_id f.file_path ≡ some anchor
  pub anchor_given : anchor ≢ ""
  pub actor_known : (k : ActorKind) → f.actor_kind ≡ some k → is_actor_kind k ≡ true
  pub identity : f.finding_id ≡ derive spec.rule anchor f.finding_key

module _ (derive : String → String → String → String) where
  identify-IsFresh :
      (spec : FindingSpec) (f : Finding) (o : Option String) {g : Finding}
      → Inv spec f
      → spec.rule ≢ ""
      → severity_valid spec.severity ≡ true
      → layer_valid spec.layer ≡ true
      → anchor_of f.node_id f.file_path ≡ o
      → identify derive spec.rule f o ≡ ok g
      → IsFresh derive spec g
  identify-IsFresh spec f none v r s l a e = cc
  identify-IsFresh spec f (some anchor) v r s l a e = record {
    anchor = anchor;
    rule_given = ground arith;
    severity_known = ground arith;
    layer_known = ground arith;
    still_open = ground arith;
    anchored = ground arith;
    anchor_given = ground arith;
    actor_known = λ k q. ground (arith, v.actor_known k);
    identity = ground arith;
  }

  guards_hold :
      (spec : FindingSpec) (opts : List FindingOption) {f : Finding}
      → new_finding derive spec opts ≡ ok f
      → (spec.rule ≢ "")
        × (severity_valid spec.severity ≡ true)
        × (layer_valid spec.layer ≡ true)
        × ((apply_options opts (blank spec) >>= λ g.
              identify derive spec.rule g (anchor_of g.node_id g.file_path))
            ≡ ok f)
  unfolding new_finding
  guards_hold spec opts e = ground (arith, eq_iff spec.rule "")

  -- A finding that NewFinding returns has a rule, a known severity and layer, is open, has a
  -- non-empty anchor (its node, or its file where it has no node), a known actor kind where it has
  -- one, and is identified by its rule, its anchor and its key.
  pub new_finding-IsFresh :
      (spec : FindingSpec) (opts : List FindingOption) (f : Finding)
      → new_finding derive spec opts ≡ ok f
      → IsFresh derive spec f
  new_finding-IsFresh spec opts f e =
      let (r, s, l, rest) = guards_hold spec opts e in
      let (built, run, last) = >>=-inv (apply_options opts (blank spec)) _ rest in
      let v = apply_options-Inv spec opts (blank spec) blank-Inv run in
      identify-IsFresh spec built (anchor_of built.node_id built.file_path) v r s l refl last
    where
      blank-Inv : Inv spec (blank spec)
      blank-Inv = ground arith

  -- NewFinding accepts a node anchor and a file anchor together, and keeps both.
  pub new_finding_both_anchors :
      (spec : FindingSpec) (id path : String)
      → spec.rule ≢ ""
      → severity_valid spec.severity ≡ true
      → layer_valid spec.layer ≡ true
      → id ≢ ""
      → path ≢ ""
      → (f : Finding) × (new_finding derive spec (with_node_anchor id ∷ with_file_anchor path ∷ [])
          ≡ ok f)
        × (f.node_id ≡ some id)
        × (f.file_path ≡ some path)
  unfolding new_finding apply_options apply_option
  new_finding_both_anchors spec id path r s l i p = (
    record (blank spec) {
      node_id = some id;
      file_path = some path;
      finding_id = derive spec.rule id "";
    },
    ground (arith, eq_iff spec.rule "", eq_iff id "", eq_iff path ""),
    refl,
    refl,
  )

-- The part of a finding that its identifier is derived from.
record SameIdentity (f g : Finding) : Type 0 where
  node : f.node_id ≡ g.node_id
  file : f.file_path ≡ g.file_path
  key : f.finding_key ≡ g.finding_key

apply_option-SameIdentity :
    (o : FindingOption) (f g : Finding) {f' g' : Finding}
    → SameIdentity f g
    → apply_option o f ≡ ok f'
    → apply_option o g ≡ ok g'
    → SameIdentity f' g'
unfolding apply_option
apply_option-SameIdentity (with_node_anchor id) f g s e h = ground arith
apply_option-SameIdentity o f g s e h = ground arith

apply_options-SameIdentity :
    (os : List FindingOption) (f g : Finding) {f' g' : Finding}
    → SameIdentity f g
    → apply_options os f ≡ ok f'
    → apply_options os g ≡ ok g'
    → SameIdentity f' g'
unfolding apply_options
apply_options-SameIdentity [] f g s e h = ground arith
apply_options-SameIdentity (o ∷ os) f g s e h =
    let (m, first, rest) = >>=-inv (apply_option o f) _ e in
    let (n, first', rest') = >>=-inv (apply_option o g) _ h in
    apply_options-SameIdentity os m n (apply_option-SameIdentity o f g s first first') rest rest'

identify-SameIdentity :
    (derive : String → String → String → String) (rule : String) (f g : Finding) (o : Option String)
    {f' g' : Finding}
    → f.finding_key ≡ g.finding_key
    → identify derive rule f o ≡ ok f'
    → identify derive rule g o ≡ ok g'
    → f'.finding_id ≡ g'.finding_id
identify-SameIdentity derive rule f g none k e h = cc
identify-SameIdentity derive rule f g (some a) k e h = ground arith

-- The same rule and the same options give the same identifier in every repository, on every
-- branch, and whatever the severity, the layer and the message are.
pub new_finding-id_stable :
    (derive : String → String → String → String) (spec other : FindingSpec)
    (opts : List FindingOption) (f g : Finding)
    → spec.rule ≡ other.rule
    → new_finding derive spec opts ≡ ok f
    → new_finding derive other opts ≡ ok g
    → f.finding_id ≡ g.finding_id
new_finding-id_stable derive spec other opts f g same e h =
    let (_, _, _, rest) = guards_hold derive spec opts e in
    let (_, _, _, rest') = guards_hold derive other opts h in
    let (m, run, last) = >>=-inv (apply_options opts (blank spec)) _ rest in
    let (n, run', last') = >>=-inv (apply_options opts (blank other)) _ rest' in
    let start : SameIdentity (blank spec) (blank other) = ground arith in
    let s = apply_options-SameIdentity opts (blank spec) (blank other) start run run' in
    identify-SameIdentity derive spec.rule m n (anchor_of m.node_id m.file_path) {f' = f} {g' = g}
      s.key last (rw (s.node, s.file, same) last')
