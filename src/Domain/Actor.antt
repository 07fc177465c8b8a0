-- ===== src/Domain/Actor.antt =====
-- internal/core/domain/actor.go.
use veska.Common.{
  Bool, not, List, [], ◌∷◌, String, Result, ok, reject_if, ◌>>◌, contains, ◌==◌, string_eq,
}

-- An actor kind is an open string; the package accepts the listed ones.
abbrev pub ActorKind : Type 0
ActorKind = String

abbrev pub human : ActorKind
human = "human"

abbrev pub agent : ActorKind
agent = "agent"

abbrev pub system : ActorKind
system = "system"

abbrev pub valid_actor_kinds : List ActorKind
valid_actor_kinds = human ∷ agent ∷ system ∷ []

-- `_, ok := validActorKinds[kind]`.
unfoldable pub is_actor_kind : ActorKind → Bool
unfolding contains
is_actor_kind kind = contains valid_actor_kinds kind

pub record Actor : Type 0 where
  pub id : String
  pub kind : ActorKind

pub data ActorError : Type 0 where
  empty_id invalid_kind : ActorError

unfoldable pub new_actor : String → ActorKind → Result ActorError Actor
new_actor id kind = do
  reject_if (id == "") empty_id
  reject_if (not (is_actor_kind kind)) invalid_kind
  ok (record { id = id; kind = kind })
